-- ===== src/Queue/Tests.antt =====
-- The queue at concrete inputs.
use fastvid.Common.{
  ◌+◌, refl, drop, ℕ, ◌≡◌, ◌≤◌, ◌<◌, true, false, List, [], ◌∷◌, ◌++◌, arith, length,
}
use fastvid.Queue.{BoundedQueue, create, push_or_drop_oldest, wait_pop}
use fastvid.Queue.Order.{Op, push, pop, shut, IsSubsequence, run, accepted}
use fastvid.Queue.Bound.{IsValid, push_all, push_all-create}
use fastvid.Queue.Loss.{overflows}
use fastvid.Queue.Serial
use fastvid.Queue.Serial.{taken, run-calls}
use fastvid.Queue.Threads
use fastvid.Queue.Shutdown.{resume_all, resume_all-done}
use fastvid.Queue.Threads.{
  close_step, System, Reach, resume_step, no_lost_wakeup, wait_step, push_step, start_system,
  Reach-IsValid,
}

abbrev full : BoundedQueue ℕ
full = record { capacity = 2; closed = false; queue = 4 ∷ 5 ∷ [] }

abbrev calls : List (Op ℕ)
calls = push 6 ∷ pop ∷ shut ∷ push 7 ∷ pop ∷ []

full-IsValid : IsValid full
full-IsValid = omega arith

push_all-create_example : (push_all {A = ℕ} (1 ∷ 2 ∷ 3 ∷ []) (create 2)).queue ≡ 2 ∷ 3 ∷ []
push_all-create_example = push_all-create 2 (1 ∷ 2 ∷ 3 ∷ [])

-- Two consumers wait, then one value arrives.
abbrev busy : System ℕ
busy = push_step 9 (wait_step 0 (wait_step 0 (start_system 2)))

busy-Reach : Reach 2 busy
busy-Reach =
    Threads.next (Threads.next (Threads.next Threads.start (Threads.wait 0)) (Threads.wait 0))
      (Threads.push 9)

busy-waiting : 0 < busy.waiting
unfolding push_step wait_step push_or_drop_oldest wait_pop create
busy-waiting = omega arith

no_lost_wakeup_example : (busy.q.closed ≡ false) × (length busy.q.queue ≤ busy.woken)
no_lost_wakeup_example = no_lost_wakeup busy-Reach busy-waiting

-- One of them goes on.
busy-woken : 0 < busy.woken
unfolding push_step wait_step push_or_drop_oldest wait_pop create
busy-woken = omega arith

served-Reach : Reach 2 (resume_step 0 busy)
served-Reach = Threads.next busy-Reach (Threads.resume 0 busy-woken)

run-calls_example :
    (run 0 (create 2) (Serial.calls served-Reach) ≡ (taken served-Reach, (resume_step 0 busy).q))
    × IsSubsequence
        (taken served-Reach ++ (resume_step 0 busy).q.queue)
        (accepted false (Serial.calls served-Reach))
    × (length (accepted false (Serial.calls served-Reach))
        ≡ length (taken served-Reach ++ (resume_step 0 busy).q.queue)
          + overflows 0 (create 2) (Serial.calls served-Reach))
run-calls_example = run-calls 0 served-Reach

-- The queue is closed while both wait.
abbrev shut_down : System ℕ
shut_down = close_step busy

shut_down-Reach : Reach 2 shut_down
shut_down-Reach = Threads.next busy-Reach Threads.shut

shut_down-closed : shut_down.q.closed ≡ true
unfolding close_step fastvid.Queue.close
shut_down-closed = refl

resume_all-done_example :
    let s' = resume_all 0 shut_down.woken shut_down in
    Reach 2 s'
    × (s'.waiting ≡ 0)
    × (s'.woken ≡ 0)
    × (s'.q ≡ record shut_down.q { queue = drop shut_down.woken shut_down.q.queue })
resume_all-done_example = resume_all-done 0 shut_down-Reach shut_down-closed
