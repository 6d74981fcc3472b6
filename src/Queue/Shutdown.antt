-- ===== src/Queue/Shutdown.antt =====
-- How the consumers get out of a closed queue.
use fastvid.Common.{ℕ, zero, suc, ◌-◌, ◌≡◌, ◌≤◌, refl, ap, ◌∙◌, true, List, [], ◌∷◌, arith, drop}
use fastvid.Queue.{wait_pop}
use fastvid.Queue.Threads
use fastvid.Queue.Threads.{
  System, wait_step, resume_step, Reach, no_lost_wakeup, IsLive, Reach-IsLive,
}

module _ {ℓ} {A : Type ℓ} where
  -- Woken consumers go on, one after the other.
  unfoldable pub resume_all : A → ℕ → System A → System A
  resume_all d zero s = s
  resume_all d (suc count) s = resume_all d count (resume_step d s)

  -- One of them at a closed queue takes the front value, if there is one, and does not block.
  resume-closed :
      (d : A) (s : System A)
      → s.q.closed ≡ true
      → resume_step d s
        ≡ record s { q = record s.q { queue = drop 1 s.q.queue }; woken = s.woken - 1 }
  unfolding resume_step wait_step wait_pop
  resume-closed d s e = ground arith

  drop_one : (k : ℕ) (xs : List A) → drop k (drop 1 xs) ≡ drop (suc k) xs
  drop_one zero [] = refl
  drop_one (suc k) [] = refl
  drop_one k (x ∷ xs) = refl

  resume_all-closed :
      (d : A) (count : ℕ) (s : System A)
      → s.q.closed ≡ true
      → resume_all d count s
        ≡ record s { q = record s.q { queue = drop count s.q.queue }; woken = s.woken - count }
  unfolding resume_all
  resume_all-closed d zero s e =
      let none_taken : s.woken - 0 ≡ s.woken = omega arith in rw none_taken refl
  resume_all-closed d (suc count) s e =
      let one : s.woken - 1 - count ≡ s.woken - suc count = omega arith in
      ap (resume_all d count) (resume-closed d s e)
      ∙ resume_all-closed d count
          (record s { q = record s.q { queue = drop 1 s.q.queue }; woken = s.woken - 1 }) e
      ∙ rw (one, drop_one count s.q.queue) refl

  resume_all-Reach :
      (d : A) (count : ℕ) {n : ℕ} {s : System A}
      → Reach n s
      → count ≤ s.woken
      → s.q.closed ≡ true
      → Reach n (resume_all d count s)
  unfolding resume_all
  resume_all-Reach d zero r enough e = r
  resume_all-Reach d (suc count) {s = s} r enough e =
      let step = resume-closed d s e in
      resume_all-Reach d count (Threads.next r (Threads.resume d (omega arith)))
        (omega (arith, ap (λ (t : System A). t.woken) step))
        (ap (λ (t : System A). t.q.closed) step ∙ e)

  -- Once the queue is closed, whatever the threads have done: nobody waits, and the woken consumers
  -- can all go on, one step each, without blocking again; they take the front values, as many as
  -- there are, and then nobody waits or is woken.
  pub resume_all-done :
      (d : A) {n : ℕ} {s : System A}
      → Reach n s
      → s.q.closed ≡ true
      → let s' = resume_all d s.woken s in
        Reach n s'
        × (s'.waiting ≡ 0)
        × (s'.woken ≡ 0)
        × (s'.q ≡ record s.q { queue = drop s.woken s.q.queue })
  resume_all-done d {n} {s} r e =
      let live : IsLive s = Reach-IsLive r in
      let all = resume_all-closed d s.woken s e in
      (
        resume_all-Reach d s.woken r (omega arith) e,
        ap (λ (t : System A). t.waiting) all ∙ live.shut_free e,
        ap (λ (t : System A). t.woken) all ∙ omega arith,
        ap (λ (t : System A). t.q) all,
      )
