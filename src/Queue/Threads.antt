-- ===== src/Queue/Threads.antt =====
-- Producers and consumers on one queue, in any interleaving. A consumer inside WaitPop is `waiting`
-- from the moment that `_condition.wait` blocks until it is notified (or wakes of itself), and then
-- `woken` until it has the mutex again and has tested the predicate anew.
use fastvid.Common.{
  ℕ, ◌+◌, ◌-◌, ◌≤◌, ◌<◌, ◌≡◌, ◌⊎◌, true, false, none, some, [], ◌∷◌, arith, length, pop_front,
  if◌then◌else◌, ◌==◌, length-append, length-pop_front, pop_front,
}
use fastvid.Queue.{BoundedQueue, create, push_or_drop_oldest, try_pop, wait_pop, close}
use fastvid.Queue.Bound.{IsValid, create-IsValid, push-IsValid, pop-IsValid}

pub record System {ℓ} (A : Type ℓ) : Type ℓ where
  pub q : BoundedQueue A
  pub waiting : ℕ
  pub woken : ℕ

module _ {ℓ} {A : Type ℓ} where
  -- `_condition.notify_one` and `notify_all`.
  pub notify_one : System A → System A
  notify_one s =
      if s.waiting == 0 then s else record s { waiting = s.waiting - 1; woken = s.woken + 1 }

  pub notify_all : System A → System A
  notify_all s = record s { waiting = 0; woken = s.woken + s.waiting }

  unfoldable pub push_step : A → System A → System A
  unfolding notify_one
  push_step x s =
      let (q', done) = push_or_drop_oldest x s.q in
      if done then notify_one (record s { q = q' }) else record s { q = q' }

  unfoldable pub close_step : System A → System A
  unfolding notify_all
  close_step s = notify_all (record s { q = close s.q })

  -- A call of WaitPop: it goes on at once, or blocks.
  unfoldable pub wait_step : A → System A → System A
  wait_step d s = elim (wait_pop (some d) s.q) [
    | none ↦ record s { waiting = s.waiting + 1 }
    | some (q', _, _) ↦ record s { q = q' }
  ]

  -- A woken consumer, with the mutex, goes on or blocks again.
  unfoldable pub resume_step : A → System A → System A
  unfolding wait_step
  resume_step d s = wait_step d (record s { woken = s.woken - 1 })

  pub data Step (s : System A) : System A → Type ℓ where
    push : (x : A) → Step s (push_step x s)
    try : (d : A) → Step s (record s { q = (try_pop (some d) s.q).0 })
    wait : (d : A) → Step s (wait_step d s)
    resume : (d : A) → 0 < s.woken → Step s (resume_step d s)
    spurious : 0 < s.waiting → Step s (record s { waiting = s.waiting - 1; woken = s.woken + 1 })
    shut : Step s (close_step s)

  abbrev pub start_system : ℕ → System A
  start_system n = record { q = create n; waiting = 0; woken = 0 }

  pub data Reach (n : ℕ) : System A → Type ℓ where
    start : Reach n (start_system n)
    next : {s t : System A} → Reach n s → Step s t → Reach n t

  -- Nobody waits at a closed queue, and as many consumers are woken as there are values, if any
  -- still waits.
  pub record IsLive (s : System A) : Type 0 where
    pub shut_free : s.q.closed ≡ true → s.waiting ≡ 0
    pub served : (s.waiting ≡ 0) ⊎ (length s.q.queue ≤ s.woken)

  length-push-le :
      (x : A) (q : BoundedQueue A) → length (push_or_drop_oldest x q).0.queue ≤ length q.queue + 1
  unfolding push_or_drop_oldest
  length-push-le x q = ground (
    arith,
    length-append q.queue (x ∷ []),
    length-append (pop_front q.queue) (x ∷ []),
    length-pop_front q.queue,
  )

  push-closed :
      (x : A) (q : BoundedQueue A)
      → ((push_or_drop_oldest x q).0.closed ≡ q.closed)
        × ((push_or_drop_oldest x q).1 ≡ false → (push_or_drop_oldest x q).0 ≡ q)
  unfolding push_or_drop_oldest
  push-closed x q = ground arith

  push-IsLive : (x : A) {s : System A} → IsLive s → IsLive (push_step x s)
  unfolding push_step
  push-IsLive x {s} v = ground (arith, length-push-le x s.q, push-closed x s.q)

  try-IsLive :
      (d : A) {s : System A} → IsLive s → IsLive (record s { q = (try_pop (some d) s.q).0 })
  unfolding try_pop
  try-IsLive d v = ground arith

  wait-IsLive : (d : A) {s : System A} → IsLive s → IsLive (wait_step d s)
  unfolding wait_step wait_pop
  wait-IsLive d v = ground arith

  resume-IsLive : (d : A) {s : System A} → 0 < s.woken → IsLive s → IsLive (resume_step d s)
  unfolding resume_step wait_pop
  resume-IsLive d h v = ground arith

  close-IsLive : {s : System A} → IsLive s → IsLive (close_step s)
  unfolding close_step close
  close-IsLive v = ground arith

  Step-IsLive : {s t : System A} → Step s t → IsLive s → IsLive t
  Step-IsLive (push x) v = push-IsLive x v
  Step-IsLive (try d) v = try-IsLive d v
  Step-IsLive (wait d) v = wait-IsLive d v
  Step-IsLive (resume d h) v = resume-IsLive d h v
  Step-IsLive (spurious h) v = ground arith
  Step-IsLive shut v = close-IsLive v

  pub Reach-IsLive : {n : ℕ} {s : System A} → Reach n s → IsLive s
  unfolding create
  Reach-IsLive start = ground arith
  Reach-IsLive (next r st) = Step-IsLive st (Reach-IsLive r)

  -- No wake-up is lost, whatever the interleaving: if a consumer waits while the queue holds
  -- values, the queue is open and at least as many consumers are woken as there are values.
  pub no_lost_wakeup :
      {n : ℕ} {s : System A}
      → Reach n s
      → 0 < s.waiting
      → (s.q.closed ≡ false) × (length s.q.queue ≤ s.woken)
  no_lost_wakeup {s} r h = let live : IsLive s = Reach-IsLive r in ground arith

  pub notify_one-q : (s : System A) → (notify_one s).q ≡ s.q
  unfolding notify_one
  notify_one-q s = ground arith

  push_step-IsValid : (x : A) (s : System A) → IsValid s.q → IsValid (push_step x s).q
  unfolding push_step
  push_step-IsValid x s v = ground (arith, push-IsValid x v)

  wait_step-IsValid : (d : A) (s : System A) → IsValid s.q → IsValid (wait_step d s).q
  unfolding wait_step wait_pop
  wait_step-IsValid d s v = ground arith

  Step-IsValid : {s t : System A} → Step s t → IsValid s.q → IsValid t.q
  unfolding resume_step close_step close
  Step-IsValid {s} (push x) v = push_step-IsValid x s v
  Step-IsValid (try d) v = pop-IsValid (some d) v
  Step-IsValid {s} (wait d) v = wait_step-IsValid d s v
  Step-IsValid {s} (resume d h) v = wait_step-IsValid d (record s { woken = s.woken - 1 }) v
  Step-IsValid (spurious h) v = v
  Step-IsValid shut v = record { room = v.room; fits = v.fits }

  -- The queue stays within its capacity, whatever the threads do.
  pub Reach-IsValid : {n : ℕ} {s : System A} → Reach n s → IsValid s.q
  Reach-IsValid {n} start = create-IsValid n
  Reach-IsValid (next r st) = Step-IsValid st (Reach-IsValid r)
