-- ===== src/Queue/Serial.antt =====
-- What threads do to a queue is what the same calls do one after the other.
use fastvid.Common.{
  ℕ, ◌+◌, length, ◌-◌, ◌≡◌, refl, ap, ◌∙◌, subst, Bool, false, Option, none, some, List, [], ◌∷◌,
  ◌++◌, arith, if◌then◌else◌,
}
use fastvid.Queue.{BoundedQueue, create, push_or_drop_oldest, try_pop, wait_pop, close}
use fastvid.Queue.Order.{Op, push, pop, shut, run, accepted, IsSubsequence, run-IsSubsequence}
use fastvid.Queue.Loss.{overflows, length-run}
use fastvid.Queue.Threads
use fastvid.Queue.Threads.{
  System, try, wait, resume, spurious, Step, Reach, start, next, push_step, wait_step, resume_step,
  close_step, notify_one-q,
}

module _ {ℓ} {A : Type ℓ} where
  -- The value that a call hands out, if it does.
  abbrev pub handed : BoundedQueue A × Bool × Option A → List A
  handed (q, done, none) = []
  handed (q, done, some x) = if done then x ∷ [] else []

  -- What a call of WaitPop hands out, and whether it is through: while it blocks, it is no call yet.
  abbrev pub waited : Option (BoundedQueue A × Bool × Option A) → List (Op A) × List A
  waited none = ([], [])
  waited (some r) = (pop ∷ [], handed r)

  -- The call that a step ends, if it ends one, and the values that it hands out.
  abbrev pub ended : {s t : System A} → Step s t → List (Op A) × List A
  ended (Threads.push x) = (push x ∷ [], [])
  ended {s} (try d) = (pop ∷ [], handed (try_pop (some d) s.q))
  ended {s} (wait d) = waited (wait_pop (some d) s.q)
  ended {s} (resume d h) = waited (wait_pop (some d) s.q)
  ended (spurious h) = ([], [])
  ended Threads.shut = (shut ∷ [], [])

  -- The calls of the threads, in the order in which they had the mutex last.
  abbrev pub calls : {n : ℕ} {s : System A} → Reach n s → List (Op A)
  calls start = []
  calls (next r st) = calls r ++ (ended st).0

  -- The values that the threads were handed, oldest first.
  abbrev pub taken : {n : ℕ} {s : System A} → Reach n s → List A
  taken start = []
  taken (next r st) = taken r ++ (ended st).1

  try-run :
      (d e : A) (q : BoundedQueue A)
      → run e q (pop ∷ []) ≡ (handed (try_pop (some d) q), (try_pop (some d) q).0)
  unfolding run try_pop
  try-run d e q = ground arith

  wait-run :
      (d e : A) (s : System A)
      → let (ops, outs) = waited (wait_pop (some d) s.q) in
        run e s.q ops ≡ (outs, (wait_step d s).q)
  unfolding run try_pop wait_pop wait_step
  wait-run d e s = ground arith

  push-run : (x e : A) (s : System A) → run e s.q (push x ∷ []) ≡ ([], (push_step x s).q)
  unfolding run push_step
  push-run x e s = ground (arith, notify_one-q (record s { q = (push_or_drop_oldest x s.q).0 }))

  step-run : (e : A) {s t : System A} (st : Step s t) → run e s.q (ended st).0 ≡ ((ended st).1, t.q)
  unfolding run close_step resume_step
  step-run e {s} (Threads.push x) = push-run x e s
  step-run e {s} (try d) = try-run d e s.q
  step-run e {s} (wait d) = wait-run d e s
  step-run e {s} (resume d h) = wait-run d e (record s { woken = s.woken - 1 })
  step-run e (spurious h) = refl
  step-run e Threads.shut = refl

  run-append :
      (e : A) (q : BoundedQueue A) (xs ys : List (Op A))
      → run e q (xs ++ ys)
        ≡ ((run e q xs).0 ++ (run e (run e q xs).1 ys).0, (run e (run e q xs).1 ys).1)
  unfolding run
  run-append e q [] ys = refl
  run-append e q (push x ∷ xs) ys = run-append e (push_or_drop_oldest x q).0 xs ys
  run-append e q (pop ∷ xs) ys = ground (arith, run-append e (try_pop (some e) q).0 xs ys)
  run-append e q (shut ∷ xs) ys = run-append e (close q) xs ys

  Reach-run :
      (e : A) {n : ℕ} {s : System A} (r : Reach n s) → run e (create n) (calls r) ≡ (taken r, s.q)
  unfolding run
  Reach-run e start = refl
  Reach-run e {n} (next {s} {t} r st) =
      let before = Reach-run e r in
      run-append e (create n) (calls r) (ended st).0
      ∙ ap (λ p. (p.0 ++ (run e p.1 (ended st).0).0, (run e p.1 (ended st).0).1)) before
      ∙ ap (λ p. (taken r ++ p.0, p.1)) (step-run e st)

  -- Any number of threads in any interleaving, with waits and spurious wake-ups: the queue is
  -- what the calls that are through leave when they run one after the other, in the order in which
  -- they had the mutex, and the threads were handed what these calls hand out, in this order. What
  -- was handed out and then what the queue holds is a subsequence of what was pushed before the
  -- closing, and exactly as many values are missing from it as pushes found the queue full: nothing is
  -- lost, doubled or reordered otherwise.
  pub run-calls :
      (e : A) {n : ℕ} {s : System A} (r : Reach n s)
      → (run e (create n) (calls r) ≡ (taken r, s.q))
        × IsSubsequence (taken r ++ s.q.queue) (accepted false (calls r))
        × (length (accepted false (calls r))
            ≡ length (taken r ++ s.q.queue) + overflows e (create n) (calls r))
  unfolding create
  run-calls e {n} {s} r =
      let same = Reach-run e r in
      (
        same,
        subst (λ p. IsSubsequence (p.0 ++ p.1.queue) (accepted false (calls r))) same
            (run-IsSubsequence e (calls r) (create n)),
        subst
            (λ p.
              length (accepted false (calls r))
              ≡ length (p.0 ++ p.1.queue) + overflows e (create n) (calls r))
            same (length-run e (calls r) (create n) (omega arith)),
      )
