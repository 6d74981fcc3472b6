-- ===== src/Queue/Loss.antt =====
-- How many values the queue drops over a sequence of calls: one for each push that finds it full.
use fastvid.Common.{
  ℕ, ◌+◌, ◌≤◌, ◌≡◌, Bool, true, false, some, List, [], ◌∷◌, ◌++◌, arith, length, leb, pop_front,
  append-nil, length-append, length-pop_front, if◌then◌else◌,
}
use fastvid.Queue.{BoundedQueue, push_or_drop_oldest, try_pop, close}
use fastvid.Queue.Order.{Op, push, pop, shut, run, accepted}

module _ {ℓ} {A : Type ℓ} where
  -- The pushes that find an open queue full.
  unfoldable pub overflows : A → BoundedQueue A → List (Op A) → ℕ
  overflows d q [] = 0
  overflows d q (push x ∷ ops) =
      (if q.closed then 0 else (if leb q.capacity (length q.queue) then 1 else 0))
      + overflows d (push_or_drop_oldest x q).0 ops
  overflows d q (pop ∷ ops) = overflows d (try_pop (some d) q).0 ops
  overflows d q (shut ∷ ops) = overflows d (close q) ops

  length-run_fields :
      (d : A) (ops : List (Op A)) (capacity : ℕ) (closed : Bool) (xs : List A)
      → 1 ≤ capacity
      → let q : BoundedQueue A = record { capacity = capacity; closed = closed; queue = xs } in
        let (outs, last) = run d q ops in
        length (xs ++ accepted closed ops) ≡ length (outs ++ last.queue) + overflows d q ops
  unfolding run accepted push_or_drop_oldest try_pop close overflows
  length-run_fields d [] capacity closed xs room = rw append-nil (omega arith)
  length-run_fields d (push x ∷ ops) capacity true xs room =
      ground (arith, length-run_fields d ops capacity true xs)
  length-run_fields d (push x ∷ ops) capacity false xs room =
      let full = leb capacity (length xs) in
      let kept = (if full then pop_front xs else xs) ++ x ∷ [] in
      ground (
        arith,
        length-run_fields d ops capacity false kept,
        length-append xs (x ∷ accepted false ops),
        length-append kept (accepted false ops),
        length-append (pop_front xs) (x ∷ []),
        length-append xs (x ∷ []),
        length-pop_front xs,
      )
  length-run_fields d (pop ∷ ops) capacity closed [] room =
      length-run_fields d ops capacity closed [] room
  length-run_fields d (pop ∷ ops) capacity closed (x ∷ xs) room =
      omega (arith, length-run_fields d ops capacity closed xs room)
  length-run_fields d (shut ∷ ops) capacity closed xs room =
      length-run_fields d ops capacity true xs room

  -- Over any sequence of calls on a queue with room for a value, as many values are lost as there are
  -- pushes that find the queue full.
  pub length-run :
      (d : A) (ops : List (Op A)) (q : BoundedQueue A)
      → 1 ≤ q.capacity
      → let (outs, last) = run d q ops in
        length (q.queue ++ accepted q.closed ops) ≡ length (outs ++ last.queue) + overflows d q ops
  length-run d ops q room = length-run_fields d ops q.capacity q.closed q.queue room
