-- ===== src/Queue/Order.antt =====
-- What a queue holds and hands out, over any sequence of calls.
use fastvid.Common.{
  ℕ, Bool, true, false, none, some, List, [], ◌∷◌, ◌++◌, pop_front, length, leb, append-nil,
  append_assoc, if◌then◌else◌,
}
use fastvid.Queue.{BoundedQueue, push_or_drop_oldest, try_pop, close}

-- A call without blocking, with a pointer to store to.
pub data Op {ℓ} (A : Type ℓ) : Type ℓ where
  push : A → Op A
  pop : Op A
  shut : Op A

-- The first list is the second with some elements left out.
pub data IsSubsequence {ℓ} {A : Type ℓ} : List A → List A → Type ℓ where
  nil : IsSubsequence [] []
  keep : (x : A) {xs ys : List A} → IsSubsequence xs ys → IsSubsequence (x ∷ xs) (x ∷ ys)
  skip : (y : A) {xs ys : List A} → IsSubsequence xs ys → IsSubsequence xs (y ∷ ys)

module _ {ℓ} {A : Type ℓ} where
  -- The values that the calls hand out, oldest first, and the queue at the end.
  unfoldable pub run : A → BoundedQueue A → List (Op A) → List A × BoundedQueue A
  run d q [] = ([], q)
  run d q (push x ∷ ops) = run d (push_or_drop_oldest x q).0 ops
  run d q (pop ∷ ops) =
      let (q', done, out) = try_pop (some d) q in
      let (outs, last) = run d q' ops in
      (if done then (elim out [ none ↦ outs | some x ↦ x ∷ outs ]) else outs, last)
  run d q (shut ∷ ops) = run d (close q) ops

  -- The values that are pushed before the queue is closed.
  unfoldable pub accepted : Bool → List (Op A) → List A
  accepted closed [] = []
  accepted closed (push x ∷ ops) = if closed then accepted closed ops else x ∷ accepted closed ops
  accepted closed (pop ∷ ops) = accepted closed ops
  accepted closed (shut ∷ ops) = accepted true ops

  IsSubsequence-refl : (xs : List A) → IsSubsequence xs xs
  IsSubsequence-refl [] = nil
  IsSubsequence-refl (x ∷ xs) = keep x (IsSubsequence-refl xs)

  IsSubsequence-skip_front :
      (outs xs ys : List A)
      → IsSubsequence outs (pop_front xs ++ ys)
      → IsSubsequence outs (xs ++ ys)
  IsSubsequence-skip_front outs [] ys h = h
  IsSubsequence-skip_front outs (x ∷ xs) ys h = skip x h

  -- A push at the back, whether or not the front makes room for it.
  IsSubsequence-push :
      (full : Bool) (outs : List A) (x : A) (xs ys : List A)
      → IsSubsequence outs (((if full then pop_front xs else xs) ++ x ∷ []) ++ ys)
      → IsSubsequence outs (xs ++ x ∷ ys)
  IsSubsequence-push true outs x xs ys h =
      IsSubsequence-skip_front outs xs (x ∷ ys) (rw append_assoc at h)
  IsSubsequence-push false outs x xs ys h = rw append_assoc at h

  -- The same over the fields of a queue.
  run_fields-IsSubsequence :
      (d : A) (ops : List (Op A)) (capacity : ℕ) (closed : Bool) (xs : List A)
      → let (outs, last) =
          run d (record { capacity = capacity; closed = closed; queue = xs }) ops in
        IsSubsequence (outs ++ last.queue) (xs ++ accepted closed ops)
  unfolding run accepted push_or_drop_oldest try_pop close
  run_fields-IsSubsequence d [] capacity closed xs = rw append-nil (IsSubsequence-refl xs)
  run_fields-IsSubsequence d (push x ∷ ops) capacity true xs =
      run_fields-IsSubsequence d ops capacity true xs
  run_fields-IsSubsequence d (push x ∷ ops) capacity false xs =
      let full = leb capacity (length xs) in
      IsSubsequence-push full _ x xs (accepted false ops) (
        run_fields-IsSubsequence d ops capacity false
          ((if full then pop_front xs else xs) ++ x ∷ []))
  run_fields-IsSubsequence d (pop ∷ ops) capacity closed [] =
      run_fields-IsSubsequence d ops capacity closed []
  run_fields-IsSubsequence d (pop ∷ ops) capacity closed (x ∷ xs) =
      keep x (run_fields-IsSubsequence d ops capacity closed xs)
  run_fields-IsSubsequence d (shut ∷ ops) capacity closed xs =
      run_fields-IsSubsequence d ops capacity true xs

  -- Over any sequence of calls, what is handed out and then what is left is a subsequence of what
  -- the queue held and then what was pushed while it was open: nothing is invented, doubled or
  -- reordered, and what is pushed after closing never appears.
  pub run-IsSubsequence :
      (d : A) (ops : List (Op A)) (q : BoundedQueue A)
      → let (outs, last) = run d q ops in
        IsSubsequence (outs ++ last.queue) (q.queue ++ accepted q.closed ops)
  run-IsSubsequence d ops q = run_fields-IsSubsequence d ops q.capacity q.closed q.queue
