-- ===== src/Queue/Bound.antt =====
-- How many values a queue holds, and which.
use fastvid.Common.{
  ℕ, ◌≤◌, ◌≡◌, refl, sym, ◌∙◌, true, false, Option, none, some, List, [], ◌∷◌, ◌++◌, arith, length,
  append-nil, append_assoc, length-append, subst, max, dec_lt, pop_front, length-pop_front, newest,
  newest-short, newest-snoc, length-newest, Bool-cases, inl, inr, if◌then◌else◌,
}
use fastvid.Queue.{BoundedQueue, create, push_or_drop_oldest, try_pop, close}
use fastvid.Queue.Order.{Op, push, pop, shut, run}

module _ {ℓ} {A : Type ℓ} where
  -- The representation invariant: room for one value, and no more values than room.
  pub record IsValid (q : BoundedQueue A) : Type 0 where
    pub room : 1 ≤ q.capacity
    pub fits : length q.queue ≤ q.capacity

  pub create-IsValid : (n : ℕ) → IsValid (create n)
  unfolding create
  create-IsValid n = omega arith

  pub push-IsValid : (x : A) {q : BoundedQueue A} → IsValid q → IsValid (push_or_drop_oldest x q).0
  unfolding push_or_drop_oldest
  push-IsValid x {q} v = ground (
    arith,
    length-pop_front q.queue,
    length-append (pop_front q.queue) (x ∷ []),
    length-append q.queue (x ∷ []),
  )

  pub pop-IsValid :
      (value : Option A) {q : BoundedQueue A} → IsValid q → IsValid (try_pop value q).0
  unfolding try_pop
  pop-IsValid none v = v
  pop-IsValid (some old) v = ground arith

  capacity-push : (x : A) (q : BoundedQueue A) → (push_or_drop_oldest x q).0.capacity ≡ q.capacity
  unfolding push_or_drop_oldest
  capacity-push x q = ground arith

  capacity-pop : (value : Option A) (q : BoundedQueue A) → (try_pop value q).0.capacity ≡ q.capacity
  unfolding try_pop
  capacity-pop none q = refl
  capacity-pop (some old) q = ground arith

  -- Every sequence of calls on a queue with a valid representation keeps its capacity and leaves it
  -- valid: the queue never outgrows its capacity.
  pub run-IsValid :
      (d : A) (ops : List (Op A)) {q : BoundedQueue A}
      → IsValid q
      → IsValid (run d q ops).1 × ((run d q ops).1.capacity ≡ q.capacity)
  unfolding run close
  run-IsValid d [] v = (v, refl)
  run-IsValid d (push x ∷ ops) {q} v =
      let (valid, same) = run-IsValid d ops (push-IsValid x v) in (valid, same ∙ capacity-push x q)
  run-IsValid d (pop ∷ ops) {q} v =
      let (valid, same) = run-IsValid d ops (pop-IsValid (some d) v) in
      (valid, same ∙ capacity-pop (some d) q)
  run-IsValid d (shut ∷ ops) {q} v =
      run-IsValid d ops {q = close q} (record { room = v.room; fits = v.fits })

  -- A queue that holds the newest of its history holds the newest of the longer one after a push.
  push-newest :
      (x : A) (history : List A) (q : BoundedQueue A)
      → 1 ≤ q.capacity
      → q.closed ≡ false
      → q.queue ≡ newest q.capacity history
      → (push_or_drop_oldest x q).0.queue ≡ newest q.capacity (history ++ x ∷ [])
  unfolding push_or_drop_oldest
  push-newest x history q room opened e = elim (dec_lt (length history) q.capacity) [
    | yes short ↦ ground (
      arith,
      newest-short q.capacity history,
      newest-short q.capacity (history ++ x ∷ []),
      length-append history (x ∷ []),
    )
    | no full ↦ ground (arith, newest-snoc q.capacity history x, length-newest q.capacity history)
  ]

  -- A burst of pushes by the producers.
  pub push_all : List A → BoundedQueue A → BoundedQueue A
  push_all [] q = q
  push_all (x ∷ xs) q = push_all xs (push_or_drop_oldest x q).0

  closed-push : (x : A) (q : BoundedQueue A) → (push_or_drop_oldest x q).0.closed ≡ q.closed
  unfolding push_or_drop_oldest
  closed-push x q = ground arith

  push_all-newest :
      (xs history : List A) (q : BoundedQueue A)
      → 1 ≤ q.capacity
      → q.closed ≡ false
      → q.queue ≡ newest q.capacity history
      → (push_all xs q).queue ≡ newest q.capacity (history ++ xs)
  unfolding push_all
  push_all-newest [] history q room opened e = rw append-nil e
  push_all-newest (x ∷ xs) history q room opened e =
      subst
        (λ (c : ℕ). (push_all xs (push_or_drop_oldest x q).0).queue ≡ newest c (history ++ x ∷ xs))
        (capacity-push x q)
        (rw append_assoc at (
          push_all-newest xs (history ++ x ∷ []) (push_or_drop_oldest x q).0 (rw capacity-push room)
            (closed-push x q ∙ opened) (rw capacity-push (push-newest x history q room opened e))))

  -- After any burst of pushes a new queue holds exactly the newest values, as many as its capacity
  -- (at least one), in the order in which they came: the oldest are dropped, and no push waits.
  pub push_all-create : (n : ℕ) (xs : List A) → (push_all xs (create n)).queue ≡ newest (max 1 n) xs
  unfolding create
  push_all-create n xs =
      push_all-newest xs [] (create n) (omega arith) refl
        (sym (newest-short (max 1 n) [] (omega arith)))

  -- `PushOrDropOldest` in every state with a valid representation: a closed queue refuses the value
  -- and does not change; an open one takes it, and keeps the newest values that fit.
  pub push_or_drop_oldest_lem :
      (x : A) (q : BoundedQueue A)
      → IsValid q
      → push_or_drop_oldest x q ≡ (
          if q.closed
          then (q, false)
          else (record q { queue = newest q.capacity (q.queue ++ x ∷ []) }, true))
  unfolding push_or_drop_oldest
  push_or_drop_oldest_lem x q v = elim (Bool-cases q.closed) [
    | inl closed ↦ rw closed
    | inr opened ↦ ground (
      arith,
      push-newest x q.queue q v.room opened (sym (newest-short q.capacity q.queue v.fits)),
    )
  ]
