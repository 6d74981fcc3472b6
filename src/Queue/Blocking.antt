-- ===== src/Queue/Blocking.antt =====
-- When `WaitPop` blocks, and what a consumer gets that calls it, or `TryPop`, again and again.
use fastvid.Common.{
  ℕ, zero, suc, ◌<◌, ◌≡◌, take-nil, drop-nil, refl, Bool, true, false, not, ◌&&◌, none, some, List,
  [], ◌∷◌, arith, length, take, drop, replicate, if◌then◌else◌,
}
use fastvid.Queue.{BoundedQueue, is_empty, try_pop, wait_pop}
use fastvid.Queue.Order.{pop, run}

module _ {ℓ} {A : Type ℓ} where
  wait_pop_fields :
      (old : A) (capacity : ℕ) (closed : Bool) (xs : List A)
      → let q : BoundedQueue A = record { capacity = capacity; closed = closed; queue = xs } in
        wait_pop (some old) q
        ≡ (if not closed && is_empty xs then none else some (try_pop (some old) q))
  unfolding wait_pop try_pop
  wait_pop_fields old capacity true [] = refl
  wait_pop_fields old capacity true (x ∷ xs) = refl
  wait_pop_fields old capacity false [] = refl
  wait_pop_fields old capacity false (x ∷ xs) = refl

  -- `WaitPop` with a pointer to store to blocks exactly while the queue is open and empty; where it
  -- does not block, it does what `TryPop` does.
  pub wait_pop_lem :
      (old : A) (q : BoundedQueue A)
      → wait_pop (some old) q
        ≡ (if not q.closed && is_empty q.queue then none else some (try_pop (some old) q))
  wait_pop_lem old q = wait_pop_fields old q.capacity q.closed q.queue

  run_fields-replicate_pop :
      (d : A) (n capacity : ℕ) (closed : Bool) (xs : List A)
      → run d (record { capacity = capacity; closed = closed; queue = xs }) (replicate n pop)
        ≡ (take n xs, record { capacity = capacity; closed = closed; queue = drop n xs })
  unfolding run try_pop
  run_fields-replicate_pop d zero capacity closed xs = refl
  run_fields-replicate_pop d (suc n) capacity closed [] =
      rw (run_fields-replicate_pop d n capacity closed [], take-nil, drop-nil)
  run_fields-replicate_pop d (suc n) capacity closed (x ∷ xs) =
      rw (run_fields-replicate_pop d n capacity closed xs)

  -- A consumer that pops `n` times gets the first `n` values of the queue in order, or all of them
  -- if there are fewer, whether the queue is closed or not; the rest stays.
  pub run-replicate_pop :
      (d : A) (n : ℕ) (q : BoundedQueue A)
      → run d q (replicate n pop) ≡ (take n q.queue, record q { queue = drop n q.queue })
  run-replicate_pop d n q = run_fields-replicate_pop d n q.capacity q.closed q.queue

-- How a consumer's loop around `WaitPop` stands: it has ended, since a call returned false; it
-- blocks; or the rounds have run out. The values come in the order in which it got them.
pub data Consumed {ℓ} (A : Type ℓ) : Type ℓ where
  ended blocked : List A → BoundedQueue A → Consumed A
  unfinished : Consumed A

module _ {ℓ} {A : Type ℓ} where
  abbrev prepend : A → Consumed A → Consumed A
  prepend x (ended xs q) = ended (x ∷ xs) q
  prepend x (blocked xs q) = blocked (x ∷ xs) q
  prepend x unfinished = unfinished

  -- `while (queue.WaitPop(&value)) { ... }`, with `value` as it was before.
  unfoldable consume : ℕ → A → BoundedQueue A → Consumed A
  consume zero value q = unfinished
  consume (suc rounds) value q = elim (wait_pop (some value) q) [
    | none ↦ blocked [] q
    | some (q', false, _) ↦ ended [] q'
    | some (q', true, none) ↦ ended [] q'
    | some (q', true, some x) ↦ prepend x (consume rounds x q')
  ]

  consume_fields :
      (rounds : ℕ) (value : A) (capacity : ℕ) (closed : Bool) (xs : List A)
      → length xs < rounds
      → let q : BoundedQueue A = record { capacity = capacity; closed = closed; queue = xs } in
        consume rounds value q ≡ (
          if closed
          then ended xs (record q { queue = [] })
          else blocked xs (record q { queue = [] }))
  unfolding consume wait_pop
  consume_fields zero value capacity closed xs h = absurd (omega arith)
  consume_fields (suc rounds) value capacity true [] h = refl
  consume_fields (suc rounds) value capacity false [] h = refl
  consume_fields (suc rounds) value capacity true (x ∷ xs) h =
      rw (consume_fields rounds x capacity true xs (omega arith))
  consume_fields (suc rounds) value capacity false (x ∷ xs) h =
      rw (consume_fields rounds x capacity false xs (omega arith))

  -- A consumer's loop around `WaitPop`, with nobody else at work, gets every value of the queue in
  -- order within one more round than there are values; then it ends if the queue is closed, and
  -- blocks if it is open, with the queue empty.
  consume_lem :
      (rounds : ℕ) (value : A) (q : BoundedQueue A)
      → length q.queue < rounds
      → let rest = record q { queue = [] } in
        consume rounds value q ≡ (if q.closed then ended q.queue rest else blocked q.queue rest)
  consume_lem rounds value q h = consume_fields rounds value q.capacity q.closed q.queue h
