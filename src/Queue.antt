-- ===== src/Queue.antt =====
-- sclient/src/common/concurrency/BoundedQueue.h. Each member function runs under the mutex, so it is
-- one step on the state; `Threads` puts the steps of several threads together.
pub mod Order
pub mod Loss
pub mod Bound
pub mod Blocking
pub mod Threads
pub mod Serial
pub mod Shutdown
mod Tests
use fastvid.Common.{
  ℕ, ◌≡◌, Bool, true, false, not, ◌||◌, Option, none, some, List, [], ◌∷◌, ◌++◌, length, leb, max,
  pop_front, if◌then◌else◌,
}

-- `_capacity`, `_closed` and `_queue`, the front first. The mutex and the condition variable have no
-- value of their own.
pub record BoundedQueue {ℓ} (A : Type ℓ) : Type ℓ where
  pub capacity : ℕ
  pub closed : Bool
  pub queue : List A

module _ {ℓ} {A : Type ℓ} where
  -- The constructor.
  unfoldable pub create : ℕ → BoundedQueue A
  create capacity = record { capacity = max 1 capacity; closed = false; queue = [] }

  abbrev pub is_empty : List A → Bool
  is_empty [] = true
  is_empty (_ ∷ _) = false

  unfoldable pub push_or_drop_oldest : A → BoundedQueue A → BoundedQueue A × Bool
  push_or_drop_oldest value q =
      if q.closed
      then (q, false)
      else (let room = if leb q.capacity (length q.queue) then pop_front q.queue else q.queue in
          (record q { queue = room ++ value ∷ [] }, true))

  -- The end of WaitPop and of TryPop: the state, the return value and what `value` points to.
  pub pop_or_fail : BoundedQueue A → Option A → BoundedQueue A × Bool × Option A
  pop_or_fail q value = elim q.queue [
    | [] ↦ (q, false, value)
    | x ∷ xs ↦ (record q { queue = xs }, true, some x)
  ]

  -- `value` is what the pointer points to before the call, `none` for a null pointer.
  unfoldable pub try_pop : Option A → BoundedQueue A → BoundedQueue A × Bool × Option A
  unfolding pop_or_fail
  try_pop none q = (q, false, none)
  try_pop (some old) q = pop_or_fail q (some old)

  -- The predicate of `_condition.wait`.
  pub may_proceed : BoundedQueue A → Bool
  may_proceed q = q.closed || not (is_empty q.queue)

  -- `none` while the call blocks.
  unfoldable pub wait_pop : Option A → BoundedQueue A → Option (BoundedQueue A × Bool × Option A)
  unfolding pop_or_fail may_proceed
  wait_pop none q = some (q, false, none)
  wait_pop (some old) q = if may_proceed q then some (pop_or_fail q (some old)) else none

  pub size : BoundedQueue A → ℕ
  size q = length q.queue

  pub close : BoundedQueue A → BoundedQueue A
  close q = record q { closed = true }
