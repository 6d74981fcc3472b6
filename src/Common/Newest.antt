-- ===== src/Common/Newest.antt =====
-- The newest values of a list that grows at its end.
use Prim.Native.Nat.{ℕ, zero, suc, ◌-◌, ◌≤◌}
use mathlib.Core.Path.{◌≡◌, refl}
use mathlib.Core.List.{List, [], ◌∷◌, ◌++◌}
use native.Mathlib.Omega.{arith}
use fastvid.Common.Lists.{length, length-append, get_or}
use fastvid.Common.Slices.{drop, length-drop, drop-append_of_le}

module _ {ℓ} {A : Type ℓ} where
  -- The list without its first element, as `std::deque::pop_front` leaves it.
  abbrev pub pop_front : List A → List A
  pop_front [] = []
  pop_front (_ ∷ xs) = xs

  pub length-pop_front : (xs : List A) → length (pop_front xs) ≡ length xs - 1
  length-pop_front [] = refl
  length-pop_front (x ∷ xs) = omega arith

  -- The values of a list that are left when at most the last `n` are kept.
  abbrev pub newest : ℕ → List A → List A
  newest n xs = drop (length xs - n) xs

  pub pop_front-drop : (n : ℕ) (xs : List A) → pop_front (drop n xs) ≡ drop (suc n) xs
  pop_front-drop zero [] = refl
  pop_front-drop zero (x ∷ xs) = refl
  pop_front-drop (suc n) [] = refl
  pop_front-drop (suc n) (x ∷ xs) = pop_front-drop n xs

  pub newest-short : (n : ℕ) (xs : List A) → length xs ≤ n → newest n xs ≡ xs
  newest-short n xs h = let kept : length xs - n ≡ 0 = omega arith in rw kept

  pub length-newest : (n : ℕ) (xs : List A) → n ≤ length xs → length (newest n xs) ≡ n
  length-newest n xs h = omega (arith, length-drop (length xs - n) xs)

  pub newest-snoc :
      (n : ℕ) (xs : List A) (x : A)
      → 1 ≤ n
      → n ≤ length xs
      → newest n (xs ++ x ∷ []) ≡ pop_front (newest n xs) ++ x ∷ []
  newest-snoc n xs x h k =
      let shift : length (xs ++ x ∷ []) - n ≡ suc (length xs - n) =
        omega (arith, length-append xs (x ∷ [])) in
      rw (shift, pop_front-drop) (drop-append_of_le (suc (length xs - n)) xs (x ∷ []) (omega arith))

  -- The last element of a list that has grown.
  get_or-length : (xs : List A) (v d : A) → get_or (xs ++ v ∷ []) (length xs) d ≡ v
  get_or-length [] v d = refl
  get_or-length (x ∷ xs) v d = get_or-length xs v d

  pub get_or-snoc :
      (xs : List A) (v d : A) → get_or (xs ++ v ∷ []) (length (xs ++ v ∷ []) - 1) d ≡ v
  get_or-snoc xs v d =
      let last : length (xs ++ v ∷ []) - 1 ≡ length xs = omega (arith, length-append xs (v ∷ [])) in
      rw last (get_or-length xs v d)
