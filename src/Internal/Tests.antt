-- ===== src/Internal/Tests.antt =====
-- The helpers at concrete inputs.
use fastvid.Common.{ℕ, ◌≡◌, some, List, [], ◌∷◌, get_or}
use fastvid.Internal.Parity.{xor_all, xor_all_recovers}

xor_all_recovers_example :
    (parity out : List ℕ) × (xor_all ((1 ∷ 2 ∷ []) ∷ (7 ∷ []) ∷ (9 ∷ 9 ∷ []) ∷ []) [] ≡ some parity)
    × (xor_all ((1 ∷ 2 ∷ []) ∷ (9 ∷ 9 ∷ []) ∷ []) parity ≡ some out)
    × ((i : ℕ) → get_or out i 0 ≡ get_or (7 ∷ []) i 0)
xor_all_recovers_example = xor_all_recovers ((1 ∷ 2 ∷ []) ∷ []) ((9 ∷ 9 ∷ []) ∷ []) (7 ∷ [])
