-- ===== src/Internal/Parity.antt =====
-- Error correction with `XorInto`: a parity over the parts of a frame recovers any one of them.
use Prim.Native.Nat.{bit_xor}
use fastvid.Common.{
  ℕ, ◌≡◌, refl, sym, ap, ◌∙◌, Option, none, some, List, [], ◌∷◌, ◌++◌, arith, length, get_or, ltb,
  if◌then◌else◌,
}
use fastvid.Common.Words.{bit_xor_comm, bit_xor_assoc, bit_xor_self, zero_bit_xor}
use fastvid.Internal.{xor_into}
use fastvid.Internal.Xor.{xor_into_lem, get_or-past}

-- Parts that are joined into a buffer one after the other, each with its whole length.
pub xor_all : List (List ℕ) → List ℕ → Option (List ℕ)
xor_all [] target = some target
xor_all (part ∷ parts) target = elim (xor_into (some target) (some part) (length part)) [
  | some (some out) ↦ xor_all parts out
  | _ ↦ none
]

-- The exclusive or of the bytes at one index.
xor_at : ℕ → List (List ℕ) → ℕ
xor_at i [] = 0
xor_at i (part ∷ parts) = bit_xor (get_or part i 0) (xor_at i parts)

xor_zero : (a : ℕ) → bit_xor a 0 ≡ a
xor_zero a = bit_xor_comm a 0 ∙ zero_bit_xor a

xor_part :
    (i a : ℕ) (part : List ℕ)
    → (if ltb i (length part) then bit_xor a (get_or part i 0) else a) ≡ bit_xor a (get_or part i 0)
xor_part i a part = ground (arith, get_or-past part i, xor_zero a)

xor_all-step :
    (part : List ℕ) (parts : List (List ℕ)) (target out : List ℕ)
    → xor_into (some target) (some part) (length part) ≡ some (some out)
    → xor_all (part ∷ parts) target ≡ xor_all parts out
unfolding xor_all
xor_all-step part parts target out e = ground arith

xor_all-xor_at :
    (parts : List (List ℕ)) (target : List ℕ)
    → (out : List ℕ) × (xor_all parts target ≡ some out)
      × ((i : ℕ) → get_or out i 0 ≡ bit_xor (get_or target i 0) (xor_at i parts))
unfolding xor_all xor_at
xor_all-xor_at [] target = (target, refl, λ i. sym (xor_zero _))
xor_all-xor_at (part ∷ parts) target =
    let (out, runs, size, bytes) = xor_into_lem (length part) part target (omega arith) in
    let (last, runs', bytes') = xor_all-xor_at parts out in
    (
      last,
      xor_all-step part parts target out runs ∙ runs',
      λ i.
          bytes' i
          ∙ ap (λ b. bit_xor b (xor_at i parts)) (bytes i ∙ xor_part i (get_or target i 0) part)
          ∙ bit_xor_assoc _ _ _,
    )

xor_at-middle :
    (i : ℕ) (before after : List (List ℕ)) (lost : List ℕ)
    → xor_at i (before ++ lost ∷ after) ≡ bit_xor (get_or lost i 0) (xor_at i (before ++ after))
unfolding xor_at
xor_at-middle i [] after lost = refl
xor_at-middle i (part ∷ before) after lost = rw (xor_at-middle i before after lost) (
    sym (bit_xor_assoc _ _ _)
    ∙ ap (λ b. bit_xor b (xor_at i (before ++ after))) (bit_xor_comm _ _)
    ∙ bit_xor_assoc _ _ _)

-- The parity of a frame's parts, made by joining each into an empty buffer, recovers any one lost
-- part: joining the others into it gives a buffer with the lost part's bytes at every index, and
-- zeros behind its end. All the calls succeed.
pub xor_all_recovers :
    (before after : List (List ℕ)) (lost : List ℕ)
    → (parity out : List ℕ) × (xor_all (before ++ lost ∷ after) [] ≡ some parity)
      × (xor_all (before ++ after) parity ≡ some out)
      × ((i : ℕ) → get_or out i 0 ≡ get_or lost i 0)
xor_all_recovers before after lost =
    let (parity, made, bytes) = xor_all-xor_at (before ++ lost ∷ after) [] in
    let (out, joined, bytes') = xor_all-xor_at (before ++ after) parity in
    (
      parity,
      out,
      made,
      joined,
      λ i.
          bytes' i
          ∙ ap (λ b. bit_xor b (xor_at i (before ++ after)))
              (bytes i ∙ zero_bit_xor _ ∙ xor_at-middle i before after lost)
          ∙ cancel (get_or lost i 0) (xor_at i (before ++ after)),
    )
  where
    cancel : (a b : ℕ) → bit_xor (bit_xor a b) b ≡ a
    cancel a b = bit_xor_assoc a b b ∙ ap (bit_xor a) (bit_xor_self b) ∙ xor_zero a
