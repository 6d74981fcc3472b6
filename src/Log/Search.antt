-- ===== src/Log/Search.antt =====
-- What stands around a character that is found in a text.
use fastvid.Common.{
  ℕ, ◌≡◌, ◌≢◌, ◌⊎◌, inl, inr, refl, ap, none, some, [], ◌∷◌, ◌++◌, arith, length, ℕ_discrete,
}
use fastvid.Text.{Text}
use fastvid.Log.{find_first}
use fastvid.Log.Paths.{find_last_of}

-- No character of the text is `c`.
abbrev pub Lacks : ℕ → Text → Type 0
Lacks c [] = Unit
Lacks c (x ∷ xs) = (x ≢ c) × Lacks c xs

pub find_first-cases :
    (c : ℕ) (xs : Text)
    → ((find_first c xs ≡ none) × Lacks c xs)
      ⊎ ((before after : Text) × (find_first c xs ≡ some (length before))
          × (xs ≡ before ++ c ∷ after)
          × Lacks c before)
unfolding find_first
find_first-cases c [] = inl (refl, tt)
find_first-cases c (x ∷ xs) = elim (ℕ_discrete x c) [
  | yes e ↦ inr ([], xs, ground arith, ap (λ t. t ∷ xs) e, tt)
  | no n ↦ elim (find_first-cases c xs) [
    | inl (absent, lacks) ↦ inl (ground arith, (n, lacks))
    | inr (before, after, found, parts, lacks) ↦
        inr (x ∷ before, after, ground arith, ap (λ t. x ∷ t) parts, (n, lacks))
  ]
]

pub find_last_of-cases :
    (c : ℕ) (xs : Text)
    → ((find_last_of c xs ≡ none) × Lacks c xs)
      ⊎ ((before after : Text) × (find_last_of c xs ≡ some (length before))
          × (xs ≡ before ++ c ∷ after)
          × Lacks c after)
unfolding find_last_of
find_last_of-cases c [] = inl (refl, tt)
find_last_of-cases c (x ∷ xs) = elim (find_last_of-cases c xs) [
  | inr (before, after, found, parts, lacks) ↦
      inr (x ∷ before, after, ground arith, ap (λ t. x ∷ t) parts, lacks)
  | inl (absent, lacks) ↦ elim (ℕ_discrete x c) [
    | yes e ↦ inr ([], xs, ground arith, ap (λ t. t ∷ xs) e, lacks)
    | no n ↦ inl (ground arith, (n, lacks))
  ]
]
