-- ===== src/Stats/Extremes.antt =====
-- The smallest and the largest sample of a summary.
use mathlib.Core.List.{Mem, mem-cons, mem-cons_self}
use mathlib.Core.List.Perm
use mathlib.Core.Logic.Or
use fastvid.Common.{All, suc, ◌-◌, ◌≡◌, ◌≢◌, refl, sym, subst, List, [], ◌∷◌, arith, length}
use fastvid.Float.{Double, IsOrdered}
use fastvid.Stats.{sort, front, back, summarize}
use fastvid.Stats.Sorted.{
  NotBelow, IsNumber, IsAscending, sort-Perm, sort-All, sort-IsAscending, NotBelow-self,
}

module _ {W : Type 0} ⦃d : Double W⦄ where
  back-cons : (x y : W) (ys : List W) → back (x ∷ y ∷ ys) ≡ back (y ∷ ys)
  back-cons x y ys =
      let last : suc (suc (length ys)) - 1 ≡ suc (length ys) = omega arith in
      let last' : suc (length ys) - 1 ≡ length ys = omega arith in rw (last, last')

  All-back : (P : W → Type 0) (x : W) (xs : List W) → All P (x ∷ xs) → P (back (x ∷ xs))
  All-back P x [] (p, _) = p
  All-back P x (y ∷ ys) (p, ps) = rw back-cons (All-back P y ys ps)

  front-Mem : (xs : List W) → xs ≢ [] → Mem (front xs) xs
  front-Mem [] ne = absurd (ne refl)
  front-Mem (x ∷ xs) ne = mem-cons_self

  back-Mem : (xs : List W) → xs ≢ [] → Mem (back xs) xs
  back-Mem [] ne = absurd (ne refl)
  back-Mem (x ∷ []) ne = mem-cons_self
  back-Mem (x ∷ y ∷ ys) ne = rw back-cons (mem-cons.1 (Or.inr (back-Mem (y ∷ ys) (cc))))

  sort-ne-nil : (xs : List W) → xs ≢ [] → sort xs ≢ []
  sort-ne-nil [] ne e = ne refl
  sort-ne-nil (x ∷ xs) ne e = (sort-All (λ _. ⊥) (x ∷ xs) (subst (All (λ _. ⊥)) (sym e) tt)).0

  -- A value stands between two others.
  abbrev pub IsBetween : W → W → W → Type 0
  IsBetween low high x = NotBelow low x × NotBelow x high

  module _ (laws : IsOrdered W) where
    IsAscending-back :
        (x : W) (xs : List W)
        → IsAscending (x ∷ xs)
        → All (λ y. NotBelow y (back (x ∷ xs))) (x ∷ xs)
    IsAscending-back x [] a = (NotBelow-self laws x, tt)
    IsAscending-back x (y ∷ ys) (h, a) =
        subst (λ (b : W). All (λ z. NotBelow z b) (x ∷ y ∷ ys)) (sym (back-cons x y ys))
          (All-back (NotBelow x) y ys h, IsAscending-back y ys a)

    All-both : (P Q : W → Type 0) (xs : List W) → All P xs → All Q xs → All (λ x. P x × Q x) xs
    All-both P Q [] ps qs = tt
    All-both P Q (x ∷ xs) (p, ps) (q, qs) = ((p, q), All-both P Q xs ps qs)

    ascending-IsBetween : (xs : List W) → IsAscending xs → All (IsBetween (front xs) (back xs)) xs
    ascending-IsBetween [] a = tt
    ascending-IsBetween (x ∷ xs) (h, a) =
        All-both (NotBelow x) (λ y. NotBelow y (back (x ∷ xs))) (x ∷ xs) (NotBelow-self laws x, h)
          (IsAscending-back x xs (h, a))

    -- Of samples that are numbers, at least one, the summary's smallest and largest are samples, and
    -- no sample is below the smallest or above the largest.
    pub summarize_extremes :
        (last : W) (xs : List W)
        → xs ≢ []
        → All IsNumber xs
        → let s = summarize last xs in
          All (IsBetween s.min_ms s.max_ms) xs × Mem s.min_ms xs × Mem s.max_ms xs
    unfolding summarize
    summarize_extremes last xs ne numbers = (
      sort-All (IsBetween (front (sort xs)) (back (sort xs))) xs
          (ascending-IsBetween (sort xs) (sort-IsAscending laws xs numbers)),
      (Perm.mem_iff (sort-Perm xs)).0 (front-Mem (sort xs) (sort-ne-nil xs ne)),
      (Perm.mem_iff (sort-Perm xs)).0 (back-Mem (sort xs) (sort-ne-nil xs ne)),
    )
