-- ===== src/Stats/Sorted.antt =====
-- The sorted samples and the figures that are read from them.
use mathlib.Core.List.{Perm}
use mathlib.Core.List.Perm
use fastvid.Common.{All, ◌≡◌, inl, inr, Bool, true, false, List, [], ◌∷◌, Bool-cases, if◌then◌else◌}
use fastvid.Float.{Double, IsOrdered}
use fastvid.Stats.{sort, insert}

module _ {W : Type 0} ⦃d : Double W⦄ where
  -- `y` is not below `x`.
  abbrev pub NotBelow : W → W → Type 0
  NotBelow x y = d.lt y x ≡ false

  abbrev pub IsNumber : W → Type 0
  IsNumber x = d.is_number x ≡ true

  -- No element is below one before it.
  abbrev pub IsAscending : List W → Type 0
  IsAscending [] = Unit
  IsAscending (x ∷ xs) = All (NotBelow x) xs × IsAscending xs

  All-insert : (P : W → Type 0) (x : W) (xs : List W) → P x → All P xs → All P (insert x xs)
  unfolding insert
  All-insert P x [] p ps = (p, tt)
  All-insert P x (y ∷ ys) p (q, qs) = elim (Bool-cases (d.lt y x)) [
    | inl below ↦ rw below (q, All-insert P x ys p qs)
    | inr above ↦ rw above (p, (q, qs))
  ]

  pub All-sort : (P : W → Type 0) (xs : List W) → All P xs → All P (sort xs)
  unfolding sort
  All-sort P [] ps = tt
  All-sort P (x ∷ xs) (p, ps) = All-insert P x (sort xs) p (All-sort P xs ps)

  insert-Perm : (x : W) (xs : List W) → Perm (insert x xs) (x ∷ xs)
  unfolding insert
  insert-Perm x [] = Perm.refl _
  insert-Perm x (y ∷ ys) = elim (Bool-cases (d.lt y x)) [
    | inl below ↦ rw below (Perm.trans (Perm.cons y (insert-Perm x ys)) (Perm.swap _ _ _))
    | inr above ↦ rw above (Perm.refl _)
  ]

  -- Sorting keeps the samples, each as often as it stands there.
  pub sort-Perm : (xs : List W) → Perm (sort xs) xs
  unfolding sort
  sort-Perm [] = Perm.refl _
  sort-Perm (x ∷ xs) = Perm.trans (insert-Perm x (sort xs)) (Perm.cons x (sort-Perm xs))

  insert-All : (P : W → Type 0) (x : W) (xs : List W) → All P (insert x xs) → P x × All P xs
  unfolding insert
  insert-All P x [] (p, _) = (p, tt)
  insert-All P x (y ∷ ys) h = by_test (d.lt y x) h (insert-All P x ys)
    where
      by_test :
          (below : Bool)
          → All P (if below then y ∷ insert x ys else x ∷ y ∷ ys)
          → (All P (insert x ys) → P x × All P ys)
          → P x × All P (y ∷ ys)
      by_test true (q, h) ih = let (p, qs) = ih h in (p, (q, qs))
      by_test false (p, qs) ih = (p, qs)

  pub sort-All : (P : W → Type 0) (xs : List W) → All P (sort xs) → All P xs
  unfolding sort
  sort-All P [] h = tt
  sort-All P (x ∷ xs) h = let (p, ps) = insert-All P x (sort xs) h in (p, sort-All P xs ps)

  module _ (laws : IsOrdered W) where
    open laws use {lt_asymm, not_lt_trans}

    All-NotBelow-trans :
        (x y : W) (zs : List W)
        → IsNumber y
        → NotBelow x y
        → All (NotBelow y) zs
        → All (NotBelow x) zs
    All-NotBelow-trans x y [] n h hs = tt
    All-NotBelow-trans x y (z ∷ zs) n h (k, ks) =
        (not_lt_trans z y x n k h, All-NotBelow-trans x y zs n h ks)

    insert-IsAscending :
        (x : W) (xs : List W) → All IsNumber xs → IsAscending xs → IsAscending (insert x xs)
    unfolding insert
    insert-IsAscending x [] n a = (tt, tt)
    insert-IsAscending x (y ∷ ys) (n, ns) (h, a) = elim (Bool-cases (d.lt y x)) [
      | inl below ↦
          rw below
            (All-insert (NotBelow y) x ys (lt_asymm y x below) h, insert-IsAscending x ys ns a)
      | inr above ↦ rw above ((above, All-NotBelow-trans x y ys n above h), (h, a))
    ]

    pub sort-IsAscending : (xs : List W) → All IsNumber xs → IsAscending (sort xs)
    unfolding sort
    sort-IsAscending [] ns = tt
    sort-IsAscending (x ∷ xs) (n, ns) =
        insert-IsAscending x (sort xs) (All-sort IsNumber xs ns) (sort-IsAscending xs ns)

    pub NotBelow-self : (x : W) → NotBelow x x
    NotBelow-self x = elim (Bool-cases (d.lt x x)) [
      | inl below ↦ lt_asymm x x below
      | inr above ↦ above
    ]
