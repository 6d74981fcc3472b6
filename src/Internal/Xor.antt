-- ===== src/Internal/Xor.antt =====
-- What `XorInto` computes, and that a parity made with it recovers any one lost part.
use Prim.Native.Nat.{bit_xor}
use fastvid.Common.{
  ℕ, zero, suc, ◌+◌, ◌-◌, ◌≤◌, ◌<◌, ◌≡◌, refl, ◌∙◌, some, List, [], ◌∷◌, ◌++◌, arith, length,
  get_or, set, replicate, ltb, leb, if◌then◌else◌, max, ℕ_discrete, ◌&&◌, length-set,
  get_or-set_self, get_or-set_ne, length-append, length-replicate, get_elem?-eq-get_or,
}
use fastvid.Internal.{xor_loop, grow, xor_into}

pub get_or-past : (xs : List ℕ) (i : ℕ) → length xs ≤ i → get_or xs i 0 ≡ 0
get_or-past [] i h = refl
get_or-past (x ∷ xs) zero h = absurd (omega arith)
get_or-past (x ∷ xs) (suc i) h = get_or-past xs i (omega arith)

get_or-grow_zeros : (xs : List ℕ) (k i : ℕ) → get_or (xs ++ replicate k 0) i 0 ≡ get_or xs i 0
get_or-grow_zeros [] zero i = refl
get_or-grow_zeros [] (suc k) zero = refl
get_or-grow_zeros [] (suc k) (suc i) = get_or-grow_zeros [] k i
get_or-grow_zeros (x ∷ xs) k zero = refl
get_or-grow_zeros (x ∷ xs) k (suc i) = get_or-grow_zeros xs k i

get_or-grow : (n : ℕ) (xs : List ℕ) (i : ℕ) → get_or (grow n xs) i 0 ≡ get_or xs i 0
unfolding grow
get_or-grow n xs i = ground (arith, get_or-grow_zeros xs (n - length xs) i)

length-grow : (n : ℕ) (xs : List ℕ) → length (grow n xs) ≡ max n (length xs)
unfolding grow
length-grow n xs = ground (
  arith,
  length-append xs (replicate (n - length xs) zero),
  length-replicate (n - length xs) zero,
)

-- What the loop leaves: the rounds from `index` on are done, the rest is as it was.
record IsXored (n index : ℕ) (source target out : List ℕ) : Type 0 where
  same_length : length out ≡ length target
  bytes :
      (i : ℕ)
      → get_or out i 0 ≡ (
          if leb index i && ltb i (index + n)
          then bit_xor (get_or target i 0) (get_or source i 0)
          else get_or target i 0)

round-bytes :
    (n index : ℕ) (source target out : List ℕ)
    → let value = bit_xor (get_or target index 0) (get_or source index 0) in
      index < length target
      → IsXored n (index + 1) source (set target index value) out
      → IsXored (suc n) index source target out
round-bytes n index source target out h done = record {
  same_length = done.same_length ∙ length-set target index value;
  bytes = λ i. elim (ℕ_discrete index i) [
    | yes e ↦ ground (arith, done.bytes i, get_or-set_self target index value 0 h)
    | no ne ↦ ground (arith, done.bytes i, get_or-set_ne target index i value 0 ne)
  ];
}
  where
    value : ℕ
    value = bit_xor (get_or target index 0) (get_or source index 0)

xor_loop-step :
    (n index : ℕ) (source target : List ℕ)
    → index < length source
    → index < length target
    → xor_loop (suc n) index source target
      ≡ xor_loop n
          (index + 1)
          source
          (set target index (bit_xor (get_or target index 0) (get_or source index 0)))
unfolding xor_loop
xor_loop-step n index source target p q =
    ground (arith, get_elem?-eq-get_or source index 0 p, get_elem?-eq-get_or target index 0 q)

xor_loop-IsXored :
    (n index : ℕ) (source target : List ℕ)
    → index + n ≤ length source
    → index + n ≤ length target
    → (out : List ℕ) × (xor_loop n index source target ≡ some out)
      × IsXored n index source target out
unfolding xor_loop
xor_loop-IsXored zero index source target p q =
    (target, refl, record { same_length = refl; bytes = λ i. ground arith })
xor_loop-IsXored (suc n) index source target p q =
    let value : ℕ = bit_xor (get_or target index 0) (get_or source index 0) in
    let (out, runs, done) =
      xor_loop-IsXored n (index + 1) source (set target index value) (omega arith)
        (omega (arith, length-set target index value)) in
    (
      out,
      xor_loop-step n index source target (omega arith) (omega arith) ∙ runs,
      round-bytes n index source target out (omega arith) done,
    )

-- `XorInto` on buffers, `n` bytes of the source: it reads and writes inside them, grows the target
-- to at least `n` bytes, and leaves at each index below `n` the exclusive or of the two bytes (0
-- stands where the target had none); the bytes behind keep their values.
pub xor_into_lem :
    (n : ℕ) (source target : List ℕ)
    → n ≤ length source
    → (out : List ℕ) × (xor_into (some target) (some source) n ≡ some (some out))
      × (length out ≡ max n (length target))
      × ((i : ℕ)
          → get_or out i 0 ≡ (
              if ltb i n
              then bit_xor (get_or target i 0) (get_or source i 0)
              else get_or target i 0))
unfolding xor_into
xor_into_lem zero source target h = (target, refl, omega arith, λ i. ground arith)
xor_into_lem (suc n) source target h =
    let (out, runs, done) =
      xor_loop-IsXored (suc n) 0 source (grow (suc n) target) (omega arith)
        (omega (arith, length-grow (suc n) target)) in
    (
      out,
      ground (arith, runs),
      done.same_length ∙ length-grow (suc n) target,
      λ i. ground (arith, done.bytes i, get_or-grow (suc n) target i),
    )
