-- ===== src/Rtp/Bytes/Laws.antt =====
-- Big-endian words: what a read yields of its bytes, and what a read finds after a write.
use fastvid.Common.{
  ◌≢◌, none, ℕ, ◌+◌, ◌*◌, ◌/◌, ◌%◌, ◌^◌, ◌≤◌, ◌<◌, ◌≡◌, refl, ap, ◌∙◌, some, List, [], ◌∷◌, ◌++◌,
  arith, length, take, drop, set-append, set-append_zero, drop-append, take-append, drop-append_add,
}
use fastvid.Common.Words.{bit_and_0xff, bit_or_disjoint, bit_or_fits, u32, ◌<<<◌}
use fastvid.Rtp.Bytes.{read_be16, read_be32, read_be64, write_be16, write_be32, write_be64, byte_at}

-- The bytes of a word, most significant first.
abbrev pub bytes16 : ℕ → List ℕ
bytes16 v = v / 256 % 256 ∷ v % 256 ∷ []

abbrev pub bytes32 : ℕ → List ℕ
bytes32 v = bytes16 (v / 2 ^ 16) ++ bytes16 v

abbrev pub bytes64 : ℕ → List ℕ
bytes64 v = bytes32 (v / 2 ^ 32) ++ bytes32 v

pub byte_at-eq : (k v : ℕ) → byte_at k v ≡ v / 2 ^ k % 256
byte_at-eq k v = rw bit_and_0xff (omega arith)

pub read_be16-eq :
    (a b : ℕ) (rest : List ℕ) → a < 256 → b < 256 → read_be16 (a ∷ b ∷ rest) ≡ some (a * 256 + b)
unfolding read_be16
read_be16-eq a b rest ha hb = ground (arith, bit_or_disjoint 8 (a * 256) b)

pub read_be32-eq :
    (a b c d : ℕ) (rest : List ℕ)
    → a < 256
    → b < 256
    → c < 256
    → d < 256
    → read_be32 (a ∷ b ∷ c ∷ d ∷ rest) ≡ some (((a * 256 + b) * 256 + c) * 256 + d)
unfolding read_be32
read_be32-eq a b c d rest ha hb hc hd = ground (
  arith,
  bit_or_disjoint 24 (a * 2 ^ 24) (b * 2 ^ 16),
  bit_or_disjoint 16 (a * 2 ^ 24 + b * 2 ^ 16) (c * 2 ^ 8),
  bit_or_disjoint 8 (a * 2 ^ 24 + b * 2 ^ 16 + c * 2 ^ 8) d,
)

read_be64-halves :
    (a b c d e f g h : ℕ) (rest : List ℕ)
    → a < 256
    → b < 256
    → c < 256
    → d < 256
    → e < 256
    → f < 256
    → g < 256
    → h < 256
    → read_be64 (a ∷ b ∷ c ∷ d ∷ e ∷ f ∷ g ∷ h ∷ rest)
      ≡ some
          ((((a * 256 + b) * 256 + c) * 256 + d) * 2 ^ 32 + (((e * 256 + f) * 256 + g) * 256 + h))
unfolding read_be64
read_be64-halves a b c d e f g h rest ha hb hc hd he hf hg hh = ground (
  arith,
  bit_or_disjoint 56 (a * 2 ^ 56) (b * 2 ^ 48),
  bit_or_disjoint 48 (a * 2 ^ 56 + b * 2 ^ 48) (c * 2 ^ 40),
  bit_or_disjoint 40 (a * 2 ^ 56 + b * 2 ^ 48 + c * 2 ^ 40) (d * 2 ^ 32),
  bit_or_disjoint 32 (a * 2 ^ 56 + b * 2 ^ 48 + c * 2 ^ 40 + d * 2 ^ 32) (e * 2 ^ 24),
  bit_or_disjoint 24 (a * 2 ^ 56 + b * 2 ^ 48 + c * 2 ^ 40 + d * 2 ^ 32 + e * 2 ^ 24) (f * 2 ^ 16),
  bit_or_disjoint 16 (a * 2 ^ 56 + b * 2 ^ 48 + c * 2 ^ 40 + d * 2 ^ 32 + e * 2 ^ 24 + f * 2 ^ 16)
      (g * 2 ^ 8),
  bit_or_disjoint 8
      (a * 2 ^ 56 + b * 2 ^ 48 + c * 2 ^ 40 + d * 2 ^ 32 + e * 2 ^ 24 + f * 2 ^ 16 + g * 2 ^ 8) h,
)

-- Reading the bytes of a word gives the word.
pub read_be16-bytes16 :
    (v : ℕ) (rest : List ℕ) → v < 2 ^ 16 → read_be16 (bytes16 v ++ rest) ≡ some v
read_be16-bytes16 v rest h =
    read_be16-eq (v / 256 % 256) (v % 256) rest (omega arith) (omega arith) ∙ ap some (omega arith)

pub read_be32-bytes32 :
    (v : ℕ) (rest : List ℕ) → v < 2 ^ 32 → read_be32 (bytes32 v ++ rest) ≡ some v
read_be32-bytes32 v rest h =
    read_be32-eq _ _ _ _ rest (omega arith) (omega arith) (omega arith) (omega arith)
    ∙ ap some (omega arith)

pub read_be64-bytes64 :
    (v : ℕ) (rest : List ℕ) → v < 2 ^ 64 → read_be64 (bytes64 v ++ rest) ≡ some v
read_be64-bytes64 v rest h =
    read_be64-halves _ _ _ _ _ _ _ _ rest (omega arith) (omega arith) (omega arith) (omega arith)
      (omega arith) (omega arith) (omega arith) (omega arith)
    ∙ ap some (omega arith)

-- A write stores the bytes of the word, whatever stood there.
pub write_be16-start :
    (v a b : ℕ) (rest : List ℕ) → write_be16 v 0 (a ∷ b ∷ rest) ≡ bytes16 v ++ rest
unfolding write_be16
write_be16-start v a b rest = simp byte_at-eq (ground arith)

pub write_be32-start :
    (v a b c d : ℕ) (rest : List ℕ) → write_be32 v 0 (a ∷ b ∷ c ∷ d ∷ rest) ≡ bytes32 v ++ rest
unfolding write_be32
write_be32-start v a b c d rest = simp byte_at-eq (ground arith)

pub write_be64-start :
    (v a b c d e f g h : ℕ) (rest : List ℕ)
    → write_be64 v 0 (a ∷ b ∷ c ∷ d ∷ e ∷ f ∷ g ∷ h ∷ rest) ≡ bytes64 v ++ rest
unfolding write_be64
write_be64-start v a b c d e f g h rest = simp byte_at-eq (ground arith)

-- A write behind a prefix leaves the prefix alone.
pub write_be64-append :
    (before after : List ℕ) (v : ℕ)
    → write_be64 v (length before) (before ++ after) ≡ before ++ write_be64 v 0 after
unfolding write_be64
write_be64-append before after v = simp (set-append_zero, set-append)

-- `WriteBe64` at any place of a buffer, followed by `ReadBe64` there: the value comes back, and the
-- bytes before and behind the eight that are written keep their values.
pub read_be64-write_be64 :
    (before after : List ℕ) (a b c d e f g h v : ℕ)
    → v < 2 ^ 64
    → let out = write_be64 v (length before) (before ++ a ∷ b ∷ c ∷ d ∷ e ∷ f ∷ g ∷ h ∷ after) in
      (take (length before) out ≡ before)
      × (read_be64 (drop (length before) out) ≡ some v)
      × (drop (length before + 8) out ≡ after)
read_be64-write_be64 before after a b c d e f g h v fits =
    rw (write_be64-append, write_be64-start)
      (
        take-append before (bytes64 v ++ after),
        rw drop-append (read_be64-bytes64 v after fits),
        drop-append_add before (bytes64 v ++ after) 8,
      )

-- A read past the end.
pub read_be64-short : (xs : List ℕ) → length xs < 8 → read_be64 xs ≡ none
unfolding read_be64
read_be64-short [] h = refl
read_be64-short (_ ∷ []) h = refl
read_be64-short (_ ∷ _ ∷ []) h = refl
read_be64-short (_ ∷ _ ∷ _ ∷ []) h = refl
read_be64-short (_ ∷ _ ∷ _ ∷ _ ∷ []) h = refl
read_be64-short (_ ∷ _ ∷ _ ∷ _ ∷ _ ∷ []) h = refl
read_be64-short (_ ∷ _ ∷ _ ∷ _ ∷ _ ∷ _ ∷ []) h = refl
read_be64-short (_ ∷ _ ∷ _ ∷ _ ∷ _ ∷ _ ∷ _ ∷ []) h = refl
read_be64-short (_ ∷ _ ∷ _ ∷ _ ∷ _ ∷ _ ∷ _ ∷ _ ∷ xs) h = absurd (omega arith)

-- A read inside the buffer yields a value.
pub read_be16-ne-none : (xs : List ℕ) → 2 ≤ length xs → read_be16 xs ≢ none
unfolding read_be16
read_be16-ne-none [] h = absurd (omega arith)
read_be16-ne-none (_ ∷ []) h = absurd (omega arith)
read_be16-ne-none (_ ∷ _ ∷ _) h = ground arith

pub read_be32-ne-none : (xs : List ℕ) → 4 ≤ length xs → read_be32 xs ≢ none
unfolding read_be32
read_be32-ne-none [] h = absurd (omega arith)
read_be32-ne-none (_ ∷ []) h = absurd (omega arith)
read_be32-ne-none (_ ∷ _ ∷ []) h = absurd (omega arith)
read_be32-ne-none (_ ∷ _ ∷ _ ∷ []) h = absurd (omega arith)
read_be32-ne-none (_ ∷ _ ∷ _ ∷ _ ∷ _) h = ground arith

-- What is read is a word.
pub read_be16_fits : (xs : List ℕ) {v : ℕ} → read_be16 xs ≡ some v → v < 2 ^ 16
unfolding read_be16
read_be16_fits [] e = absurd (ground arith)
read_be16_fits (a ∷ []) e = absurd (ground arith)
read_be16_fits (a ∷ b ∷ xs) e = ground arith

pub read_be32_fits : (xs : List ℕ) {v : ℕ} → read_be32 xs ≡ some v → v < 2 ^ 32
unfolding read_be32
read_be32_fits [] e = absurd (ground arith)
read_be32_fits (a ∷ []) e = absurd (ground arith)
read_be32_fits (a ∷ b ∷ []) e = absurd (ground arith)
read_be32_fits (a ∷ b ∷ c ∷ []) e = absurd (ground arith)
read_be32_fits (a ∷ b ∷ c ∷ d ∷ xs) e =
    let two = bit_or_fits 32 (u32 (a <<< 24)) (u32 (b <<< 16)) (omega arith) (omega arith) in
    let three = bit_or_fits 32 _ (u32 (c <<< 8)) two (omega arith) in
    let four = bit_or_fits 32 _ (u32 d) three (omega arith) in ground (arith, four)

-- A read takes no more than its bytes.
pub read_be16-append : (xs ys : List ℕ) → 2 ≤ length xs → read_be16 (xs ++ ys) ≡ read_be16 xs
unfolding read_be16
read_be16-append [] ys h = absurd (omega arith)
read_be16-append (a ∷ []) ys h = absurd (omega arith)
read_be16-append (a ∷ b ∷ xs) ys h = refl

pub read_be32-append : (xs ys : List ℕ) → 4 ≤ length xs → read_be32 (xs ++ ys) ≡ read_be32 xs
unfolding read_be32
read_be32-append [] ys h = absurd (omega arith)
read_be32-append (a ∷ []) ys h = absurd (omega arith)
read_be32-append (a ∷ b ∷ []) ys h = absurd (omega arith)
read_be32-append (a ∷ b ∷ c ∷ []) ys h = absurd (omega arith)
read_be32-append (a ∷ b ∷ c ∷ d ∷ xs) ys h = refl
