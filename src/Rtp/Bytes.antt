-- ===== src/Rtp/Bytes.antt =====
-- The big-endian reads and writes of RtpProtocol.h. A buffer is the list of its bytes, and a read
-- past its end, which C leaves undefined, is `none`.

pub mod Laws
use Prim.Native.Nat.{bit_and, bit_or}
use fastvid.Common.{ℕ, ◌+◌, Option, none, some, List, ◌∷◌, set}
use fastvid.Common.Words.{u8, u16, u32, u64, ◌<<<◌, ◌>>>◌}

-- The functions index from `data[0]`; `data + i` is `drop i`.
pub read_be16 : List ℕ → Option ℕ
read_be16 (a ∷ b ∷ _) = some (u16 (bit_or (u16 a <<< 8) (u16 b)))
read_be16 _ = none

pub read_be32 : List ℕ → Option ℕ
read_be32 (a ∷ b ∷ c ∷ d ∷ _) =
    some (bit_or (bit_or (bit_or (u32 (a <<< 24)) (u32 (b <<< 16))) (u32 (c <<< 8))) (u32 d))
read_be32 _ = none

pub read_be64 : List ℕ → Option ℕ
read_be64 (a ∷ b ∷ c ∷ d ∷ e ∷ f ∷ g ∷ h ∷ _) =
    let high =
      bit_or (bit_or (bit_or (u64 (a <<< 56)) (u64 (b <<< 48))) (u64 (c <<< 40)))
        (u64 (d <<< 32)) in
    some (
      bit_or (bit_or (bit_or (bit_or high (u64 (e <<< 24))) (u64 (f <<< 16))) (u64 (g <<< 8)))
        (u64 h))
read_be64 _ = none

-- `static_cast<std::uint8_t>((value >> k) & 0xFF)`
abbrev pub byte_at : ℕ → ℕ → ℕ
byte_at k value = u8 (bit_and (value >>> k) 0xff)

-- A write stores its bytes from index `at` on.
unfoldable pub write_be16 : ℕ → ℕ → List ℕ → List ℕ
write_be16 value at buf = set (set buf at (byte_at 8 value)) (at + 1) (byte_at 0 value)

unfoldable pub write_be32 : ℕ → ℕ → List ℕ → List ℕ
write_be32 value at buf =
    let first = set (set buf at (byte_at 24 value)) (at + 1) (byte_at 16 value) in
    set (set first (at + 2) (byte_at 8 value)) (at + 3) (byte_at 0 value)

pub write_be64 : ℕ → ℕ → List ℕ → List ℕ
write_be64 value at buf =
    let two = set (set buf at (byte_at 56 value)) (at + 1) (byte_at 48 value) in
    let four = set (set two (at + 2) (byte_at 40 value)) (at + 3) (byte_at 32 value) in
    let six = set (set four (at + 4) (byte_at 24 value)) (at + 5) (byte_at 16 value) in
    set (set six (at + 6) (byte_at 8 value)) (at + 7) (byte_at 0 value)
