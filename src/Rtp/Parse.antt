-- ===== src/Rtp/Parse.antt =====
-- ParseRtpHeader of RtpProtocol.h. The outer `none` of a result is a read past the end of the data,
-- which C leaves undefined.
pub mod Safety
pub mod Bounds
pub mod Long
pub mod Stamps
pub mod Typed
pub mod Again
pub mod Grammar
pub mod Prefix
pub mod RoundTrip
use Prim.Native.Nat.{bit_and}
use mathlib.Core.Option.{IsSome}
use fastvid.Common.{
  ℕ, ◌+◌, ◌*◌, Bool, true, false, not, ◌||◌, Option, none, some, List, [], ◌∷◌, length, get_elem?,
  take, drop, ltb, leb, ◌==◌, if◌then◌else◌,
}
use fastvid.Common.Words.{u8, ◌>>>◌}
use fastvid.Rtp.{HeaderFields, HeaderExtension, header_size, extension_header_size, version}
use fastvid.Rtp.Bytes.{read_be16, read_be32}

infixl 5 ◌>>=◌
abbrev ◌>>=◌ {ℓ κ} : {A : Type ℓ} {B : Type κ} → Option A → (A → Option B) → Option B
none >>= k = none
some x >>= k = k x

-- What the output pointers point to; `none` is a null pointer.
pub record Outputs : Type 0 where
  pub fields : Option HeaderFields
  pub total_size : Option ℕ  -- `header_size`
  pub extension : Option HeaderExtension

abbrev pub Reply : Type 0
Reply = Option (Bool × Outputs)

-- The bits of the first byte.
abbrev pub version_of : ℕ → ℕ
version_of first = u8 (first >>> 6)

abbrev pub has_padding : ℕ → Bool
has_padding first = not (bit_and first 0x20 == 0)

abbrev pub has_extension_bit : ℕ → Bool
has_extension_bit first = not (bit_and first 0x10 == 0)

abbrev pub base_header_size : ℕ → ℕ
base_header_size first = header_size + u8 (bit_and first 0x0f) * 4

-- `assign` from the range of `n` bytes at `data + at`.
pub read_range : List ℕ → ℕ → ℕ → Option (List ℕ)
read_range xs at n = if leb (at + n) (length xs) then some (take n (drop at xs)) else none

-- The writes through `extension`, if it is not null.
pub store_extension : List ℕ → ℕ → ℕ → Option HeaderExtension → Option (Option HeaderExtension)
store_extension xs base size none = some none
store_extension xs base size (some _) = do
  profile ← read_be16 (drop base xs)
  bytes ← read_range xs (base + extension_header_size) size
  some (some (record { profile_id = profile; payload = bytes }))

-- The block for the X bit. The inner `none` is `return false`; otherwise the header's whole size and
-- the new extension come back.
pub parse_extension :
    List ℕ → ℕ → ℕ → Option HeaderExtension → Option (Option (ℕ × Option HeaderExtension))
parse_extension xs size base ext = if ltb size (base + extension_header_size) then some none else do
  words ← read_be16 (drop (base + 2) xs)
  if ltb size (base + (extension_header_size + words * 4))
      then some none
      else (store_extension xs base (words * 4) ext >>= λ stored.
          some (some (base + (extension_header_size + words * 4), stored)))

-- The branch without the X bit clears the extension.
pub clear_extension : Option HeaderExtension → Option HeaderExtension
clear_extension none = none
clear_extension (some _) = some (record { profile_id = 0; payload = [] })

pub read_fields : List ℕ → Option HeaderFields
read_fields xs = do
  second ← get_elem? xs 1
  number ← read_be16 (drop 2 xs)
  time ← read_be32 (drop 4 xs)
  source ← read_be32 (drop 8 xs)
  some (record {
    marker = not (bit_and second 0x80 == 0);
    payload_type = u8 (bit_and second 0x7f);
    sequence_number = number;
    timestamp = time;
    ssrc = source;
  })

-- The end of the function, once the header's size is known.
pub finish : List ℕ → Outputs → Option (ℕ × Option HeaderExtension) → Reply
finish xs out none = some (false, out)
finish xs out (some (total, ext)) = read_fields xs >>= λ fields. some (
  true,
  record {
    fields = some fields;
    total_size = elim out.total_size [ none ↦ none | some _ ↦ some total ];
    extension = ext;
  },
)

is_null : Option HeaderFields → Bool
is_null none = true
is_null (some _) = false

unfoldable pub parse_header : Option (List ℕ) → ℕ → Outputs → Reply
unfolding is_null
parse_header none size out = some (false, out)
parse_header (some xs) size out =
    if is_null out.fields || ltb size header_size then some (false, out) else do
      first ← get_elem? xs 0
      let base = base_header_size first
      if not (version_of first == version) || has_padding first || ltb size base
          then some (false, out)
          else ((if has_extension_bit first
                then parse_extension xs size base out.extension
                else some (some (base, clear_extension out.extension)))
              >>= finish xs out)
