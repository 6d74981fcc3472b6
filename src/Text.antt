-- ===== src/Text.antt =====
-- Texts as lists of character codes, and `std::to_string`.
use Prim.Native.String.{String}
use Prim.Native.Char.{code}
use fastvid.Common.{ℕ, zero, suc, ◌+◌, ◌/◌, ◌%◌, List, [], ◌∷◌, ltb, if◌then◌else◌}
use fastvid.Common.Int.{ℤ, pos, negsuc}

abbrev pub Text : Type 0
Text = List ℕ

-- The codes of a literal.
abbrev pub codes : String → Text
codes String.[] = []
codes (String.◌∷◌ c s) = code c ∷ codes s

-- The digits of `n` before those of `acc`. The fuel is more than the number of digits.
digits_before : ℕ → ℕ → Text → Text
digits_before zero n acc = acc
digits_before (suc fuel) n acc =
    let rest = digits_before fuel (n / 10) ((b'0' + n % 10) ∷ acc) in
    if ltb n 10 then (b'0' + n) ∷ acc else rest

-- `std::to_string` of an unsigned and of a signed number.
unfoldable pub to_string : ℕ → Text
unfolding digits_before
to_string n = digits_before (n + 1) n []

unfoldable pub to_string_int : ℤ → Text
unfolding to_string
to_string_int (pos n) = to_string n
to_string_int (negsuc n) = b'-' ∷ to_string (n + 1)
