-- ===== src/Rtp/Parse/Grammar/Fours.antt =====
-- Bytes taken by fours, and the two and four bytes of a number.
use fastvid.Common.{
  ℕ, zero, suc, ◌+◌, ◌*◌, ◌/◌, ◌%◌, ◌^◌, ◌≤◌, ◌<◌, ◌≡◌, refl, ap, List, [], ◌∷◌, arith, length,
  drop,
}
use fastvid.Rtp.Bytes.Laws.{bytes16, bytes32}

abbrev pub IsBytes : List ℕ → Type 0
IsBytes [] = Unit {0}
IsBytes (x ∷ xs) = (x < 256) × IsBytes xs

pub IsBytes-drop : (n : ℕ) (xs : List ℕ) → IsBytes xs → IsBytes (drop n xs)
IsBytes-drop zero xs h = h
IsBytes-drop (suc n) [] h = h
IsBytes-drop (suc n) (x ∷ xs) (h, hs) = IsBytes-drop n xs hs

-- Four bytes, and the rest.
pub record IsFour (xs : List ℕ) : Type 0 where
  pub a : ℕ
  pub b : ℕ
  pub c : ℕ
  pub d : ℕ
  pub rest : List ℕ
  pub same : xs ≡ a ∷ b ∷ c ∷ d ∷ rest
  pub a_fits : a < 256
  pub b_fits : b < 256
  pub c_fits : c < 256
  pub d_fits : d < 256
  pub rest_fits : IsBytes rest

pub four : (xs : List ℕ) → 4 ≤ length xs → IsBytes xs → IsFour xs
four [] h v = absurd (omega arith)
four (a ∷ []) h v = absurd (omega arith)
four (a ∷ b ∷ []) h v = absurd (omega arith)
four (a ∷ b ∷ c ∷ []) h v = absurd (omega arith)
four (a ∷ b ∷ c ∷ d ∷ rest) h (va, (vb, (vc, (vd, vs)))) = record {
  a = a;
  b = b;
  c = c;
  d = d;
  rest = rest;
  same = refl;
  a_fits = va;
  b_fits = vb;
  c_fits = vc;
  d_fits = vd;
  rest_fits = vs;
}

pub bytes16-of : (a b : ℕ) → a < 256 → b < 256 → bytes16 (a * 256 + b) ≡ a ∷ b ∷ []
bytes16-of a b ha hb =
    let high : (a * 256 + b) / 256 % 256 ≡ a = omega arith in
    let low : (a * 256 + b) % 256 ≡ b = omega arith in rw (high, low) refl

pub bytes32-of :
    (a b c d : ℕ)
    → a < 256
    → b < 256
    → c < 256
    → d < 256
    → bytes32 (((a * 256 + b) * 256 + c) * 256 + d) ≡ a ∷ b ∷ c ∷ d ∷ []
bytes32-of a b c d ha hb hc hd =
    let v = ((a * 256 + b) * 256 + c) * 256 + d in
    let first : v / 2 ^ 16 / 256 % 256 ≡ a = omega arith in
    let second : v / 2 ^ 16 % 256 ≡ b = omega arith in
    let third : v / 256 % 256 ≡ c = omega arith in
    let fourth : v % 256 ≡ d = omega arith in rw (first, second, third, fourth) refl

-- The first twelve bytes, by fours.
pub record IsTwelve (xs : List ℕ) : Type 0 where
  pub w0 : IsFour xs
  pub w1 : IsFour w0.rest
  pub w2 : IsFour w1.rest

pub twelve : (xs : List ℕ) → 12 ≤ length xs → IsBytes xs → IsTwelve xs
twelve xs h v =
    let w0 = four xs (omega arith) v in
    let w1 = four w0.rest (omega (arith, ap length w0.same)) w0.rest_fits in
    let w2 = four w1.rest (omega (arith, ap length w0.same, ap length w1.same)) w1.rest_fits in
    record { w0 = w0; w1 = w1; w2 = w2 }
