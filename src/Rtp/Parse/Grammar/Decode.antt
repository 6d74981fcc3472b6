-- ===== src/Rtp/Parse/Grammar/Decode.antt =====
-- Bytes decoded to the packet that they are.
use fastvid.Common.{
  ℕ, drop-append_add, ◌+◌, ◌-◌, ◌*◌, ◌/◌, ◌%◌, ◌≤◌, ◌<◌, ◌≡◌, sym, ap, ap₂, ◌∙◌, none, some, List,
  [], ◌∷◌, ◌++◌, arith, length, take, drop, length-take, length-drop, take-append-drop, leb,
}
use fastvid.Rtp.{HeaderFields, HeaderExtension}
use fastvid.Rtp.Bytes.{read_be16}
use fastvid.Rtp.Bytes.Laws.{bytes16, read_be16-eq}
use fastvid.Rtp.Parse.RoundTrip.{IsHeader}
use fastvid.Rtp.Parse.Grammar.{IsPacket, counted_bytes, fixed_part, encode, packet_of}
use fastvid.Rtp.Parse.Grammar.Fours.{
  bytes16-of, bytes32-of, IsBytes, IsBytes-drop, IsFour, IsTwelve,
}
use fastvid.Rtp.Parse.Grammar.Found.{second-of}

module _ {xs : List ℕ} (w : IsTwelve xs) where
  open w use {w0, w1, w2}

  -- The bytes from the second to the twelfth, and the fields that they hold.
  eleven : List ℕ
  eleven = w0.b ∷ w0.c ∷ w0.d ∷ w1.a ∷ w1.b ∷ w1.c ∷ w1.d ∷ w2.a ∷ w2.b ∷ w2.c ∷ w2.d ∷ []

  pub fields_of : HeaderFields
  fields_of = record {
    marker = leb 128 w0.b;
    payload_type = w0.b % 128;
    sequence_number = w0.c * 256 + w0.d;
    timestamp = ((w1.a * 256 + w1.b) * 256 + w1.c) * 256 + w1.d;
    ssrc = ((w2.a * 256 + w2.b) * 256 + w2.c) * 256 + w2.d;
  }

  fixed_part-of : fixed_part fields_of ≡ eleven
  unfolding fields_of eleven
  fixed_part-of = ap₂ ◌∷◌ (second-of w0.b w0.b_fits) (
      ap₂ ◌++◌ (bytes16-of w0.c w0.d w0.c_fits w0.d_fits) (
        ap₂ ◌++◌ (bytes32-of w1.a w1.b w1.c w1.d w1.a_fits w1.b_fits w1.c_fits w1.d_fits)
          (bytes32-of w2.a w2.b w2.c w2.d w2.a_fits w2.b_fits w2.c_fits w2.d_fits)))

  twelve-same : xs ≡ w0.a ∷ eleven ++ w2.rest
  unfolding eleven
  twelve-same =
      w0.same
      ∙ ap (λ t. w0.a ∷ w0.b ∷ w0.c ∷ w0.d ∷ t)
          (w1.same ∙ ap (λ t. w1.a ∷ w1.b ∷ w1.c ∷ w1.d ∷ t) w2.same)

  fields_of-IsHeader : IsHeader fields_of × (fields_of.payload_type < 128)
  unfolding fields_of
  fields_of-IsHeader = omega (
    arith, w0.b_fits, w0.c_fits, w0.d_fits, w1.a_fits, w1.b_fits, w1.c_fits, w1.d_fits, w2.a_fits,
    w2.b_fits, w2.c_fits, w2.d_fits,
  )

  -- The contributing sources, and what stands behind them.
  pub sources_of : List ℕ
  sources_of = take (w0.a % 16 * 4) w2.rest

  pub behind : List ℕ
  behind = drop (w0.a % 16 * 4) w2.rest

  split : sources_of ++ behind ≡ w2.rest
  unfolding sources_of behind
  split = take-append-drop (w0.a % 16 * 4) w2.rest

  length-sources_of : w0.a % 16 * 4 ≤ length w2.rest → length sources_of ≡ w0.a % 16 * 4
  unfolding sources_of
  length-sources_of h = omega (arith, length-take (w0.a % 16 * 4) w2.rest)

  pub length-behind : length behind ≡ length w2.rest - w0.a % 16 * 4
  unfolding behind
  length-behind = length-drop (w0.a % 16 * 4) w2.rest

  pub behind-IsBytes : IsBytes behind
  unfolding behind
  behind-IsBytes = IsBytes-drop (w0.a % 16 * 4) w2.rest w2.rest_fits

  pub length-twelve : length xs ≡ 12 + length w2.rest
  unfolding eleven
  length-twelve = omega (arith, ap length twelve-same)

  -- A packet without an extension.
  pub plain-encode :
      w0.a ≡ 128 + w0.a % 16
      → w0.a % 16 * 4 ≤ length w2.rest
      → let p = packet_of fields_of sources_of none behind in IsPacket p × (encode p ≡ xs)
  plain-encode first fits =
      let size = length-sources_of fits in
      let (header, seven) = fields_of-IsHeader in
      (
        record {
          fields = header;
          seven_bits = seven;
          whole_sources = omega (arith, size);
          few_sources = omega (arith, size);
          extension = tt;
        },
        ap₂ ◌∷◌ (omega (arith, first, size)) (ap₂ ◌++◌ fixed_part-of split) ∙ sym twelve-same,
      )

  -- The extension that stands behind the sources.
  module _ (e : IsFour behind) where
    pub words_of : ℕ
    words_of = e.c * 256 + e.d

    pub extension_of : HeaderExtension
    extension_of = record { profile_id = e.a * 256 + e.b; payload = take (words_of * 4) e.rest }

    pub media_of : List ℕ
    media_of = drop (words_of * 4) e.rest

    pub extended-encode :
        w0.a ≡ 144 + w0.a % 16
        → w0.a % 16 * 4 ≤ length w2.rest
        → words_of * 4 ≤ length e.rest
        → let p = packet_of fields_of sources_of (some extension_of) media_of in
          IsPacket p × (encode p ≡ xs)
    unfolding extension_of media_of words_of
    extended-encode first fits inside =
        let size = length-sources_of fits in
        let (header, seven) = fields_of-IsHeader in
        let length_of : length (take (words_of * 4) e.rest) ≡ words_of * 4 =
          omega (arith, length-take (words_of * 4) e.rest) in
        let count : length (take (words_of * 4) e.rest) / 4 ≡ e.c * 256 + e.d =
          omega (arith, length_of) in
        let stood : counted_bytes (some extension_of) ++ media_of ≡ behind =
          ap₂ ◌++◌ (bytes16-of e.a e.b e.a_fits e.b_fits) (
            ap₂ ◌++◌ (ap bytes16 count ∙ bytes16-of e.c e.d e.c_fits e.d_fits)
              (take-append-drop (words_of * 4) e.rest))
          ∙ sym e.same in
        (
          record {
            fields = header;
            seven_bits = seven;
            whole_sources = omega (arith, size);
            few_sources = omega (arith, size);
            extension = omega (arith, length_of, e.a_fits, e.b_fits, e.c_fits, e.d_fits);
          },
          ap₂ ◌∷◌ (omega (arith, first, size))
                (ap₂ ◌++◌ fixed_part-of (ap (λ t. sources_of ++ t) stood ∙ split))
              ∙ sym twelve-same,
        )

    -- The words are counted where the function reads their number.
    pub words-read :
        w0.a % 16 * 4 ≤ length w2.rest
        → read_be16 (drop (12 + w0.a % 16 * 4 + 2) xs) ≡ some words_of
    unfolding words_of eleven
    words-read fits =
        let size = length-sources_of fits in
        let head = w0.a ∷ eleven ++ sources_of in
        let parts : xs ≡ head ++ behind = twelve-same ∙ ap (λ t. w0.a ∷ eleven ++ t) (sym split) in
        let at : 12 + w0.a % 16 * 4 + 2 ≡ length head + 2 = omega (arith, size) in
        ap₂ (λ n ys. read_be16 (drop n ys)) at parts
        ∙ ap read_be16 (drop-append_add head behind 2 ∙ ap (drop 2) e.same)
        ∙ read_be16-eq e.c e.d e.rest e.c_fits e.d_fits
