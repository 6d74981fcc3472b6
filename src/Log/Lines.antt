-- ===== src/Log/Lines.antt =====
-- How a message is cut into lines.
use fastvid.Common.{
  ℕ, zero, suc, ◌+◌, ◌≤◌, ◌<◌, ◌≡◌, refl, sym, ap, ap₂, subst, inl, inr, ◌∙◌, none, some, List, [],
  ◌∷◌, ◌++◌, arith, length, length-append, take-append, append_assoc, drop-append,
}
use fastvid.Text.{Text}
use fastvid.Log.{find_first, find, lines_from, lines_of}
use fastvid.Log.Search.{Lacks, find_first-cases}

-- The lines with line feeds between them.
unfoldable pub join : List Text → Text
join [] = []
join (line ∷ []) = line
join (line ∷ next ∷ lines) = line ++ b'\n' ∷ join (next ∷ lines)

abbrev pub AllLack : List Text → Type 0
AllLack [] = Unit
AllLack (line ∷ lines) = Lacks b'\n' line × AllLack lines

-- The loop at the index `length done`, with `rest` before it.
lines_from-last :
    (fuel : ℕ) (done rest : Text)
    → find_first b'\n' rest ≡ none
    → lines_from (suc fuel) (done ++ rest) (length done) ≡ rest ∷ []
unfolding lines_from find
lines_from-last fuel done rest e = ground (arith, drop-append done rest, length-append done rest)

lines_from-step :
    (fuel : ℕ) (done line rest : Text)
    → find_first b'\n' (line ++ b'\n' ∷ rest) ≡ some (length line)
    → lines_from (suc fuel) (done ++ (line ++ b'\n' ∷ rest)) (length done)
      ≡ line ∷ lines_from fuel (done ++ (line ++ b'\n' ∷ rest)) (length done + length line + 1)
unfolding lines_from find
lines_from-step fuel done line rest e = ground (
  arith,
  drop-append done (line ++ b'\n' ∷ rest),
  take-append line (b'\n' ∷ rest),
  length-append done (line ++ b'\n' ∷ rest),
)

-- A text is cut at each of its line feeds.
pub record IsCut (text : Text) (lines : List Text) : Type 0 where
  pub joined : join lines ≡ text
  pub no_feed : AllLack lines
  pub some_line : 1 ≤ length lines

join-cons :
    (line : Text) (lines : List Text)
    → 1 ≤ length lines
    → join (line ∷ lines) ≡ line ++ b'\n' ∷ join lines
unfolding join
join-cons line [] h = absurd (omega arith)
join-cons line (next ∷ lines) h = refl

cons-IsCut :
    (line rest : Text) (lines : List Text)
    → Lacks b'\n' line
    → IsCut rest lines
    → IsCut (line ++ b'\n' ∷ rest) (line ∷ lines)
cons-IsCut line rest lines lacks cut = record {
  joined = join-cons line lines cut.some_line ∙ ap (λ t. line ++ b'\n' ∷ t) cut.joined;
  no_feed = (lacks, cut.no_feed);
  some_line = omega arith;
}

lines_from-IsCut :
    (fuel : ℕ) (done rest : Text)
    → length rest < fuel
    → IsCut rest (lines_from fuel (done ++ rest) (length done))
unfolding join
lines_from-IsCut zero done rest h = absurd (omega arith)
lines_from-IsCut (suc fuel) done rest h = elim (find_first-cases b'\n' rest) [
  | inl (absent, lacks) ↦
      subst (IsCut rest) (sym (lines_from-last fuel done rest absent))
        (record { joined = refl; no_feed = (lacks, tt); some_line = omega arith })
  | inr (line, after, found, parts, lacks) ↦
      let passed = done ++ (line ++ b'\n' ∷ []) in
      let whole : passed ++ after ≡ done ++ (line ++ b'\n' ∷ after) =
        append_assoc done (line ++ b'\n' ∷ []) after
        ∙ ap (λ t. done ++ t) (append_assoc line (b'\n' ∷ []) after) in
      let reached : length passed ≡ length done + length line + 1 =
        omega (arith, length-append done (line ++ b'\n' ∷ []), length-append line (b'\n' ∷ [])) in
      let shorter : length after < fuel =
        omega (arith, ap (λ (t : Text). length t) parts, length-append line (b'\n' ∷ after)) in
      let step = lines_from-step fuel done line after (ap (find_first b'\n') (sym parts) ∙ found) in
      let cut = cons-IsCut line after _ lacks (lines_from-IsCut fuel passed after shorter) in
      subst (λ t. IsCut t (lines_from (suc fuel) (done ++ t) (length done))) (sym parts)
        (subst (IsCut (line ++ b'\n' ∷ after))
          (sym (step ∙ ap (λ t. line ∷ t) (ap₂ (lines_from fuel) (sym whole) (sym reached)))) cut)
]

-- The loop ends, and the lines that it writes are the message cut at its line feeds: none of them
-- holds one, there is at least one line, and with line feeds between them they are the message.
pub lines_of-IsCut : (message : Text) → IsCut message (lines_of message)
unfolding lines_of
lines_of-IsCut message = lines_from-IsCut (length message + 1) [] message (omega arith)
