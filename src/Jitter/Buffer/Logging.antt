-- ===== src/Jitter/Buffer/Logging.antt =====
-- When `RecordJitter` logs, and what it remembers of it.
use fastvid.Common.{
  List, [], ◌∷◌, ◌++◌, Bool, ◌&&◌, leb, ℕ, ◌≡◌, refl, sym, ap, arith, length, ◌==◌, if◌then◌else◌,
  ◌∙◌,
}
use fastvid.Common.Int.{ℤ}
use fastvid.Text.{Text, codes, to_string, to_string_int}
use fastvid.Float.{Double}
use fastvid.Jitter.{
  Mode, bypass, low_latency, smooth, Quality, excellent, good, fair, poor, JitterBuffer,
}
use fastvid.Jitter.Transition.{elapsed_ns}
use fastvid.Jitter.Buffer.{
  jitter_p95_ms, jitter_50_ms, assess_network_quality, adjust, measure, compute_delay_for_mode,
  target_delay_ns, log_change, log_status, record_jitter, transition, apply_quality_params,
}
use fastvid.Jitter.Buffer.Recording.{log_status-IsUntouched}
use fastvid.Jitter.Rating.{mode_code, quality_code}

-- The codes tell the modes and the qualities apart.
mode_of : ℕ → Mode
mode_of n = if n == 0 then bypass else (if n == 1 then low_latency else smooth)

mode_of-mode_code : (m : Mode) → mode_of (mode_code m) ≡ m
unfolding mode_of
mode_of-mode_code bypass = refl
mode_of-mode_code low_latency = refl
mode_of-mode_code smooth = refl

mode_code-inj : {a b : Mode} → mode_code a ≡ mode_code b → a ≡ b
mode_code-inj {a} {b} e = sym (mode_of-mode_code a) ∙ ap mode_of e ∙ mode_of-mode_code b

quality_from : ℕ → Quality
quality_from n =
    if n == 0 then excellent else (if n == 1 then good else (if n == 2 then fair else poor))

quality_from-quality_code : (q : Quality) → quality_from (quality_code q) ≡ q
unfolding quality_from
quality_from-quality_code excellent = refl
quality_from-quality_code good = refl
quality_from-quality_code fair = refl
quality_from-quality_code poor = refl

quality_code-inj : {a b : Quality} → quality_code a ≡ quality_code b → a ≡ b
quality_code-inj {a} {b} e =
    sym (quality_from-quality_code a) ∙ ap quality_from e ∙ quality_from-quality_code b

-- The text of the status line, as it is logged.
abbrev pub status_line : ℤ → ℕ → ℕ → Text
status_line max_wait max_frames samples =
    to_string_int max_wait
    ++ codes "ms"
    ++ codes " max_frames="
    ++ to_string max_frames
    ++ codes " samples="
    ++ to_string samples

module _ {W : Type 0} ⦃d : Double W⦄ where
  -- What was logged last is the mode and the quality of now.
  abbrev pub IsSettled : JitterBuffer W → Type 0
  IsSettled b =
      (b.last_logged_mode ≡ b.machine.active_mode) × (b.last_logged_quality ≡ b.network_quality)

  abbrev pub is_settled : JitterBuffer W → Bool
  is_settled b =
      (mode_code b.machine.active_mode == mode_code b.last_logged_mode)
      && (quality_code b.network_quality == quality_code b.last_logged_quality)

  log_change-settles :
      (target loss : W) (b : JitterBuffer W)
      → let (b', lines) = log_change target loss b in
        (mode_code b'.last_logged_mode ≡ mode_code b'.machine.active_mode)
        × (quality_code b'.last_logged_quality ≡ quality_code b'.network_quality)
        × (b'.last_periodic_log_ns ≡ b.last_periodic_log_ns)
        × (length lines ≡ (if is_settled b then 0 else 1))
  unfolding log_change jitter_p95_ms
  log_change-settles target loss b = ground arith

  log_status-settles :
      (now : ℕ) (b : JitterBuffer W)
      → let b' = (log_status now b).0 in
        (b'.last_logged_mode ≡ b.last_logged_mode)
        × (b'.last_logged_quality ≡ b.last_logged_quality)
        × (b'.machine ≡ b.machine)
        × (b'.network_quality ≡ b.network_quality)
        × (b'.last_periodic_log_ns ≡ (
            if leb 5000000000 (elapsed_ns now b.last_periodic_log_ns)
            then now
            else b.last_periodic_log_ns))
  unfolding log_status jitter_p95_ms jitter_50_ms
  log_status-settles now b = ground arith

  log_status-lines :
      (now : ℕ) (b : JitterBuffer W)
      → (log_status now b).1 ≡ (
          if leb 5000000000 (elapsed_ns now b.last_periodic_log_ns)
          then status_line b.current_max_wait_ms b.current_max_frames b.window.sample_count ∷ []
          else [])
  unfolding log_status
  log_status-lines now b = ground arith

  log_status-line :
      (now : ℕ) (b : JitterBuffer W)
      → let (b', lines) = log_status now b in
        lines ≡ (
          if leb 5000000000 (elapsed_ns now b.last_periodic_log_ns)
          then status_line b'.current_max_wait_ms b'.current_max_frames b'.window.sample_count ∷ []
          else [])
  log_status-line now b =
      let kept = log_status-IsUntouched now b in
      rw (kept.unadjusted.max_wait, kept.unadjusted.max_frames, kept.count) (log_status-lines now b)

  target_delay_ns-settles :
      (b : JitterBuffer W)
      → let b' = (target_delay_ns b).0 in
        (b'.last_logged_mode ≡ b.last_logged_mode)
        × (b'.last_logged_quality ≡ b.last_logged_quality)
        × (b'.machine ≡ b.machine)
        × (b'.network_quality ≡ b.network_quality)
        × (b'.last_periodic_log_ns ≡ b.last_periodic_log_ns)
  unfolding target_delay_ns compute_delay_for_mode jitter_p95_ms
  target_delay_ns-settles b = ground arith

  measure-periodic :
      (r l k : W) (now : ℕ) (b : JitterBuffer W)
      → (measure r l k now b).last_periodic_log_ns ≡ b.last_periodic_log_ns
  unfolding measure adjust assess_network_quality jitter_p95_ms transition apply_quality_params
  measure-periodic r l k now b = ground arith

  log_change-IsSettled :
      (target loss : W) (b : JitterBuffer W) → IsSettled (log_change target loss b).0
  log_change-IsSettled target loss b =
      let (mode, quality, period, few) = log_change-settles target loss b in
      (mode_code-inj mode, quality_code-inj quality)

  -- After every call the mode and the quality last logged are those of now. A call logs a line if
  -- the mode or the quality that it has measured is not the one last logged; and then, if 5 s have passed
  -- since the last status line, whose time is then that of the call and else stays, the status line. That
  -- line is a function of the two limits and the number of samples alone: it has neither the mode nor the
  -- quality, the target, the percentiles or the loss.
  pub record_jitter_logs :
      (jitter_ms loss skip : W) (now : ℕ) (b : JitterBuffer W)
      → let (b', lines) = record_jitter jitter_ms loss skip now b in
        let is_due = leb 5000000000 (elapsed_ns now b.last_periodic_log_ns) in
        IsSettled b'
        × ((changes : List Text) × (length changes
              ≡ (if is_settled (measure jitter_ms loss skip now b) then 0 else 1))
            × (lines
                ≡ changes
                  ++ (if is_due
                      then status_line b'.current_max_wait_ms b'.current_max_frames
                          b'.window.sample_count
                        ∷ []
                      else [])))
        × (b'.last_periodic_log_ns ≡ (if is_due then now else b.last_periodic_log_ns))
  unfolding record_jitter
  record_jitter_logs jitter_ms loss skip now b =
      let m = measure jitter_ms loss skip now b in
      let b1 = (target_delay_ns m).0 in
      let target = d.div (d.of_size (target_delay_ns m).1) (d.decimal 10000000 1) in
      let b2 = (log_change target loss b1).0 in
      let period : b2.last_periodic_log_ns ≡ b.last_periodic_log_ns = ground (
        arith,
        measure-periodic jitter_ms loss skip now b,
        target_delay_ns-settles m,
        log_change-settles target loss b1,
      ) in
      let status = log_status-line now b2 in
      let (mode, quality, machine, assessed, last) = log_status-settles now b2 in
      let settled = log_change-IsSettled target loss b1 in
      (
        ground (arith, mode, quality, machine, assessed, settled),
        (
          (log_change target loss b1).1,
          ground (arith, log_change-settles target loss b1, target_delay_ns-settles m),
          ap (λ t. (log_change target loss b1).1 ++ t) (rw period at status),
        ),
        rw period at last,
      )
