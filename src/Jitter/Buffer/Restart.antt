-- ===== src/Jitter/Buffer/Restart.antt =====
-- A buffer after `Reset`.
use fastvid.Common.{◌≡◌, ◌⊎◌, inl, inr, ap, ◌∙◌, true, false, List, Bool-cases}
use fastvid.Float.{Double}
use fastvid.Jitter.{bypass, excellent, Machine, JitterBuffer}
use fastvid.Jitter.Buffer.{create, configure, reset}
use fastvid.Jitter.Buffer.Recording.{Report, calls, calls-IsUnadjusted, reset-configure}

module _ {W : Type 0} ⦃d : Double W⦄ where
  -- `Reset` at any time, then any reports: with the automatic mode on, the buffer is in the state that
  -- a newly constructed one, with excellent as the quality that its constructor leaves unset, is in
  -- after `Configure` with the same configuration and the same reports; with the automatic mode off,
  -- which `Reset` does not turn on again, it stays in the bypass mode with the configured limits,
  -- whatever is reported.
  pub calls-reset :
      (b : JitterBuffer W) (rs : List (Report W))
      → let b' = calls rs (reset b) in
        ((b.auto_mode ≡ true) × (b' ≡ calls rs (configure b.config (create excellent))))
        ⊎ ((b.auto_mode ≡ false)
            × (b'.auto_mode ≡ false)
            × (b'.machine.active_mode ≡ bypass)
            × (b'.current_max_wait_ms ≡ b.config.base_max_wait_ms)
            × (b'.current_max_frames ≡ b.config.base_max_frames))
  unfolding reset configure create
  calls-reset b rs = elim (Bool-cases b.auto_mode) [
    | inl on ↦ inl (
      on,
      ap (calls rs) (
          reset-configure b
          ∙ ap (λ a. record (configure b.config (create excellent)) { auto_mode = a }) on),
    )
    | inr off ↦
        let kept = calls-IsUnadjusted rs (reset b) (inl off) in
        inr (
          off,
          kept.auto_mode ∙ off,
          ap (λ (t : Machine). t.active_mode) kept.machine,
          kept.max_wait,
          kept.max_frames,
        )
  ]
