-- ===== src/Jitter/Buffer/Ramp.antt =====
-- When a new buffer changes its mode on a network whose jitter is high in every report.
use fastvid.Common.{
  All, All-append_left, All-append_right, All-imp, suc, ◌+◌, ◌-◌, ◌≤◌, ◌<◌, ◌^◌, ◌≡◌, refl, sym,
  subst, ap, ◌∙◌, true, false, ltb, if◌then◌else◌, List, [], ◌∷◌, ◌++◌, arith, length, drop,
  drop-nil, dec_lt, length-append, length-drop, append_assoc,
}
use fastvid.Float.{Double, gt, lt_trans, IsWord, IsOrdered, IsScaling, IsInterpolating, IsGraded}
use fastvid.Stats.{LatencyStats}
use fastvid.Stats.Cache.{Tracks, summary_of, refresh-IsRefreshed}
use fastvid.Stats.Lag.{record_sample-Tracks, record_sample-settings}
use fastvid.Stats.Above.{summary_of-gt}
use fastvid.Jitter.{bypass, low_latency, smooth, Quality, Config, Machine}
use fastvid.Jitter.Transition.Run.{Measurement}
use fastvid.Jitter.Transition.Ramp.{IsHigh, ramp_run}
use fastvid.Jitter.Buffer.{create, configure, empty_window}
use fastvid.Jitter.Buffer.Recording.{Report, calls}
use fastvid.Jitter.Buffer.Figures.{looked_at}
use fastvid.Jitter.Buffer.Driven.{
  jitters, started, figures, looked_at-settings, length-figures, calls-run,
}

module _ {W : Type 0} ⦃d : Double W⦄ where
  -- More than 10 ms of jitter, in a float that fits a word.
  abbrev pub IsRough : W → Type 0
  IsRough x = IsWord x × (gt x (d.decimal 100 1) ≡ true)

  module _ (laws : IsOrdered W) (scaling : IsScaling W) (rounding : IsInterpolating W)
      (graded : IsGraded W) where
    -- More than 10 is more than 5, and more than 1 and than 0.5.
    rough-five : (x : W) → IsRough x → gt x (d.decimal 50 1) ≡ true
    rough-five x (fits, high) =
        lt_trans laws (d.decimal 50 1) (d.decimal 100 1) x fits.0 graded.five_lt_ten high

    rough-one : (x : W) → IsRough x → gt x (d.decimal 10 1) ≡ true
    rough-one x h =
        lt_trans laws (d.decimal 10 1) (d.decimal 50 1) x h.0.0 graded.one_lt_five (rough-five x h)

    rough-half : (x : W) → IsRough x → d.lt x (d.decimal 5 1) ≡ false
    rough-half x h =
        laws.lt_asymm (d.decimal 5 1) x (
          lt_trans laws (d.decimal 5 1) (d.decimal 10 1) x h.0.0 graded.half_lt_one (rough-one x h))

    summary_of-IsRough :
        (xs : List W)
        → 1 ≤ length xs
        → All IsRough xs
        → (gt (summary_of 100 xs).p95_ms (d.decimal 100 1) ≡ true)
          × (d.lt (summary_of 100 xs).p95_ms (d.decimal 50 1) ≡ false)
    summary_of-IsRough xs some_value rough =
        let above : (limit : W)
            → ((x : W) → IsRough x → gt x limit ≡ true)
            → gt (summary_of 100 xs).p95_ms limit ≡ true =
          λ limit f.
            summary_of-gt laws scaling rounding limit 100 xs (omega arith) (omega arith) some_value
              (All-imp IsRough IsWord (λ x h. h.0) xs rough)
              (All-imp IsRough (λ x. gt x limit ≡ true) f xs rough) in
        (
          above (d.decimal 100 1) (λ x h. h.1),
          laws.lt_asymm _ _ (above (d.decimal 50 1) rough-five),
        )

    -- The summary that is looked at after a sample, with three samples before it.
    looked_at-IsHigh :
        (r : Report W) {s : LatencyStats W} (history : List W)
        → 3 ≤ length history
        → length history < 2 ^ 64 - 1
        → s.max_samples ≡ 100
        → s.refresh_interval ≡ 4
        → Tracks s history
        → All IsRough (history ++ r.jitter_ms ∷ [])
        → IsHigh (record {
          p95 = (looked_at r.jitter_ms s).cached.p95_ms;
          jitter_ms = r.jitter_ms;
          now_ns = r.now_ns;
        })
    looked_at-IsHigh r {s} history many small room interval t rough =
        let v = r.jitter_ms in
        let looked = refresh-IsRefreshed false (record_sample-Tracks v small t) in
        let (room', interval') = record_sample-settings v s in
        let cached : (looked_at v s).cached ≡ summary_of 100 looked.fresh =
          looked.cached ∙ ap (λ m. summary_of m looked.fresh) (room' ∙ room) in
        let some_value : 1 ≤ length looked.fresh = omega (
          arith,
          looked.lag,
          interval',
          interval,
          ap length looked.split,
          length-append looked.fresh looked.recent,
          length-append history (v ∷ []),
        ) in
        let (high, not_low) = summary_of-IsRough looked.fresh some_value (
          All-append_left IsRough looked.fresh looked.recent
            (subst (All IsRough) looked.split rough)) in
        let (last, _) = All-append_right IsRough history (v ∷ []) rough in
        (rough-one v last, rough-half v last, rw cached high, rw cached not_low)

    -- From the tenth report on, everything that the machine is given is high.
    figures-IsHigh :
        (rs : List (Report W)) {s : LatencyStats W} (history : List W)
        → length history + length rs < 2 ^ 64
        → s.max_samples ≡ 100
        → s.refresh_interval ≡ 4
        → Tracks s history
        → All IsRough (history ++ jitters rs)
        → All IsHigh (drop (9 - length history) (figures s rs))
    figures-IsHigh [] history small room interval t rough =
        rw (drop-nil (Measurement W) (9 - length history)) tt
    figures-IsHigh (r ∷ rs) {s} history small room interval t rough =
        let v = r.jitter_ms in
        let looked = refresh-IsRefreshed false (record_sample-Tracks v (omega arith) t) in
        let (room', interval') = looked_at-settings v s in
        let longer = length-append history (v ∷ []) in
        let regrouped =
          subst (All IsRough) (sym (append_assoc history (v ∷ []) (jitters rs))) rough in
        let rest =
          figures-IsHigh rs {s = looked_at v s} (history ++ v ∷ []) (omega (arith, longer))
            (room' ∙ room) (interval' ∙ interval) looked.tracks regrouped in
        elim (dec_lt (length history) 9) [
          | yes few ↦
              let one_less : 9 - length history ≡ suc (9 - length (history ++ v ∷ [])) =
                omega (arith, longer) in
              rw one_less rest
          | no enough ↦
              let none_left : 9 - length (history ++ v ∷ []) ≡ 0 = omega (arith, longer) in
              let all_given : 9 - length history ≡ 0 = omega arith in
              rw all_given (
                looked_at-IsHigh r history (omega arith) (omega arith) room interval t
                    (All-append_left IsRough (history ++ v ∷ []) (jitters rs) regrouped),
                rw none_left at rest,
              )
        ]

    -- For floats that are ordered and rounded as the named laws say: from the construction and `Configure` on, fewer than 2 ^ 64 reports, all of them of more than 10 ms of
    -- jitter in floats that fit a word, whatever the losses, the skips and the times: the mode is bypass up
    -- to the eighteenth report, low latency after the nineteenth and the twentieth, and smooth from the
    -- twenty-first on.
    pub calls-smooth :
        (garbage : Quality) (c : Config W) (rs : List (Report W))
        → length rs < 2 ^ 64
        → All IsRough (jitters rs)
        → (calls rs (configure c (create garbage))).machine.active_mode ≡ (
            if ltb (length rs) 19
            then bypass
            else (if ltb (length rs) 21 then low_latency else smooth))
    unfolding create configure empty_window fastvid.Stats.create
    calls-smooth garbage c rs small rough =
        let given = drop 9 (figures empty_window rs) in
        let high = figures-IsHigh rs [] (omega arith) refl refl (started garbage c).tracks rough in
        let many : length given ≡ length rs - 9 =
          omega (arith, length-drop 9 (figures empty_window rs), length-figures empty_window rs) in
        ap (λ (m : Machine). m.active_mode) (calls-run garbage c rs small ∙ ramp_run 0 given high)
        ∙ ground (arith, many)
