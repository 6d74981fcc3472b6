-- ===== src/Jitter/Buffer/Startup.antt =====
-- How a buffer that starts leaves bypass mode.
use fastvid.Common.{
  ◌-◌, ◌≤◌, ◌<◌, ◌^◌, ◌≡◌, refl, ap, ◌∙◌, ◌&&◌, leb, if◌then◌else◌, List, [], ◌∷◌, arith, length,
  drop,
}
use fastvid.Float.{Double, gt}
use fastvid.Jitter.{bypass, low_latency, Quality, Config, Machine}
use fastvid.Jitter.Transition.Run.{Measurement, run, streak, NeverTen, bypass_run}
use fastvid.Jitter.Buffer.{create, configure, initial_machine, empty_window}
use fastvid.Jitter.Buffer.Recording.{Report, call, calls}
use fastvid.Jitter.Buffer.Figures.{looked_at}
use fastvid.Jitter.Buffer.Driven.{
  jitters, figures, started, calls-IsDriven, driven_run, calls-run, length-jitters,
}

module _ {W : Type 0} ⦃d : Double W⦄ where
  -- The reports that the state machine is given.
  abbrev pub driving : List (Report W) → List (Measurement W)
  driving rs = drop 9 (figures empty_window rs)

  -- From the construction and `Configure` on, nine reports or more, fewer than 2 ^ 64 with one more:
  -- while those from the tenth on never have ten in a row of more than 1 ms of jitter, the mode is
  -- bypass; and the next report changes it to low latency exactly if it is the tenth in a row.
  pub calls-bypass :
      (garbage : Quality) (c : Config W) (rs : List (Report W)) (r : Report W)
      → 9 ≤ length rs
      → length rs < 2 ^ 64 - 1
      → NeverTen 0 (driving rs)
      → let b = calls rs (configure c (create garbage)) in
        (b.machine.active_mode ≡ bypass)
        × ((call r b).machine.active_mode ≡ (
            if gt r.jitter_ms (d.decimal 10 1) && leb 9 (streak 0 (driving rs))
            then low_latency
            else bypass))
  unfolding calls run
  calls-bypass garbage c rs r enough small never =
      let b = calls rs (configure c (create garbage)) in
      let s = looked_at r.jitter_ms b.window in
      let x : Measurement W = record {
        p95 = s.cached.p95_ms;
        jitter_ms = r.jitter_ms;
        now_ns = r.now_ns;
      } in
      let (kept, next) = bypass_run (driving rs) x initial_machine refl never in
      let ran = calls-run garbage c rs (omega arith) in
      let many = length-jitters rs in
      let skipped : 9 - length (jitters rs) ≡ 0 = omega (arith, many) in
      let driven = calls-IsDriven rs [] (omega arith) (started garbage c) in
      let step : (call r b).machine ≡ run (x ∷ []) b.machine =
        rw skipped at (driven_run (r ∷ []) (jitters rs) (omega (arith, many)) driven) in
      (
        ap (λ (m : Machine). m.active_mode) (ran ∙ kept),
        ap (λ (m : Machine). m.active_mode) (step ∙ ap (run (x ∷ [])) ran ∙ next) ∙ ground arith,
      )
