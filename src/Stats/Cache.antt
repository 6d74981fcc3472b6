-- ===== src/Stats/Cache.antt =====
-- The lazily refreshed summary against the summary of the samples so far.
use fastvid.Common.{
  ℕ, ◌-◌, ◌≤◌, ◌<◌, ◌≡◌, refl, sym, ap, subst, Bool, true, false, ◌⊎◌, List, [], ◌∷◌, ◌++◌, arith,
  length, newest, length-drop, append-nil, min, Bool-cases, inl, inr, dec_lt,
}
use fastvid.Float.{Double}
use fastvid.Stats.{
  LatencyStats, Summary, build_summary, refresh, summarize, default_summary, back, ordered_samples,
}
use fastvid.Stats.Window.{Holds}

module _ {W : Type 0} ⦃d : Double W⦄ where
  -- The summary that a window of `n` samples has after the samples of a history.
  unfoldable pub summary_of : ℕ → List W → Summary W
  summary_of n [] = default_summary
  summary_of n (x ∷ xs) = summarize (back (x ∷ xs)) (newest n (x ∷ xs))

  -- The cached summary is that of an earlier moment, and the samples since are counted.
  pub record IsStale (s : LatencyStats W) (fresh recent : List W) : Type 0 where
    pub is_cached : s.cached ≡ summary_of s.max_samples fresh
    pub is_counted : length recent ≡ s.pending
    pub is_clean : s.dirty ≡ false → recent ≡ []

  pub record Tracks (s : LatencyStats W) (history : List W) : Type 0 where
    pub held : Holds s history
    pub latest : s.last_ms ≡ back history
    pub interval_pos : 1 ≤ s.refresh_interval
    pub stale :
        s.summary_valid ≡ true
        → (fresh recent : List W) × (history ≡ fresh ++ recent) × IsStale s fresh recent

  length-window : (n : ℕ) (xs : List W) → length (newest n xs) ≡ min (length xs) n
  length-window n xs = omega (arith, length-drop (length xs - n) xs)

  build_summary-eq :
      (s : LatencyStats W) (history : List W)
      → Holds s history
      → s.last_ms ≡ back history
      → build_summary s ≡ summary_of s.max_samples history
  unfolding build_summary summary_of
  build_summary-eq s [] h e = ground (arith, h.counted, h.room)
  build_summary-eq s (x ∷ xs) h e =
      ground (arith, h.counted, h.room, h.window, length-window s.max_samples (x ∷ xs))

  -- What a refresh leaves: a valid summary that leaves out fewer samples than the interval, and none
  -- if the refresh is forced.
  pub record IsRefreshed (force : Bool) (s s' : LatencyStats W) (history : List W) : Type 0 where
    pub tracks : Tracks s' history
    pub fresh : List W
    pub recent : List W
    pub split : history ≡ fresh ++ recent
    pub cached : s'.cached ≡ summary_of s.max_samples fresh
    pub lag : length recent < s.refresh_interval
    pub forced : force ≡ true → recent ≡ []

  -- `refresh` leaves the object, or replaces its summary.
  refresh-cases :
      (force : Bool) (s : LatencyStats W)
      → ((refresh force s ≡ s)
          × (s.summary_valid ≡ true)
          × ((s.dirty ≡ false) ⊎ ((force ≡ false) × (s.pending < s.refresh_interval))))
        ⊎ (refresh force s ≡ record s {
          cached = build_summary s;
          summary_valid = true;
          dirty = false;
          pending = 0;
        })
  unfolding refresh
  refresh-cases force s = elim (Bool-cases s.summary_valid) [
    | inr stale ↦ inr (ground arith)
    | inl valid ↦ elim (Bool-cases s.dirty) [
      | inr clean ↦ inl (ground arith, valid, inl clean)
      | inl dirty ↦ elim (Bool-cases force) [
        | inl now ↦ inr (ground arith)
        | inr lazy ↦ elim (dec_lt s.pending s.refresh_interval) [
          | yes early ↦ inl (ground arith, valid, inr (lazy, early))
          | no late ↦ inr (ground arith)
        ]
      ]
    ]
  ]

  kept-IsRefreshed :
      (force : Bool) {s : LatencyStats W} {history : List W}
      → Tracks s history
      → s.summary_valid ≡ true
      → (s.dirty ≡ false) ⊎ ((force ≡ false) × (s.pending < s.refresh_interval))
      → IsRefreshed force s s history
  kept-IsRefreshed force {s} t valid (inl clean) =
      let (fresh, recent, e, old) = t.stale valid in
      record {
        tracks = t;
        fresh = fresh;
        recent = recent;
        split = e;
        cached = old.is_cached;
        lag = ground (arith, ap length (old.is_clean clean), t.interval_pos);
        forced = λ _. old.is_clean clean;
      }
  kept-IsRefreshed force {s} t valid (inr (lazy, early)) =
      let (fresh, recent, e, old) = t.stale valid in
      record {
        tracks = t;
        fresh = fresh;
        recent = recent;
        split = e;
        cached = old.is_cached;
        lag = omega (arith, old.is_counted);
        forced = λ now. ground arith;
      }

  -- The object after its summary is built anew.
  abbrev rebuilt : LatencyStats W → LatencyStats W
  rebuilt s = record s {
    cached = build_summary s;
    summary_valid = true;
    dirty = false;
    pending = 0;
  }

  rebuilt-Holds :
      {s : LatencyStats W} {history : List W} → Holds s history → Holds (rebuilt s) history
  unfolding ordered_samples
  rebuilt-Holds h = record {
    room = h.room;
    storage = h.storage;
    next_in = h.next_in;
    counted = h.counted;
    not_wrapped = h.not_wrapped;
    window = h.window;
  }

  rebuilt-IsRefreshed :
      (force : Bool) {s : LatencyStats W} {history : List W}
      → Tracks s history
      → IsRefreshed force s (rebuilt s) history
  rebuilt-IsRefreshed force {s} {history} t =
      let built = build_summary-eq s history t.held t.latest in
      record {
        tracks = record {
          held = rebuilt-Holds t.held;
          latest = t.latest;
          interval_pos = t.interval_pos;
          stale = λ _. (
            history,
            [],
            sym (append-nil history),
            record { is_cached = built; is_counted = refl; is_clean = λ _. refl },
          );
        };
        fresh = history;
        recent = [];
        split = sym (append-nil history);
        cached = built;
        lag = t.interval_pos;
        forced = λ _. refl;
      }

  pub refresh-IsRefreshed :
      (force : Bool) {s : LatencyStats W} {history : List W}
      → Tracks s history
      → IsRefreshed force s (refresh force s) history
  refresh-IsRefreshed force {s} {history} t = elim (refresh-cases force s) [
    | inl (e, valid, why) ↦
        subst (λ (s' : LatencyStats W). IsRefreshed force s s' history) (sym e)
          (kept-IsRefreshed force t valid why)
    | inr e ↦
        subst (λ (s' : LatencyStats W). IsRefreshed force s s' history) (sym e)
          (rebuilt-IsRefreshed force t)
  ]
