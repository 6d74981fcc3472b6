-- ===== src/Stats/Window.antt =====
-- The ring buffer against the list of all samples: it holds the newest ones, in order.
use fastvid.Common.{
  ℕ, zero, suc, ◌+◌, ◌%◌, ◌≤◌, ◌<◌, ◌≡◌, refl, sym, ap, ap₂, ◌∙◌, List, [], ◌∷◌, ◌++◌, arith,
  length, set, take, drop, min, newest, newest-short, newest-snoc, pop_front, take-set, drop-set,
  take-all, drop-all, length-set, length-append, append_assoc, append-nil, dec_lt, length-replicate,
}
use fastvid.Float.{Double}
use fastvid.Stats.{LatencyStats, create, record_sample, ordered_samples}

next_count :
    (n c l m : ℕ) → c ≡ min l m → (c < m → n ≡ c) → min (l + 1) m < m → (n + 1) % m ≡ min (l + 1) m
next_count n c l m counted not_wrapped small =
    let filling : c < m = omega arith in
    let at_end : n ≡ c = not_wrapped filling in
    let inside : n + 1 < m = omega arith in
    let step : (n + 1) % m ≡ n + 1 = grind arith in omega arith

module _ {W : Type 0} ⦃d : Double W⦄ where
  -- Where the ring stands after the samples of `history`.
  pub record Holds (s : LatencyStats W) (history : List W) : Type 0 where
    pub room : 1 ≤ s.max_samples
    pub storage : length s.samples ≡ s.max_samples
    pub next_in : s.next_index < s.max_samples
    pub counted : s.sample_count ≡ min (length history) s.max_samples
    pub not_wrapped : s.sample_count < s.max_samples → s.next_index ≡ s.sample_count
    pub window : ordered_samples s ≡ newest s.max_samples history

  -- The two segments, read from index `n` round to it.
  abbrev rotation : ℕ → List W → List W
  rotation n xs = drop n xs ++ take n xs

  rotation-wrap :
      (n m : ℕ) (xs : List W)
      → length xs ≡ m
      → n < m
      → rotation ((n + 1) % m) xs ≡ rotation (suc n) xs
  rotation-wrap n m xs e h = elim (dec_lt (n + 1) m) [
    | yes inside ↦ let step : (n + 1) % m ≡ suc n = grind arith in rw step
    | no last ↦
        let again : (n + 1) % m ≡ 0 = grind arith in
        rw (again, drop-all (suc n) xs (omega arith), take-all (suc n) xs (omega arith))
          (append-nil xs)
  ]

  pop_front-rotation :
      (n : ℕ) (xs ys : List W) → n < length xs → pop_front (drop n xs ++ ys) ≡ drop (suc n) xs ++ ys
  pop_front-rotation n [] ys h = absurd (omega arith)
  pop_front-rotation zero (x ∷ xs) ys h = refl
  pop_front-rotation (suc n) (x ∷ xs) ys h = pop_front-rotation n xs ys (omega arith)

  rotation-set :
      (n m : ℕ) (xs : List W) (v : W)
      → length xs ≡ m
      → n < m
      → rotation ((n + 1) % m) (set xs n v) ≡ drop (suc n) xs ++ (take n xs ++ v ∷ [])
  rotation-set n m xs v e h =
      rotation-wrap n m (set xs n v) (length-set xs n v ∙ e) h
      ∙ ap₂ ◌++◌ (drop-set n xs v) (take-set n xs v (omega arith))

  -- While the ring fills, a sample comes behind the others.
  ordered-filling :
      (v : W) {s : LatencyStats W} {history : List W}
      → Holds s history
      → s.sample_count < s.max_samples
      → ordered_samples (record_sample v s) ≡ ordered_samples s ++ v ∷ []
  unfolding ordered_samples record_sample
  ordered-filling v {s} h filling = ground (
    arith,
    h.not_wrapped filling,
    rotation-set s.next_index s.max_samples s.samples v h.storage h.next_in,
    take-set s.next_index s.samples v (omega (arith, h.storage, h.next_in)),
    drop-all (suc s.next_index) s.samples,
  )

  -- In a full ring it takes the place of the oldest.
  ordered-full :
      (v : W) {s : LatencyStats W} {history : List W}
      → Holds s history
      → ¬ (s.sample_count < s.max_samples)
      → ordered_samples (record_sample v s) ≡ pop_front (ordered_samples s) ++ v ∷ []
  unfolding ordered_samples record_sample
  ordered-full v {s} h full = ground (
    arith,
    rotation-set s.next_index s.max_samples s.samples v h.storage h.next_in,
    pop_front-rotation s.next_index s.samples (take s.next_index s.samples)
        (omega (arith, h.storage, h.next_in)),
    append_assoc (drop (suc s.next_index) s.samples) (take s.next_index s.samples) (v ∷ []),
  )

  record_sample-window :
      (v : W) {s : LatencyStats W} {history : List W}
      → Holds s history
      → ordered_samples (record_sample v s) ≡ newest s.max_samples (history ++ v ∷ [])
  record_sample-window v {s} {history} h = elim (dec_lt s.sample_count s.max_samples) [
    | yes filling ↦
        ordered-filling v h filling
        ∙ ap (λ t. t ++ v ∷ [])
            (h.window ∙ newest-short s.max_samples history (omega (arith, h.counted)))
        ∙ sym (
            newest-short s.max_samples (history ++ v ∷ [])
              (omega (arith, h.counted, length-append history (v ∷ []))))
    | no full ↦
        ordered-full v h full
        ∙ ap (λ t. pop_front t ++ v ∷ []) h.window
        ∙ sym (newest-snoc s.max_samples history v h.room (omega (arith, h.counted)))
  ]

  pub max-record_sample :
      (v : W) (s : LatencyStats W) → (record_sample v s).max_samples ≡ s.max_samples
  unfolding record_sample
  max-record_sample v s = ground arith

  record_sample-ring :
      (v : W) {s : LatencyStats W} {history : List W}
      → Holds s history
      → (length (record_sample v s).samples ≡ s.max_samples)
        × ((record_sample v s).next_index ≡ (s.next_index + 1) % s.max_samples)
        × ((record_sample v s).sample_count ≡ min (length (history ++ v ∷ [])) s.max_samples)
  unfolding record_sample
  record_sample-ring v {s} {history} h = ground (
    arith,
    h.room,
    h.storage,
    h.counted,
    length-set s.samples s.next_index v,
    length-append history (v ∷ []),
  )

  -- A sample is recorded.
  pub record_sample-Holds :
      (v : W) {s : LatencyStats W} {history : List W}
      → Holds s history
      → Holds (record_sample v s) (history ++ v ∷ [])
  record_sample-Holds v {s} {history} h =
      let (size, next, count) = record_sample-ring v h in
      let same = max-record_sample v s in
      record {
        room = rw same h.room;
        storage = size ∙ sym same;
        next_in = rw (same, next) (grind (arith, h.room));
        counted = rw same count;
        not_wrapped =
            rw (same, next, count)
              (rw (length-append history (v ∷ [])) (
                next_count s.next_index s.sample_count (length history) s.max_samples h.counted
                  h.not_wrapped));
        window = record_sample-window v h ∙ ap (λ m. newest m (history ++ v ∷ [])) (sym same);
      }

  pub create-Holds : (n k : ℕ) → 1 ≤ n → Holds (create n k) []
  unfolding create ordered_samples
  create-Holds n k h = record {
    room = h;
    storage = length-replicate n _;
    next_in = h;
    counted = omega arith;
    not_wrapped = λ _. refl;
    window = ground (arith, newest-short {A = W} n []);
  }

  -- A run of samples.
  unfoldable pub record_all : List W → LatencyStats W → LatencyStats W
  record_all [] s = s
  record_all (x ∷ xs) s = record_all xs (record_sample x s)

  record_all-Holds :
      (xs : List W) {s : LatencyStats W} (history : List W)
      → Holds s history
      → Holds (record_all xs s) (history ++ xs)
  unfolding record_all
  record_all-Holds [] history h = rw append-nil h
  record_all-Holds (x ∷ xs) history h =
      rw append_assoc at (record_all-Holds xs (history ++ x ∷ []) (record_sample-Holds x h))

  max-record_all :
      (xs : List W) (s : LatencyStats W) → (record_all xs s).max_samples ≡ s.max_samples
  unfolding record_all
  max-record_all [] s = refl
  max-record_all (x ∷ xs) s = max-record_all xs (record_sample x s) ∙ max-record_sample x s

  -- After any run of samples the ring of a new object with room for `n` of them, `n` not 0, yields
  -- exactly the newest ones, at most `n`, in the order in which they came, and counts them.
  pub record_all-create :
      (n k : ℕ) (xs : List W)
      → 1 ≤ n
      → let s = record_all xs (create n k) in
        (ordered_samples s ≡ newest n xs) × (s.sample_count ≡ min (length xs) n)
  unfolding create
  record_all-create n k xs h =
      let held = record_all-Holds xs [] (create-Holds n k h) in
      let same = max-record_all xs (create n k) in
      (held.window ∙ ap (λ m. newest m xs) same, held.counted ∙ ap (min (length xs)) same)
