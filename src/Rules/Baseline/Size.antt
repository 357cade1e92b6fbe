-- ===== src/Rules/Baseline/Size.antt =====
-- The history of a baseline is never emptied.
use avengers_fyp_is.Common.{
  ℕ, ◌+◌, ◌≤◌, ◌≡◌, inl, inr, Bool, true, false, not, ◌&&◌, ◌||◌, List, [], ◌∷◌, Option, none, some,
  ltb, leb, length, length-append, min, arith, Bool-cases,
}
use avengers_fyp_is.Rules.Baseline.State.{
  Sample, RuleBaseline, min_baseline_windows, expire_history, join, promote, is_pending,
  still_in_window, offer, settle_state, Tick, too_thin, learning, judged, tick, run_ticks,
}

module _ {V : Type 0} (window baseline : ℕ) where
  length-expire_history :
      (now : ℕ) (history : List (Sample V))
      → min 3 (length history) ≤ length (expire_history now baseline history)
  unfolding expire_history
  length-expire_history now [] = omega arith
  length-expire_history now (s ∷ history) =
      elim (Bool-cases
        (ltb min_baseline_windows (length (s ∷ history)) && ltb (s.at + baseline) now)) [
          | inl gone ↦ rw gone (ground (arith, length-expire_history now history, gone))
          | inr stays ↦ rw stays (omega arith)
        ]

  length-join :
      (now : ℕ) (o : Option (Sample V)) (b : RuleBaseline V)
      → length b.history ≤ length (join now window o b).history
  unfolding join
  length-join now none b = omega arith
  length-join now (some p) b = elim (Bool-cases (leb (p.at + window) now)) [
    | inl over ↦ rw over (omega (arith, length-append {0} b.history (p ∷ [])))
    | inr running ↦ rw running (omega arith)
  ]

  length-promote :
      (now : ℕ) (b : RuleBaseline V)
      → min 3 (length b.history) ≤ length (promote now window baseline b).history
  unfolding promote
  length-promote now b = omega (
    arith,
    length-join now b.pending b,
    length-expire_history now (join now window b.pending b).history,
  )

  history-offer :
      (sample : Sample V) (now : ℕ) (warm anomalous : Bool) (b : RuleBaseline V)
      → (offer sample now window warm anomalous b).history ≡ b.history
  unfolding offer
  history-offer sample now warm anomalous b =
      elim (Bool-cases (anomalous || (not warm || is_pending b.pending))) [
        | inl refused ↦ rw (offer, refused)
        | inr taken ↦ elim (Bool-cases (still_in_window now window b.last_anomalous_at)) [
          | inl too_soon ↦ rw (offer, taken, too_soon)
          | inr clear ↦ rw (offer, taken, clear)
        ]
      ]

  length-tick :
      (t : Tick V) (b : RuleBaseline V)
      → min 3 (length b.history) ≤ length (tick window baseline t b).history
  unfolding tick settle_state
  length-tick (too_thin now) b = length-promote now b
  length-tick (learning now sample warm) b =
      rw (history-offer sample now warm false (promote now window baseline b))
        (length-promote now b)
  length-tick (judged now sample false) b =
      rw (history-offer sample now true false (promote now window baseline b))
        (length-promote now b)
  length-tick (judged now sample true) b =
      let b' = promote now window baseline b in
      rw (history-offer sample now true true (record b' { last_anomalous_at = some now }))
        (length-promote now b)

  -- However long an incident lasts and however old the samples are, no evaluations leave fewer samples in
  -- the history of a rule than the minimum of three, or than there were if there were fewer.
  pub run_ticks-keeps :
      (ticks : List (Tick V)) (b : RuleBaseline V)
      → min 3 (length b.history) ≤ length (run_ticks window baseline ticks b).history
  run_ticks-keeps [] b = omega arith
  run_ticks-keeps (t ∷ ticks) b =
      omega (arith, length-tick t b, run_ticks-keeps ticks (tick window baseline t b))
