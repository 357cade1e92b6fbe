-- ===== src/Rules/Baseline/Samples.antt =====
-- What is to be shown of the samples of a baseline.
use avengers_fyp_is.Common.{
  ℕ, ◌+◌, ◌≤◌, ◌<◌, ◌≡◌, ◌⊎◌, inl, inr, ◌&&◌, List, [], ◌∷◌, ◌++◌, Option, none, some, ltb, length,
  arith, All, All-append, Bool-cases, if◌then◌else◌,
}
use avengers_fyp_is.Rules.Baseline.State.{
  Sample, RuleBaseline, min_baseline_windows, expire_history, Tick, too_thin, learning, judged,
}

-- The latest of the anomalies, which are all over.
abbrev pub IsPast : ℕ → Option ℕ → List ℕ → Type 0
IsPast now none at = at ≡ []
IsPast now (some last) at = All (λ a. a ≤ last) at × (last ≤ now)

module _ {V : Type 0} where
  abbrev pub time_of : Tick V → ℕ
  time_of (too_thin now) = now
  time_of (learning now sample warm) = now
  time_of (judged now sample anomalous) = now

  -- Every evaluation is later than the one before it.
  abbrev pub Increasing : ℕ → List (Tick V) → Type 0
  Increasing before [] = Unit
  Increasing before (t ∷ ticks) = (before < time_of t) × Increasing (time_of t) ticks

  -- When the rule was anomalous.
  abbrev pub anomaly_of : Tick V → List ℕ
  anomaly_of (too_thin now) = []
  anomaly_of (learning now sample warm) = []
  anomaly_of (judged now sample anomalous) = if anomalous then now ∷ [] else []

  abbrev pub anomalies : List (Tick V) → List ℕ
  anomalies [] = []
  anomalies (t ∷ ticks) = anomaly_of t ++ anomalies ticks

  -- No anomaly lies in the window that ends with the sample.
  abbrev pub IsNormal : ℕ → List ℕ → Sample V → Type 0
  IsNormal window at s = All (λ a. (a + window ≤ s.at) ⊎ (s.at < a)) at

  -- The windows of the samples do not overlap.
  abbrev pub AreApart : ℕ → List (Sample V) → Type 0
  AreApart window [] = Unit
  AreApart window (s ∷ history) = All (λ r. s.at + window ≤ r.at) history × AreApart window history

  abbrev pub Ended : ℕ → ℕ → List (Sample V) → Type 0
  Ended window now history = All (λ s. s.at + window ≤ now) history

  -- Where the pending sample stands.
  abbrev pub Waiting : ℕ → List ℕ → ℕ → List (Sample V) → Option (Sample V) → Type 0
  Waiting window at now history none = Ended window now history
  Waiting window at now history (some p) =
      IsNormal window at p × (Ended window p.at history × (p.at ≤ now))

  pub record Learned (window : ℕ) (at : List ℕ) (now : ℕ) (b : RuleBaseline V) : Type 0 where
    pub normal : All (IsNormal window at) b.history
    pub apart : AreApart window b.history
    pub ended : Ended window now b.history
    pub waiting : Waiting window at now b.history b.pending
    pub past : IsPast now b.last_anomalous_at at

  pub All-expire_history {ℓ} :
      (Q : Sample V → Type ℓ) (now baseline : ℕ) (history : List (Sample V))
      → All Q history
      → All Q (expire_history now baseline history)
  unfolding expire_history
  All-expire_history Q now baseline [] h = tt
  All-expire_history Q now baseline (s ∷ history) h =
      elim (Bool-cases
        (ltb min_baseline_windows (length (s ∷ history)) && ltb (s.at + baseline) now)) [
          | inl gone ↦ rw gone (All-expire_history Q now baseline history h.1)
          | inr stays ↦ rw stays h
        ]

  pub AreApart-expire_history :
      (window now baseline : ℕ) (history : List (Sample V))
      → AreApart window history
      → AreApart window (expire_history now baseline history)
  unfolding expire_history
  AreApart-expire_history window now baseline [] h = tt
  AreApart-expire_history window now baseline (s ∷ history) h =
      elim (Bool-cases
        (ltb min_baseline_windows (length (s ∷ history)) && ltb (s.at + baseline) now)) [
          | inl gone ↦ rw gone (AreApart-expire_history window now baseline history h.1)
          | inr stays ↦ rw stays h
        ]

  pub AreApart-append :
      (window : ℕ) (history : List (Sample V)) (p : Sample V)
      → AreApart window history
      → Ended window p.at history
      → AreApart window (history ++ (p ∷ []))
  AreApart-append window [] p h e = (tt, tt)
  AreApart-append window (s ∷ history) p h e = (
    All-append (λ r. s.at + window ≤ r.at) history (p ∷ []) h.0 (e.0, tt),
    AreApart-append window history p h.1 e.1,
  )

  pub later-Ended :
      (window m n : ℕ) (history : List (Sample V))
      → m ≤ n
      → Ended window m history
      → Ended window n history
  later-Ended window m n [] h e = tt
  later-Ended window m n (s ∷ history) h e =
      (omega (arith, e.0), later-Ended window m n history h e.1)
