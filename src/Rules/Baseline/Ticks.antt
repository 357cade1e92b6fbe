-- ===== src/Rules/Baseline/Ticks.antt =====
-- One evaluation of an anomaly rule by the engine is one tick of the rule's baseline.
use avengers_fyp_is.Common.{ℕ, ◌≡◌, Bool, Option, none, some, string_eq}
use avengers_fyp_is.Rules.Snapshot.{MetricsSnapshot}
use avengers_fyp_is.Rules.Baseline.State.{
  Sample, RuleBaseline, settle_state, too_thin, learning, judged, tick,
}
use avengers_fyp_is.Rules.Baseline.Assess.{
  Decimals, AnomalyMetric, AnomalyRule, Reading, BaselineTracker, current_value, assess,
  settle_reading,
}

module _ {V : Type 0} (d : Decimals V) where
  -- `_read_anomaly` and `_settle_anomaly`: nothing where `assess` raises.
  unfoldable pub evaluate_anomaly :
      AnomalyRule
      → (Reading V → Bool)
      → MetricsSnapshot V
      → ℕ
      → BaselineTracker V
      → Option (BaselineTracker V)
  evaluate_anomaly rule is_anomalous snapshot now t = elim (assess d rule snapshot now t) [
    | none ↦ none
    | some r ↦ some (settle_reading d rule is_anomalous now r.0 r.1)
  ]

  -- What the sample and the usable baseline, if there are any, ask of the rule's baseline: one tick, and
  -- which. A judged sample carries what the caller says of the reading, which is made of the sample and the
  -- usable baseline.
  abbrev pub IsTick :
      (Reading V → Bool)
      → AnomalyMetric
      → Bool
      → ℕ
      → ℕ
      → ℕ
      → Option (Sample V)
      → Option V
      → RuleBaseline V
      → RuleBaseline V
      → Type 0
  IsTick is_anomalous metric warm now window baseline none usable b b' =
      b' ≡ tick window baseline (too_thin now) b
  IsTick is_anomalous metric warm now window baseline (some s) none b b' =
      b' ≡ tick window baseline (learning now s warm) b
  IsTick is_anomalous metric warm now window baseline (some s) (some value) b b' =
      let current = current_value d metric.kind s in
      (reading : Reading V) × (reading.sample ≡ s)
      × (reading.current ≡ current)
      × (reading.baseline ≡ value)
      × (reading.deviation ≡ d.over (d.minus current value) value)
      × (b' ≡ tick window baseline (judged now s (is_anomalous reading)) b)

  abbrev pub settled : (Reading V → Bool) → ℕ → Option (Reading V) → RuleBaseline V → RuleBaseline V
  settled is_anomalous now none b = b
  settled is_anomalous now (some reading) b =
      settle_state reading.sample now reading.window (is_anomalous reading) b
