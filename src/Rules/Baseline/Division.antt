-- ===== src/Rules/Baseline/Division.antt =====
-- No reading of an anomaly rule divides by zero.
use avengers_fyp_is.Common.{
  ℕ, ◌+◌, ◌≡◌, refl, ap, inl, inr, Bool, true, false, ◌&&◌, ◌||◌, List, [], ◌∷◌, Option, none, some,
  ltb, leb, length, Bool-cases, Option-cases, arith,
}
use avengers_fyp_is.Rules.Snapshot.{MetricsGroup, MetricsSnapshot}
use avengers_fyp_is.Rules.Baseline.State.{
  Sample, Shape, RuleBaseline, min_baseline_windows, promote, state_of,
}
use avengers_fyp_is.Rules.Baseline.Assess.{
  Decimals, MetricKind, ratio, latency, AnomalyMetric, AnomalyRule, BaselineTracker,
  validate_anomaly_rule, sum_counters, is_thin, current_sample, current_value, pooled_weight,
  baseline_value, window_of, first_sample, usable_baseline, assess_state, assess,
}

-- The same numbers with another division.
abbrev pub with_over : {V : Type 0} → Decimals V → (V → V → V) → Decimals V
with_over d over = record d { over = over }

module _ {V : Type 0} (d : Decimals V) (over : V → V → V)
    (positive : (v : V) → d.is_positive v ≡ true → d.is_zero v ≡ false)
    (agree : (a b : V) → d.is_zero b ≡ false → over a b ≡ d.over a b) where
  -- The sample of a ratio has a weight that may divide.
  abbrev MayDivide : MetricKind → Sample V → Type 0
  MayDivide (latency histogram) s = Unit
  MayDivide (ratio numerators denominators) s = d.is_zero s.weight ≡ false

  abbrev AllMayDivide : MetricKind → Option (Sample V) → Type 0
  AllMayDivide kind none = Unit
  AllMayDivide kind (some s) = MayDivide kind s

  current_sample-MayDivide :
      (least : Option ℕ) (kind : MetricKind) (group : MetricsGroup V) (now : ℕ)
      → AllMayDivide kind (current_sample d least kind group now)
  unfolding current_sample
  current_sample-MayDivide least (latency histogram) group now =
      elim (Option-cases (current_sample d least (latency histogram) group now)) [
        | inl absent ↦ rw absent tt
        | inr (s, found) ↦ rw found tt
      ]
  current_sample-MayDivide least (ratio numerators denominators) group now =
      let weight = sum_counters d denominators group in
      elim (Bool-cases (d.is_positive weight)) [
        | inl above ↦ elim (Bool-cases (is_thin d least weight)) [
          | inl thin ↦ rw (current_sample, above, thin) tt
          | inr thick ↦ rw (current_sample, above, thick) (positive weight above)
        ]
        | inr low ↦ rw (current_sample, low) tt
      ]

  current_value-same :
      (kind : MetricKind) (s : Sample V)
      → MayDivide kind s
      → current_value (with_over d over) kind s ≡ current_value d kind s
  current_value-same (latency histogram) s h = refl
  current_value-same (ratio numerators denominators) s h = agree s.value s.weight h

  baseline_value-same :
      (kind : MetricKind) (history : List (Sample V))
      → baseline_value (with_over d over) kind history ≡ baseline_value d kind history
  unfolding baseline_value
  baseline_value-same (latency histogram) history = refl
  baseline_value-same (ratio numerators denominators) history =
      elim (Bool-cases (d.is_zero (pooled_weight d history))) [
        | inl empty ↦ rw (baseline_value, empty) refl
        | inr full ↦ rw (baseline_value, full) (ap some (agree _ (pooled_weight d history) full))
      ]

  usable_baseline-same :
      (rule : AnomalyRule) (kind : MetricKind) (warm : Bool) (history : List (Sample V))
      → usable_baseline (with_over d over) rule kind warm history
        ≡ usable_baseline d rule kind warm history
  unfolding usable_baseline
  usable_baseline-same rule kind warm history =
      elim (Option-cases (baseline_value d kind history)) [
        | inl absent ↦ rw (usable_baseline, baseline_value-same kind history, absent) refl
        | inr (value, found) ↦ rw (usable_baseline, baseline_value-same kind history, found) refl
      ]

  usable_baseline-nonzero :
      (rule : AnomalyRule) (kind : MetricKind) (warm : Bool) (history : List (Sample V)) (value : V)
      → usable_baseline d rule kind warm history ≡ some value
      → d.is_zero value ≡ false
  unfolding usable_baseline
  usable_baseline-nonzero rule kind warm history value h =
      elim (Bool-cases (warm && leb min_baseline_windows (length history))) [
        | inr early ↦ absurd (cc (rw (usable_baseline, early) at h))
        | inl due ↦ elim (Option-cases (baseline_value d kind history)) [
          | inl absent ↦ absurd (cc (rw (usable_baseline, due, absent) at h))
          | inr (v, found) ↦
              elim (Bool-cases (
                d.is_zero v
                || ltb (d.to_int (pooled_weight d history)) rule.baseline_min_samples)) [
                  | inl refused ↦ absurd (cc (rw (usable_baseline, due, found, refused) at h))
                  | inr used ↦
                      let e : some v ≡ some value = rw (usable_baseline, due, found, used) at h in
                      ground (arith, e, used)
                ]
        ]
      ]

  assess_state-same :
      (rule : AnomalyRule) (metric : AnomalyMetric) (window : ℕ) (warm : Bool)
      (sample : Option (Sample V)) (now : ℕ) (b : RuleBaseline V)
      → AllMayDivide metric.kind sample
      → assess_state (with_over d over) rule metric window warm sample now b
        ≡ assess_state d rule metric window warm sample now b
  unfolding assess_state
  assess_state-same rule metric window warm none now b h = refl
  assess_state-same rule metric window warm (some s) now b h =
      let same = usable_baseline-same rule metric.kind warm b.history in
      elim (Option-cases (usable_baseline d rule metric.kind warm b.history)) [
        | inl unusable ↦ rw (assess_state, same, unusable) refl
        | inr (value, usable) ↦
            let nonzero = usable_baseline-nonzero rule metric.kind warm b.history value usable in
            rw
              (
                assess_state,
                same,
                usable,
                current_value-same metric.kind s h,
                agree (d.minus (current_value d metric.kind s) value) value nonzero,
              )
              refl
      ]

  first_sample-MayDivide :
      (least : Option ℕ) (kind : MetricKind) (groups : List (MetricsGroup V)) (now : ℕ)
      → AllMayDivide kind (first_sample d least kind groups now)
  first_sample-MayDivide least kind [] now = tt
  first_sample-MayDivide least kind (group ∷ groups) now =
      current_sample-MayDivide least kind group now

  current_sample-same :
      (least : Option ℕ) (kind : MetricKind) (group : MetricsGroup V) (now : ℕ)
      → current_sample (with_over d over) least kind group now
        ≡ current_sample d least kind group now
  unfolding current_sample
  current_sample-same least (latency histogram) group now = refl
  current_sample-same least (ratio numerators denominators) group now = refl

  first_sample-same :
      (least : Option ℕ) (kind : MetricKind) (groups : List (MetricsGroup V)) (now : ℕ)
      → first_sample (with_over d over) least kind groups now ≡ first_sample d least kind groups now
  first_sample-same least kind [] now = refl
  first_sample-same least kind (group ∷ groups) now = current_sample-same least kind group now

  -- No assessment divides by zero: two divisions that agree wherever the divisor is not zero give the same
  -- reading and the same baseline, or both raise, whatever the rule, the snapshot and the baselines hold.
  -- Positive numbers are taken to be other than zero.
  pub assess-same :
      (rule : AnomalyRule) (snapshot : MetricsSnapshot V) (now : ℕ) (t : BaselineTracker V)
      → assess (with_over d over) rule snapshot now t ≡ assess d rule snapshot now t
  unfolding assess
  assess-same rule snapshot now t = elim (Option-cases (validate_anomaly_rule rule)) [
    | inl bad ↦ rw (assess, bad) refl
    | inr (valid, ok) ↦
        let metric = valid.0 in
        let window = window_of d snapshot in
        let shape : Shape = record { metric = rule.metric; window = window; baseline = valid.1 } in
        let sample = first_sample d rule.min_samples metric.kind snapshot.groups now in
        let same = first_sample-same rule.min_samples metric.kind snapshot.groups now in
        let e =
          assess_state-same rule metric window (leb (t.started_at + window) now) sample now
            (promote now window valid.1 (state_of rule.name shape t.rules))
            (first_sample-MayDivide rule.min_samples metric.kind snapshot.groups now) in
        rw (assess, ok, same, e) refl
  ]
