-- ===== src/Rules/Baseline/Assess.antt =====
-- `BaselineTracker`: `assess`, and `settle`, which the engine calls with the outcome.
use avengers_fyp_is.Common.{
  ℕ, ◌+◌, ◌-◌, Bool, true, false, not, ◌&&◌, ◌||◌, String, List, [], ◌∷◌, Option, none, some, ltb,
  leb, length, map, string_eq, if◌then◌else◌,
}
use avengers_fyp_is.Common.Dict.{Dict, lookup, insert}
use avengers_fyp_is.Rules.Snapshot.{LatencySummary, MetricsGroup, MetricsSnapshot}
use avengers_fyp_is.Rules.Baseline.State.{
  Sample, Shape, RuleBaseline, min_baseline_windows, promote, offer, settle_state, state_of,
}

-- What the code uses of Python's `Decimal`, `statistics.median` and `round`, on numbers, none of them a NaN.
-- What `over` is at a divisor of zero, where the code's division raises, is left open.
pub record Decimals (V : Type 0) : Type 0 where
  pub zero : V
  pub plus : V → V → V
  pub minus : V → V → V
  pub over : V → V → V
  pub of_nat : ℕ → V
  pub is_zero : V → Bool
  pub is_positive : V → Bool
  pub is_below : V → V → Bool
  pub to_int : V → ℕ
  pub median : List V → V
  pub round_seconds : ℕ → ℕ

-- The fields of an `AnomalyMetric` that its kind has.
pub data MetricKind : Type 0 where
  ratio : List String → List String → MetricKind
  latency : String → MetricKind

pub record AnomalyMetric : Type 0 where
  pub name : String
  pub label : String
  pub kind : MetricKind

abbrev pub anomaly_metrics : Dict String AnomalyMetric
anomaly_metrics =
    (
      "reject_rate",
      record {
        name = "reject_rate";
        label = "reject rate";
        kind = ratio ("orders_rejected" ∷ []) ("orders_acked" ∷ "orders_rejected" ∷ []);
      },
    )
    ∷ (
      "parser_failure_rate",
      record {
        name = "parser_failure_rate";
        label = "parser failure rate";
        kind = ratio ("parse_errors" ∷ []) ("log_lines_read" ∷ []);
      },
    )
    ∷ (
      "execution_issue_rate",
      record {
        name = "execution_issue_rate";
        label = "execution issue rate";
        kind =
            ratio ("orders_rejected" ∷ "cancel_rejects" ∷ "orders_expired" ∷ [])
              ("orders_submitted" ∷ "orders_cancel_requested" ∷ "orders_replaced" ∷ []);
      },
    )
    ∷ (
      "ack_latency_ms",
      record {
        name = "ack_latency_ms";
        label = "processing latency";
        kind = latency "ack_latency_ms";
      },
    )
    ∷ []

-- The fields of `RuleConfig` that the tracker reads.
pub record AnomalyRule : Type 0 where
  pub name : String
  pub metric : String
  pub has_window : Bool
  pub min_samples : Option ℕ
  pub baseline : Option ℕ
  pub baseline_min_samples : ℕ

pub record Reading (V : Type 0) : Type 0 where
  pub metric : AnomalyMetric
  pub current : V
  pub baseline : V
  pub deviation : V
  pub baseline_windows : ℕ
  pub baseline_events : ℕ
  pub window : ℕ
  pub sample : Sample V

pub record BaselineTracker (V : Type 0) : Type 0 where
  pub started_at : ℕ
  pub rules : Dict String (RuleBaseline V)

-- `validate_anomaly_rule`: the metric and the length of the baseline, or nothing where it raises.
abbrev with_window : Bool → AnomalyMetric → Option ℕ → Option (AnomalyMetric × ℕ)
with_window true metric (some baseline) = some (metric, baseline)
with_window _ metric _ = none

unfoldable pub validate_anomaly_rule : AnomalyRule → Option (AnomalyMetric × ℕ)
validate_anomaly_rule rule = elim (lookup rule.metric anomaly_metrics) [
  | none ↦ none
  | some metric ↦ with_window rule.has_window metric rule.baseline
]

module _ {V : Type 0} (d : Decimals V) where
  abbrev pub or_zero : Option V → V
  or_zero none = d.zero
  or_zero (some v) = v

  abbrev pub sum_values : List V → V
  sum_values [] = d.zero
  sum_values (v ∷ vs) = d.plus v (sum_values vs)

  -- `_sum`
  abbrev pub sum_counters : List String → MetricsGroup V → V
  sum_counters names group = sum_values (map (λ n. or_zero (lookup n group.counters)) names)

  -- `rule.min_samples is not None and count < rule.min_samples`
  abbrev pub is_thin : Option ℕ → V → Bool
  is_thin none weight = false
  is_thin (some least) weight = d.is_below weight (d.of_nat least)

  abbrev latency_sample : Option ℕ → ℕ → Option V → ℕ → Option (Sample V)
  latency_sample min_samples count none now = none
  latency_sample min_samples count (some p95) now =
      if is_thin min_samples (d.of_nat count)
      then none
      else some (record { at = now; value = p95; weight = d.of_nat count })

  abbrev summary_sample : Option ℕ → Option (LatencySummary V) → ℕ → Option (Sample V)
  summary_sample min_samples none now = none
  summary_sample min_samples (some summary) now =
      latency_sample min_samples summary.count summary.p95 now

  -- `_current_sample`
  unfoldable pub current_sample : Option ℕ → MetricKind → MetricsGroup V → ℕ → Option (Sample V)
  current_sample min_samples (latency histogram) group now =
      summary_sample min_samples (lookup histogram group.latency) now
  current_sample min_samples (ratio numerators denominators) group now =
      let denominator = sum_counters denominators group in
      if not (d.is_positive denominator) || is_thin min_samples denominator
      then none
      else some (record { at = now; value = sum_counters numerators group; weight = denominator })

  -- `_current_value`
  abbrev pub current_value : MetricKind → Sample V → V
  current_value (latency histogram) s = s.value
  current_value (ratio numerators denominators) s = d.over s.value s.weight

  abbrev pub pooled_weight : List (Sample V) → V
  pooled_weight history = sum_values (map (λ s. s.weight) history)

  -- `_baseline_value`
  unfoldable pub baseline_value : MetricKind → List (Sample V) → Option V
  baseline_value (latency histogram) history = some (d.median (map (λ s. s.value) history))
  baseline_value (ratio numerators denominators) history =
      let total = pooled_weight history in
      if d.is_zero total
      then none
      else some (d.over (sum_values (map (λ s. s.value) history)) total)

  -- `_window_seconds`, in microseconds
  abbrev pub window_of : MetricsSnapshot V → ℕ
  window_of snapshot = d.round_seconds (snapshot.to - snapshot.from)

  abbrev store : String → RuleBaseline V → BaselineTracker V → BaselineTracker V
  store name b t = record t { rules = insert name b t.rules }

  abbrev pub first_sample : Option ℕ → MetricKind → List (MetricsGroup V) → ℕ → Option (Sample V)
  first_sample min_samples kind [] now = none
  first_sample min_samples kind (group ∷ groups) now = current_sample min_samples kind group now

  -- The baseline, if it may be used.
  unfoldable pub usable_baseline : AnomalyRule → MetricKind → Bool → List (Sample V) → Option V
  usable_baseline rule kind warm history =
      if warm && leb min_baseline_windows (length history)
      then elim (baseline_value kind history) [
        | none ↦ none
        | some value ↦
            if d.is_zero value || ltb (d.to_int (pooled_weight history)) rule.baseline_min_samples
            then none
            else some value
      ]
      else none

  -- `assess` once the rule is known to be valid: the reading, and the rule's baseline behind it.
  unfoldable pub assess_state :
      AnomalyRule
      → AnomalyMetric
      → ℕ
      → Bool
      → Option (Sample V)
      → ℕ
      → RuleBaseline V
      → Option (Reading V) × RuleBaseline V
  assess_state rule metric window warm none now b = (none, b)
  assess_state rule metric window warm (some sample) now b =
      elim (usable_baseline rule metric.kind warm b.history) [
        | none ↦ (none, offer sample now window warm false b)
        | some value ↦
            let current = current_value metric.kind sample in
            (
              some (record {
                metric = metric;
                current = current;
                baseline = value;
                deviation = d.over (d.minus current value) value;
                baseline_windows = length b.history;
                baseline_events = d.to_int (pooled_weight b.history);
                window = window;
                sample = sample;
              }),
              b,
            )
      ]

  -- `assess`, with nothing where it raises
  unfoldable pub assess :
      AnomalyRule
      → MetricsSnapshot V
      → ℕ
      → BaselineTracker V
      → Option (Option (Reading V) × BaselineTracker V)
  assess rule snapshot now t = elim (validate_anomaly_rule rule) [
    | none ↦ none
    | some valid ↦
        let window = window_of snapshot in
        let shape : Shape = record { metric = rule.metric; window = window; baseline = valid.1 } in
        let b = promote now window valid.1 (state_of rule.name shape t.rules) in
        let r =
          assess_state rule valid.0 window (leb (t.started_at + window) now)
            (first_sample rule.min_samples valid.0.kind snapshot.groups now) now b in
        some (r.0, store rule.name r.1 t)
  ]

  -- `settle`
  unfoldable pub settle : AnomalyRule → Reading V → ℕ → Bool → BaselineTracker V → BaselineTracker V
  settle rule reading now anomalous t = elim (lookup rule.name t.rules) [
    | none ↦ t
    | some b ↦ store rule.name (settle_state reading.sample now reading.window anomalous b) t
  ]

  -- `_settle_anomaly` of the engine, which decides whether the reading is anomalous
  abbrev pub settle_reading :
      AnomalyRule
      → (Reading V → Bool)
      → ℕ
      → Option (Reading V)
      → BaselineTracker V
      → BaselineTracker V
  settle_reading rule is_anomalous now none t = t
  settle_reading rule is_anomalous now (some reading) t =
      settle rule reading now (is_anomalous reading) t
