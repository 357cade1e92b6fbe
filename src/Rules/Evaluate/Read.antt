-- ===== src/Rules/Evaluate/Read.antt =====
-- rules/engine.py, from `_read_indicator` to `_read_observed`: the value that a rule observes in a
-- snapshot.
use avengers_fyp_is.Common.{
  ℕ, Bool, true, false, String, List, [], ◌∷◌, Option, none, some, ltb, string_eq, ◌==◌,
  if◌then◌else◌,
}
use avengers_fyp_is.Common.Dict.{lookup}
use avengers_fyp_is.Rules.Tiers.{RuleConfig}
use avengers_fyp_is.Rules.Snapshot.{
  Indicator, Indicators, LatencySummary, MetricsGroup, MetricsSnapshot,
}
use avengers_fyp_is.Rules.Baseline.Assess.{Decimals, or_zero}

pub data RuleKind : Type 0 where
  rate threshold latency absence signature anomaly : RuleKind

-- A `RuleConfig`; `lifecycle` has the fields that the alert's lifecycle reads.
pub record EngineRule (V : Type 0) : Type 0 where
  pub lifecycle : RuleConfig V
  pub kind : RuleKind
  pub from_gauge : Bool
  pub metric : String
  pub window : Option String
  pub min_samples : Option ℕ
  pub guard_metric : Option String
  pub extra_counters : List String
  pub signature : Option String
  pub level : Option String
  pub schedule_ref : Option String
  pub depends_on_log_activity : Bool
  pub is_draft : Bool
  pub baseline : Option ℕ
  pub baseline_min_samples : ℕ

-- What a read comes to: an exception, or a value or `None`.
pub data Observed (V : Type 0) : Type 0 where
  raised : Observed V
  observed : Option V → Observed V

abbrev pub is_too_few : Option ℕ → ℕ → Bool
is_too_few none count = false
is_too_few (some least) count = ltb count least

abbrev pub same_option : Option String → Option String → Bool
same_option none none = true
same_option (some a) (some b) = a == b
same_option _ _ = false

abbrev pub is_only : String → List String → Bool
is_only name (n ∷ []) = n == name
is_only name _ = false

abbrev pub is_empty : List String → Bool
is_empty [] = true
is_empty (n ∷ names) = false

abbrev pub level_snapshot : Option String → List String → Bool
level_snapshot none group_by = is_empty group_by
level_snapshot (some level) group_by = is_only "level" group_by

module _ {V : Type 0} where
  -- `getattr(group.indicators, metric)`, which raises for another name
  abbrev pub indicator_named : String → Indicators V → Option (Indicator V)
  indicator_named name i =
      if name == "reject_rate"
      then some i.reject_rate
      else if name == "fill_rate"
      then some i.fill_rate
      else if name == "cancel_rate"
      then some i.cancel_rate
      else if name == "parse_error_rate"
      then some i.parse_error_rate
      else none

  abbrev pub sufficient : Option ℕ → Option (Indicator V) → Observed V
  sufficient min_samples none = raised
  sufficient min_samples (some i) =
      observed (if is_too_few min_samples i.denominator then none else i.value)

  unfoldable pub read_indicator : EngineRule V → Option (MetricsGroup V) → Observed V
  read_indicator rule none = observed none
  read_indicator rule (some group) =
      sufficient rule.min_samples (indicator_named rule.metric group.indicators)

  abbrev pub p95_of : Option ℕ → Option (LatencySummary V) → Option V
  p95_of min_samples none = none
  p95_of min_samples (some summary) =
      if is_too_few min_samples summary.count then none else summary.p95

  unfoldable pub read_latency : EngineRule V → Option (MetricsGroup V) → Option V
  read_latency rule none = none
  read_latency rule (some group) = p95_of rule.min_samples (lookup rule.metric group.latency)

  abbrev pub or_none : Option (Option V) → Option V
  or_none none = none
  or_none (some v) = v

  unfoldable pub read_gauge : EngineRule V → MetricsSnapshot V → Option V
  read_gauge rule snapshot = or_none (lookup rule.metric snapshot.gauges)

  unfoldable pub group_with :
      String → Option String → List (MetricsGroup V) → Option (MetricsGroup V)
  group_with dimension wanted [] = none
  group_with dimension wanted (group ∷ groups) =
      let rest = group_with dimension wanted groups in
      if same_option (lookup dimension group.dimensions) wanted then some group else rest

  abbrev pub first_group : List (MetricsGroup V) → Option (MetricsGroup V)
  first_group [] = none
  first_group (group ∷ groups) = some group

  abbrev pub level_group : Option String → MetricsSnapshot V → Option (MetricsGroup V)
  level_group none snapshot = first_group snapshot.groups
  level_group (some level) snapshot = group_with "level" (some level) snapshot.groups

  -- `_rule_group`
  unfoldable pub rule_group : EngineRule V → MetricsSnapshot V → Option (MetricsGroup V)
  rule_group rule snapshot = elim rule.kind [
    | signature ↦ group_with "error_signature" rule.signature snapshot.groups
    | _ ↦ level_group rule.level snapshot
  ]

  -- `_evaluates_on`
  unfoldable pub evaluates_on : EngineRule V → MetricsSnapshot V → Bool
  evaluates_on rule snapshot = elim rule.kind [
    | signature ↦ is_only "error_signature" snapshot.group_by
    | _ ↦ level_snapshot rule.level snapshot.group_by
  ]

module _ {V : Type 0} (d : Decimals V) where
  abbrev pub counter : String → MetricsGroup V → V
  counter name group = or_zero d (lookup name group.counters)

  abbrev pub add_counters : List String → MetricsGroup V → V → V
  add_counters [] group total = total
  add_counters (name ∷ names) group total =
      add_counters names group (d.plus total (counter name group))

  unfoldable pub read_counter_sum : EngineRule V → Option (MetricsGroup V) → V
  read_counter_sum rule none = d.zero
  read_counter_sum rule (some group) =
      add_counters rule.extra_counters group (counter rule.metric group)

  abbrev pub guard_value : String → Option (MetricsGroup V) → V
  guard_value name none = d.zero
  guard_value name (some group) = counter name group

  abbrev pub is_guarded : Option String → Option (MetricsGroup V) → Bool
  is_guarded none group = true
  is_guarded (some name) group = d.is_positive (guard_value name group)

  unfoldable pub read_absence : EngineRule V → Option (MetricsGroup V) → Option V
  read_absence rule group =
      if is_guarded rule.guard_metric group then some (read_counter_sum rule group) else none

  -- `_read_observed`, by the rule's kind
  unfoldable pub read_kind : RuleKind → EngineRule V → MetricsSnapshot V → Observed V
  read_kind rate rule snapshot = read_indicator rule (rule_group rule snapshot)
  read_kind latency rule snapshot = observed (read_latency rule (rule_group rule snapshot))
  read_kind absence rule snapshot = observed (read_absence rule (rule_group rule snapshot))
  read_kind _ rule snapshot = observed (
      if rule.from_gauge
      then read_gauge rule snapshot
      else some (read_counter_sum rule (rule_group rule snapshot)))

  abbrev pub read_observed : EngineRule V → MetricsSnapshot V → Observed V
  read_observed rule snapshot = read_kind rule.kind rule snapshot
