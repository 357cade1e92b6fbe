-- ===== src/Rules/Evaluate/Defs.antt =====
-- The state of the whole `RuleEngine`, `evaluate` and `apply_rules`.
use avengers_fyp_is.Common.{
  ℕ, ◌+◌, Bool, true, false, not, ◌&&◌, ◌||◌, String, List, [], ◌∷◌, ◌++◌, Option, none, some, ltb,
  string_eq, ◌==◌, if◌then◌else◌,
}
use avengers_fyp_is.Common.Dict.{Dict, lookup, insert, erase}
use avengers_fyp_is.Rules.Tiers.{Operator, SeverityTier, matched_tier}
use avengers_fyp_is.Rules.Snapshot.{MetricsSnapshot}
use avengers_fyp_is.Rules.Engine.Defs.{
  AlertStatus, firing, resolved, Silence, AlertState, AlertEvent, EngineConfig, RuleEngine,
  dedup_key, is_active, transition,
}
use avengers_fyp_is.Rules.Baseline.State.{is_name, retain}
use avengers_fyp_is.Rules.Baseline.Assess.{
  Decimals, AnomalyRule, Reading, BaselineTracker, validate_anomaly_rule, assess, settle,
}
use avengers_fyp_is.Rules.Evaluate.Read.{
  RuleKind, anomaly, EngineRule, Observed, raised, observed, evaluates_on, read_observed,
}

-- What the engine is given: its settings, the comparisons and the arithmetic of `Decimal`, and the
-- checker of schedules. The values are numbers: no NaN, with which the code's comparison would raise.
pub record Setting (V : Type 0) : Type 0 where
  pub config : EngineConfig
  pub started_at : ℕ
  pub startup_grace : ℕ
  pub compare : Operator → V → V → Bool
  pub decimals : Decimals V
  pub is_scheduled : String → String → ℕ → Bool

pub record Engine (V : Type 0) : Type 0 where
  pub lifecycle : RuleEngine
  pub rules : List (EngineRule V)
  pub baselines : BaselineTracker V
  pub readings : Dict String (Reading V)

abbrev pub is_given : Option String → Bool
is_given none = false
is_given (some w) = true

abbrev pub is_other_window : Option String → String → Bool
is_other_window none window = false
is_other_window (some w) window = not (w == window)

abbrev pub is_anomaly : RuleKind → Bool
is_anomaly anomaly = true
is_anomaly _ = false

abbrev pub has_tier {ℓ} : {A : Type ℓ} → Option A → Bool
has_tier none = false
has_tier (some tier) = true

abbrev pub is_firing_status : AlertStatus → Bool
is_firing_status firing = true
is_firing_status _ = false

module _ {V : Type 0} where
  abbrev pub anomaly_rule : EngineRule V → AnomalyRule
  anomaly_rule rule = record {
    name = rule.lifecycle.name;
    metric = rule.metric;
    has_window = is_given rule.window;
    min_samples = rule.min_samples;
    baseline = rule.baseline;
    baseline_min_samples = rule.baseline_min_samples;
  }

  -- `_validate_anomaly_rules` does not raise.
  abbrev pub are_valid : List (EngineRule V) → Bool
  are_valid [] = true
  are_valid (rule ∷ rules) =
      (not (is_anomaly rule.kind) || has_tier (validate_anomaly_rule (anomaly_rule rule)))
      && are_valid rules

  abbrev pub active_names : List (EngineRule V) → List String
  active_names [] = []
  active_names (rule ∷ rules) =
      if rule.is_draft then active_names rules else rule.lifecycle.name ∷ active_names rules

  abbrev pub retain_readings : List String → Dict String (Reading V) → Dict String (Reading V)
  retain_readings names [] = []
  retain_readings names ((name, r) ∷ readings) =
      let rest = retain_readings names readings in
      if is_name name names then (name, r) ∷ rest else rest

module _ {V : Type 0} where
  unfoldable pub add_silence : Silence → Engine V → Engine V
  add_silence silence e = record e {
    lifecycle = record e.lifecycle { silences = e.lifecycle.silences ++ (silence ∷ []) };
  }

-- The event of an alert whose rule is gone.
abbrev pub removal_event : ℕ → AlertState → AlertEvent
removal_event now s = record {
  alert_id = s.alert_id;
  rule_name = s.rule_name;
  severity = s.severity;
  status = resolved;
  first_observed = s.first_observed;
  last_observed = now;
  resolved_at = some now;
  notification_count = s.notification_count + 1;
}

-- The loop of `apply_rules` over the states: the events, and the states that are kept.
unfoldable pub remove_states :
    List String → ℕ → Dict String AlertState → List AlertEvent × Dict String AlertState
remove_states names now [] = ([], [])
remove_states names now ((key, s) ∷ states) =
    let (events, kept) = remove_states names now states in
    if is_name s.rule_name names
    then (events, (key, s) ∷ kept)
    else (if is_active s.status then removal_event now s ∷ events else events, kept)

module _ {V : Type 0} where
  -- `apply_rules`, and nothing where it raises, which it does before it changes anything.
  unfoldable pub apply_rules :
      List (EngineRule V) → ℕ → Engine V → Option (List AlertEvent × Engine V)
  apply_rules new_rules now e =
      let names = active_names new_rules in
      let (events, kept) = remove_states names now e.lifecycle.states in
      if are_valid new_rules
      then some (
        events,
        record {
          lifecycle = record e.lifecycle { states = kept };
          rules = new_rules;
          baselines = record e.baselines { rules = retain names e.baselines.rules };
          readings = retain_readings names e.readings;
        },
      )
      else none

module _ {V : Type 0} (env : Setting V) where
  abbrev pub is_firing_in : Option AlertState → Bool
  is_firing_in none = false
  is_firing_in (some s) = is_firing_status s.status

  -- `_is_firing`
  unfoldable pub is_firing : String → Engine V → Bool
  is_firing rule_name e = is_firing_in (lookup (dedup_key env.config rule_name) e.lifecycle.states)

  abbrev pub status_in : Option AlertState → Option AlertStatus
  status_in none = none
  status_in (some s) = some s.status

  unfoldable pub status_of : String → Engine V → Option AlertStatus
  status_of rule_name e = status_in (lookup (dedup_key env.config rule_name) e.lifecycle.states)

  abbrev pub is_off_schedule : Option String → ℕ → Bool
  is_off_schedule none now = false
  is_off_schedule (some schedule) now = not (env.is_scheduled schedule env.config.instance_id now)

  -- The four tests for a rule that this evaluation leaves out.
  unfoldable pub is_skipped : EngineRule V → MetricsSnapshot V → ℕ → Bool
  is_skipped rule snapshot now =
      rule.is_draft
      || (is_other_window rule.window snapshot.window
          || (not (evaluates_on rule snapshot) || is_off_schedule rule.schedule_ref now))

  abbrev pub forget_reading : EngineRule V → Engine V → Engine V
  forget_reading rule e = record e { readings = erase rule.lifecycle.name e.readings }

  -- `_read_anomaly`
  abbrev pub with_reading : EngineRule V → Option (Reading V) → Engine V → Option V × Engine V
  with_reading rule none e = (none, forget_reading rule e)
  with_reading rule (some r) e =
      (some r.deviation, record e { readings = insert rule.lifecycle.name r e.readings })

  unfoldable pub read_anomaly :
      EngineRule V → MetricsSnapshot V → ℕ → Engine V → Option (Option V × Engine V)
  read_anomaly rule snapshot now e =
      elim (assess env.decimals (anomaly_rule rule) snapshot now e.baselines) [
        | none ↦ none
        | some (reading, baselines) ↦
            some (with_reading rule reading (record e { baselines = baselines }))
      ]

  abbrev pub value_read : Observed V → Engine V → Option (Option V × Engine V)
  value_read raised e = none
  value_read (observed v) e = some (v, e)

  -- The value that a rule observes: none while the log is silent and the rule depends on it.
  unfoldable pub observe_rule :
      EngineRule V → Bool → MetricsSnapshot V → ℕ → Engine V → Option (Option V × Engine V)
  observe_rule rule log_silent snapshot now e =
      if rule.depends_on_log_activity
        && (log_silent && not (rule.lifecycle.name == "NoLogActivity"))
      then some (none, forget_reading rule e)
      else if is_anomaly rule.kind
      then read_anomaly rule snapshot now e
      else value_read (read_observed env.decimals rule snapshot) e

  abbrev pub settle_with : EngineRule V → Option (Reading V) → ℕ → Bool → Engine V → Engine V
  settle_with rule none now anomalous e = e
  settle_with rule (some r) now anomalous e = record e {
    baselines = settle env.decimals (anomaly_rule rule) r now anomalous e.baselines;
  }

  -- `_settle_anomaly`
  unfoldable pub settle_anomaly : EngineRule V → Option (SeverityTier V) → ℕ → Engine V → Engine V
  settle_anomaly rule tier now e =
      if is_anomaly rule.kind
      then settle_with rule (lookup rule.lifecycle.name e.readings) now (has_tier tier) e
      else e

  -- The rest of the loop's body, once the value is read; `fresh` is the UUID for a new alert or a storm.
  unfoldable pub decide :
      EngineRule V → ℕ → String → Option V → Engine V → Option AlertEvent × Engine V
  decide rule now fresh value e =
      let tier = matched_tier env.compare value rule.lifecycle.tiers rule.lifecycle.operator in
      let e' = settle_anomaly rule tier now e in
      let (states, alert) = transition env.config rule.lifecycle now tier fresh e'.lifecycle in
      (alert, record e' { lifecycle = states })

  unfoldable pub evaluate_rule :
      EngineRule V
      → Bool
      → MetricsSnapshot V
      → ℕ
      → String
      → Engine V
      → Option (Option AlertEvent × Engine V)
  evaluate_rule rule log_silent snapshot now fresh e =
      if is_skipped rule snapshot now
      then some (none, e)
      else elim (observe_rule rule log_silent snapshot now e) [
        | none ↦ none
        | some (value, e') ↦ some (decide rule now fresh value e')
      ]

  abbrev pub add_alert :
      Option AlertEvent → Option (List AlertEvent × Engine V) → Option (List AlertEvent × Engine V)
  add_alert alert none = none
  add_alert none (some r) = some r
  add_alert (some alert) (some (alerts, e)) = some (alert ∷ alerts, e)

  -- The loop of `evaluate`; `fresh` gives the UUID drawn for the rule at a position.
  unfoldable pub evaluate_rules :
      List (EngineRule V)
      → Bool
      → MetricsSnapshot V
      → ℕ
      → (ℕ → String)
      → ℕ
      → Engine V
      → Option (List AlertEvent × Engine V)
  evaluate_rules [] log_silent snapshot now fresh n e = some ([], e)
  evaluate_rules (rule ∷ rules) log_silent snapshot now fresh n e =
      elim (evaluate_rule rule log_silent snapshot now (fresh n) e) [
        | none ↦ none
        | some (alert, e') ↦
            add_alert alert (evaluate_rules rules log_silent snapshot now fresh (n + 1) e')
      ]

  -- `evaluate`, and nothing where it raises
  unfoldable pub evaluate :
      MetricsSnapshot V → ℕ → (ℕ → String) → Engine V → Option (List AlertEvent × Engine V)
  evaluate snapshot now fresh e =
      if ltb now (env.started_at + env.startup_grace)
      then some ([], e)
      else evaluate_rules e.rules (is_firing "NoLogActivity" e) snapshot now fresh 0 e
