-- ===== src/Rules/Evaluate/Capped.antt =====
-- An evaluation returns, and keeps the number of active alerts within the limit.
use avengers_fyp_is.Common.{◌≡◌, Bool, true, ◌||◌, String, List, Option, some, string_eq, ◌==◌}
use avengers_fyp_is.Rules.Engine.Defs.{AlertEvent}
use avengers_fyp_is.Rules.Engine.Cap.{IsCapped}
use avengers_fyp_is.Rules.Baseline.Assess.{validate_anomaly_rule}
use avengers_fyp_is.Rules.Evaluate.Read.{RuleKind, rate, anomaly, EngineRule}
use avengers_fyp_is.Rules.Evaluate.Defs.{Setting, Engine, has_tier, anomaly_rule}

abbrev pub is_indicator : String → Bool
is_indicator name =
    (name == "reject_rate")
    || ((name == "fill_rate") || ((name == "cancel_rate") || (name == "parse_error_rate")))

module _ {V : Type 0} where
  -- A rate names an indicator, and an anomaly rule is one that the constructor accepts.
  abbrev pub Readable : RuleKind → EngineRule V → Type 0
  Readable rate rule = is_indicator rule.metric ≡ true
  Readable anomaly rule = has_tier (validate_anomaly_rule (anomaly_rule rule)) ≡ true
  Readable _ rule = Unit

module _ {V : Type 0} (env : Setting V) where
  -- A step that returns, and what it returns leaves the alerts as they are.
  abbrev Reads : Engine V → Option (Option V × Engine V) → Type 0
  Reads e r = (v : Option V) × (e' : Engine V) × (r ≡ some (v, e')) × (e'.lifecycle ≡ e.lifecycle)

  -- The evaluation returns, within the limit.
  abbrev Stays : Option (List AlertEvent × Engine V) → Type 0
  Stays r =
      (alerts : List AlertEvent) × (e' : Engine V) × (r ≡ some (alerts, e'))
      × IsCapped env.config e'.lifecycle
