-- ===== src/Rules/Evaluate/Tests.antt =====
-- The theorems on evaluation and reloading at concrete inputs.
use avengers_fyp_is.Common.{
  ℕ, ◌+◌, ◌-◌, ◌/◌, ◌≡◌, refl, ltb, leb, nat_beq, true, false, List, [], ◌∷◌, none, some,
  if◌then◌else◌,
}
use avengers_fyp_is.Rules.Tiers.{gt, ge, lt, le, eq}
use avengers_fyp_is.Rules.Snapshot.{MetricsSnapshot, Indicator}
use avengers_fyp_is.Rules.Engine.Defs.{firing, AlertState, AlertEvent}
use avengers_fyp_is.Rules.Evaluate.Read.{rate, EngineRule}
use avengers_fyp_is.Rules.Evaluate.Defs.{Setting, Engine, active_names, apply_rules}
use avengers_fyp_is.Rules.Evaluate.Reload.{Reloaded, apply_rules-Reloaded}

-- Values are thousandths.
abbrev env : Setting ℕ
env = record {
  config = record { instance_id = "i-1"; renotify_interval = 1800; max_active_alerts = 2 };
  started_at = 0;
  startup_grace = 60;
  compare = λ op a b. elim op [
    | gt ↦ ltb b a
    | ge ↦ leb b a
    | lt ↦ ltb a b
    | le ↦ leb a b
    | eq ↦ nat_beq a b
  ];
  decimals = record {
    zero = 0;
    plus = λ a b. a + b;
    minus = λ a b. a - b;
    over = λ a b. 1000 / b;
    of_nat = λ n. n;
    is_zero = λ a. nat_beq a 0;
    is_positive = λ a. ltb 0 a;
    is_below = λ a b. ltb a b;
    to_int = λ a. a;
    median = λ vs. 5;
    round_seconds = λ n. n;
  };
  is_scheduled = λ schedule instance_id now. true;
}

abbrev high_rejects : EngineRule ℕ
high_rejects = record {
  lifecycle = record {
    name = "HighRejectRate";
    operator = gt;
    tiers = record { severity = "warning"; threshold = 50 } ∷ [];
    for_time = 60;
    resolve_after = 300;
  };
  kind = rate;
  from_gauge = false;
  metric = "reject_rate";
  window = some "5m";
  min_samples = some 20;
  guard_metric = none;
  extra_counters = [];
  signature = none;
  level = none;
  schedule_ref = none;
  depends_on_log_activity = true;
  is_draft = false;
  baseline = none;
  baseline_min_samples = 100;
}

abbrev some_rejects : Indicator ℕ
some_rejects = record { value = some 100; denominator = 40 }

abbrev snapshot : MetricsSnapshot ℕ
snapshot = record {
  window = "5m";
  group_by = [];
  from = 0;
  to = 300;
  gauges = [];
  groups =
      record {
        dimensions = [];
        counters = [];
        indicators = record {
          reject_rate = some_rejects;
          fill_rate = some_rejects;
          cancel_rate = some_rejects;
          parse_error_rate = some_rejects;
        };
        latency = [];
      }
      ∷ [];
}

abbrev fired : AlertState
fired = record {
  rule_name = "HighRejectRate";
  alert_id = "a-1";
  status = firing;
  severity = "warning";
  condition_since = 100;
  first_observed = 100;
  last_observed = 200;
  last_notified_at = some 160;
  notification_count = 1;
}

abbrev engine : Engine ℕ
engine = record {
  lifecycle = record {
    states = ("HighRejectRate::i-1", fired) ∷ [];
    silences = [];
    storm_active = false;
  };
  rules = high_rejects ∷ [];
  baselines = record { started_at = 0; rules = [] };
  readings = [];
}

-- A division that gives 7 where the divisor is zero.
abbrev over_or_seven : ℕ → ℕ → ℕ
over_or_seven a b = if nat_beq b 0 then 7 else 1000 / b

-- The only rule becomes a draft.
abbrev drafted : List (EngineRule ℕ)
drafted = record high_rejects { is_draft = true } ∷ []

apply_rules-Reloaded_example :
    (events : List AlertEvent) × (e' : Engine ℕ) × (apply_rules drafted 400 engine
      ≡ some (events, e'))
    × Reloaded (active_names drafted) 400 engine.lifecycle.states (events, e'.lifecycle.states)
apply_rules-Reloaded_example = apply_rules-Reloaded drafted 400 engine refl
