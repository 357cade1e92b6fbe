-- ===== src/Rules/Snapshot.antt =====
-- packages/telemetry_shared, models/metrics.py: the metrics of one window, as far as the rules read them.
-- Values are Python's `Decimal`s, a type that is given.
use avengers_fyp_is.Common.{ℕ, String, List, Option, none, string_eq}
use avengers_fyp_is.Common.Dict.{Dict}

pub record Indicator (V : Type 0) : Type 0 where
  pub value : Option V
  pub denominator : ℕ

pub record Indicators (V : Type 0) : Type 0 where
  pub reject_rate : Indicator V
  pub fill_rate : Indicator V
  pub cancel_rate : Indicator V
  pub parse_error_rate : Indicator V

pub record LatencySummary (V : Type 0) : Type 0 where
  pub p95 : Option V
  pub count : ℕ

pub record MetricsGroup (V : Type 0) : Type 0 where
  pub dimensions : Dict String String
  pub counters : Dict String V
  pub indicators : Indicators V
  pub latency : Dict String (LatencySummary V)

-- The gauges are the attributes of `Gauges`, by their names.
pub record MetricsSnapshot (V : Type 0) : Type 0 where
  pub window : String
  pub group_by : List String
  pub from : ℕ
  pub to : ℕ
  pub gauges : Dict String (Option V)
  pub groups : List (MetricsGroup V)

abbrev pub no_indicators : {V : Type 0} → Indicators V
no_indicators = record {
  reject_rate = record { value = none; denominator = 0 };
  fill_rate = record { value = none; denominator = 0 };
  cancel_rate = record { value = none; denominator = 0 };
  parse_error_rate = record { value = none; denominator = 0 };
}
