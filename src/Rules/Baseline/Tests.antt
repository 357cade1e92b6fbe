-- ===== src/Rules/Baseline/Tests.antt =====
-- The theorems on the baseline at concrete inputs.
use avengers_fyp_is.Common.{
  ℕ, ◌≤◌, ◌≡◌, refl, true, false, List, [], ◌∷◌, some, arith, length, min, All, ◌+◌, ◌-◌, ◌/◌, ltb,
  nat_beq, string_eq,
}
use avengers_fyp_is.Rules.Snapshot.{MetricsSnapshot, no_indicators}
use avengers_fyp_is.Rules.Baseline.State.{
  Sample, Shape, Tick, too_thin, learning, judged, new_baseline, run_ticks, tick, promote, join,
  offer, settle_state, expire_history,
}
use avengers_fyp_is.Rules.Baseline.Samples.{IsNormal, AreApart, anomalies}
use avengers_fyp_is.Rules.Baseline.Clean.{baseline_clean}
use avengers_fyp_is.Rules.Baseline.Assess.{
  Decimals, ratio, AnomalyMetric, AnomalyRule, BaselineTracker,
}
use avengers_fyp_is.Rules.Baseline.Size.{run_ticks-keeps}

abbrev shape : Shape
shape = record { metric = "reject_rate"; window = 300; baseline = 86400 }

abbrev sample : Sample ℕ
sample = record { at = 0; value = 1; weight = 100 }

abbrev ticks : List (Tick ℕ)
ticks =
    learning 300 sample true
    ∷ learning 310 sample true
    ∷ judged 620 sample true
    ∷ judged 700 sample false
    ∷ judged 930 sample false
    ∷ too_thin 1300
    ∷ []

baseline_clean_example :
    let b = run_ticks 300 86400 ticks (new_baseline shape) in
    All (IsNormal 300 (anomalies ticks)) b.history × AreApart 300 b.history
baseline_clean_example =
    baseline_clean 300 86400 shape ticks (omega arith)
      (omega arith, (omega arith, (omega arith, (omega arith, (omega arith, (omega arith, tt))))))

-- The samples of 300 and 930 are in the history, the one of 700 is not.
two_samples : length (run_ticks 300 86400 ticks (new_baseline shape)).history ≡ 2
unfolding tick promote join offer settle_state expire_history
two_samples = refl

run_ticks-keeps_example :
    min 3 (length (new_baseline {V = ℕ} shape).history)
    ≤ length (run_ticks 300 86400 ticks (new_baseline shape)).history
run_ticks-keeps_example = run_ticks-keeps 300 86400 ticks (new_baseline shape)

-- Whole numbers for the decimals, in parts per thousand where they are ratios.
abbrev whole : Decimals ℕ
whole = record {
  zero = 0;
  plus = λ a b. a + b;
  minus = λ a b. a - b;
  over = λ a b. 1000 / b;
  of_nat = λ n. n;
  is_zero = λ a. nat_beq a 0;
  is_positive = λ a. ltb 0 a;
  is_below = λ a b. ltb a b;
  to_int = λ a. a;
  median = λ vs. 5;
  round_seconds = λ n. n;
}

abbrev rule : AnomalyRule
rule = record {
  name = "RejectRateAnomaly";
  metric = "reject_rate";
  has_window = true;
  min_samples = some 20;
  baseline = some 86400;
  baseline_min_samples = 50;
}

abbrev reject_rate : AnomalyMetric
reject_rate = record {
  name = "reject_rate";
  label = "reject rate";
  kind = ratio ("orders_rejected" ∷ []) ("orders_acked" ∷ "orders_rejected" ∷ []);
}

abbrev snapshot : MetricsSnapshot ℕ
snapshot = record {
  window = "5m";
  group_by = [];
  gauges = [];
  from = 1000;
  to = 1300;
  groups =
      record {
        dimensions = [];
        counters = ("orders_acked", 90) ∷ ("orders_rejected", 10) ∷ [];
        indicators = no_indicators;
        latency = [];
      }
      ∷ [];
}

abbrev nothing_yet : BaselineTracker ℕ
nothing_yet = record { started_at = 0; rules = [] }
