-- ===== src/Rules/Evaluate/Division.antt =====
-- No evaluation divides by zero.
use avengers_fyp_is.Common.{
  ℕ, ◌+◌, ◌≡◌, refl, ap, ◌∙◌, inl, inr, Bool, true, false, String, List, [], ◌∷◌, Option, none,
  some, ltb, string_eq, Bool-cases, Option-cases,
}
use avengers_fyp_is.Rules.Snapshot.{MetricsSnapshot}
use avengers_fyp_is.Rules.Engine.Defs.{AlertEvent}
use avengers_fyp_is.Rules.Baseline.Assess.{settle, assess}
use avengers_fyp_is.Rules.Baseline.Division.{with_over, assess-same}
use avengers_fyp_is.Rules.Evaluate.Read.{
  RuleKind, rate, threshold, latency, absence, signature, anomaly, EngineRule, read_counter_sum,
  read_absence, read_kind,
}
use avengers_fyp_is.Rules.Evaluate.Defs.{
  Setting, Engine, anomaly_rule, is_firing, is_skipped, read_anomaly, observe_rule, settle_anomaly,
  decide, evaluate_rule, add_alert, evaluate_rules, evaluate,
}

-- The same setting with another division.
abbrev pub dividing : {V : Type 0} → Setting V → (V → V → V) → Setting V
dividing env over = record env { decimals = with_over env.decimals over }

module _ {V : Type 0} (env : Setting V) (over : V → V → V)
    (positive : (v : V) → env.decimals.is_positive v ≡ true → env.decimals.is_zero v ≡ false)
    (agree : (a b : V) → env.decimals.is_zero b ≡ false → over a b ≡ env.decimals.over a b) where
  read_kind-same :
      (kind : RuleKind) (rule : EngineRule V) (snapshot : MetricsSnapshot V)
      → read_kind (with_over env.decimals over) kind rule snapshot
        ≡ read_kind env.decimals kind rule snapshot
  unfolding read_kind read_absence read_counter_sum
  read_kind-same rate rule snapshot = refl
  read_kind-same threshold rule snapshot = refl
  read_kind-same latency rule snapshot = refl
  read_kind-same absence rule snapshot = refl
  read_kind-same signature rule snapshot = refl
  read_kind-same anomaly rule snapshot = refl

  read_anomaly-same :
      (rule : EngineRule V) (snapshot : MetricsSnapshot V) (now : ℕ) (e : Engine V)
      → read_anomaly (dividing env over) rule snapshot now e ≡ read_anomaly env rule snapshot now e
  unfolding read_anomaly
  read_anomaly-same rule snapshot now e =
      let same =
        assess-same env.decimals over positive agree (anomaly_rule rule) snapshot now e.baselines in
      elim (Option-cases (assess env.decimals (anomaly_rule rule) snapshot now e.baselines)) [
        | inl raises ↦ rw (read_anomaly, same, raises) refl
        | inr ((none, baselines), found) ↦ rw (read_anomaly, same, found) refl
        | inr ((some reading, baselines), found) ↦ rw (read_anomaly, same, found) refl
      ]

  observe_rule-same :
      (rule : EngineRule V) (log_silent : Bool) (snapshot : MetricsSnapshot V) (now : ℕ)
      (e : Engine V)
      → observe_rule (dividing env over) rule log_silent snapshot now e
        ≡ observe_rule env rule log_silent snapshot now e
  unfolding observe_rule
  observe_rule-same rule log_silent snapshot now e =
      rw
        (
          observe_rule,
          read_anomaly-same rule snapshot now e,
          read_kind-same rule.kind rule snapshot,
        )
        refl

  is_skipped-same :
      (rule : EngineRule V) (snapshot : MetricsSnapshot V) (now : ℕ)
      → is_skipped (dividing env over) rule snapshot now ≡ is_skipped env rule snapshot now
  unfolding is_skipped
  is_skipped-same rule snapshot now = refl

  decide-same :
      (rule : EngineRule V) (now : ℕ) (fresh : String) (value : Option V) (e : Engine V)
      → decide (dividing env over) rule now fresh value e ≡ decide env rule now fresh value e
  unfolding decide settle_anomaly settle
  decide-same rule now fresh value e = refl

  evaluate_rule-same :
      (rule : EngineRule V) (log_silent : Bool) (snapshot : MetricsSnapshot V) (now : ℕ)
      (fresh : String) (e : Engine V)
      → evaluate_rule (dividing env over) rule log_silent snapshot now fresh e
        ≡ evaluate_rule env rule log_silent snapshot now fresh e
  unfolding evaluate_rule
  evaluate_rule-same rule log_silent snapshot now fresh e =
      let skips = is_skipped-same rule snapshot now in
      let observes = observe_rule-same rule log_silent snapshot now e in
      elim (Bool-cases (is_skipped env rule snapshot now)) [
        | inl skipped ↦ rw (evaluate_rule, skips, skipped) refl
        | inr wanted ↦ elim (Option-cases (observe_rule env rule log_silent snapshot now e)) [
          | inl raises ↦ rw (evaluate_rule, skips, wanted, observes, raises) refl
          | inr (r, found) ↦
              rw (evaluate_rule, skips, wanted, observes, found)
                (ap some (decide-same rule now fresh r.0 r.1))
        ]
      ]

  add_alert-same :
      (alert : Option AlertEvent) (r : Option (List AlertEvent × Engine V))
      → add_alert (dividing env over) alert r ≡ add_alert env alert r
  add_alert-same none none = refl
  add_alert-same none (some r) = refl
  add_alert-same (some alert) none = refl
  add_alert-same (some alert) (some r) = refl

  evaluate_rules-same :
      (rules : List (EngineRule V)) (log_silent : Bool) (snapshot : MetricsSnapshot V) (now : ℕ)
      (fresh : ℕ → String) (n : ℕ) (e : Engine V)
      → evaluate_rules (dividing env over) rules log_silent snapshot now fresh n e
        ≡ evaluate_rules env rules log_silent snapshot now fresh n e
  unfolding evaluate_rules
  evaluate_rules-same [] log_silent snapshot now fresh n e = refl
  evaluate_rules-same (rule ∷ rules) log_silent snapshot now fresh n e =
      let first = evaluate_rule-same rule log_silent snapshot now (fresh n) e in
      elim (Option-cases (evaluate_rule env rule log_silent snapshot now (fresh n) e)) [
        | inl raises ↦ rw (evaluate_rules, first, raises) refl
        | inr (r, done) ↦
            rw (evaluate_rules, first, done)
              (add_alert-same r.0 _
                ∙ ap (add_alert env r.0)
                    (evaluate_rules-same rules log_silent snapshot now fresh (n + 1) r.1))
      ]

  -- Two divisions that agree wherever the divisor is not zero give the same evaluation.
  pub evaluate-same :
      (snapshot : MetricsSnapshot V) (now : ℕ) (fresh : ℕ → String) (e : Engine V)
      → evaluate (dividing env over) snapshot now fresh e ≡ evaluate env snapshot now fresh e
  unfolding evaluate is_firing
  evaluate-same snapshot now fresh e =
      elim (Bool-cases (ltb now (env.started_at + env.startup_grace))) [
        | inl grace ↦ rw (evaluate, grace) refl
        | inr up ↦
            rw (evaluate, up)
              (evaluate_rules-same e.rules (is_firing env "NoLogActivity" e) snapshot now fresh 0 e)
      ]
