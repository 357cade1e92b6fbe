-- ===== src/Rules/Evaluate/Reload.antt =====
-- New rules: which alerts stay, and which are announced as resolved.
use avengers_fyp_is.Common.{
  ℕ, ◌+◌, ◌-◌, ◌≡◌, refl, ap, inl, inr, true, false, String, List, [], ◌∷◌, some, All, arith,
  length, sum_by, Bool-cases, if◌then◌else◌,
}
use avengers_fyp_is.Common.Dict.{Dict}
use avengers_fyp_is.Rules.Engine.Defs.{resolved, AlertState, AlertEvent, is_active, active_in}
use avengers_fyp_is.Rules.Baseline.State.{is_name}
use avengers_fyp_is.Rules.Evaluate.Read.{EngineRule}
use avengers_fyp_is.Rules.Evaluate.Defs.{
  Engine, are_valid, active_names, remove_states, apply_rules,
}

-- The alerts that a reload must announce, one for each alert that is active and whose rule is gone, each
-- counted by a number for its id, rule, severity, first observation and notifications.
abbrev pub gone_alerts :
    (String → String → String → ℕ → ℕ → ℕ) → List String → Dict String AlertState → ℕ
gone_alerts f names states =
    sum_by
      (λ x.
        if is_name x.1.rule_name names
        then 0
        else if is_active x.1.status
        then f x.1.alert_id x.1.rule_name x.1.severity x.1.first_observed x.1.notification_count
        else 0)
      states

-- What becomes of the states and which events there are.
pub record Reloaded (names : List String) (now : ℕ) (states : Dict String AlertState)
    (r : List AlertEvent × Dict String AlertState) : Type 0 where
  pub active : active_in states ≡ length r.0 + active_in r.1
  pub one_each :
      (f : String → String → String → ℕ → ℕ → ℕ)
      → sum_by
          (λ event.
            f event.alert_id event.rule_name event.severity event.first_observed
              (event.notification_count - 1))
          r.0
        ≡ gone_alerts f names states
  pub kept :
      (f : String → AlertState → ℕ)
      → sum_by (λ x. f x.0 x.1) r.1
        ≡ sum_by (λ x. if is_name x.1.rule_name names then f x.0 x.1 else 0) states
  pub configured : All (λ x. is_name x.1.rule_name names ≡ true) r.1
  pub announced :
      All
        (λ event.
          (is_name event.rule_name names ≡ false)
          × ((event.status ≡ resolved) × (event.resolved_at ≡ some now)))
        r.0

added_one : (n : ℕ) → n + 1 - 1 ≡ n
added_one n = omega arith

remove_states-Reloaded :
    (names : List String) (now : ℕ) (states : Dict String AlertState)
    → Reloaded names now states (remove_states names now states)
unfolding remove_states active_in
remove_states-Reloaded names now [] = record {
  active = refl;
  one_each = λ f. refl;
  kept = λ f. refl;
  configured = tt;
  announced = tt;
}
remove_states-Reloaded names now ((key, s) ∷ states) =
    let r = remove_states-Reloaded names now states in
    elim (Bool-cases (is_name s.rule_name names)) [
      | inl stays ↦ rw stays (record {
        active = omega (arith, r.active);
        one_each = λ f. rw stays (omega (arith, r.one_each f));
        kept = λ f. rw stays (omega (arith, r.kept f));
        configured = (stays, r.configured);
        announced = r.announced;
      })
      | inr gone ↦ elim (Bool-cases (is_active s.status)) [
        | inl open_still ↦
            rw (gone, open_still)
              (record {
                active = ground (arith, r.active, open_still);
                one_each = λ f.
                    rw (gone, open_still)
                      (omega (
                        arith,
                        r.one_each f,
                        ap (λ n. f s.alert_id s.rule_name s.severity s.first_observed n)
                            (added_one s.notification_count),
                      ));
                kept = λ f. rw gone (omega (arith, r.kept f));
                configured = r.configured;
                announced = ((gone, (refl, refl)), r.announced);
              })
        | inr quiet ↦
            rw (gone, quiet)
              (record {
                active = ground (arith, r.active, quiet);
                one_each = λ f. rw (gone, quiet) (omega (arith, r.one_each f));
                kept = λ f. rw gone (omega (arith, r.kept f));
                configured = r.configured;
                announced = r.announced;
              })
      ]
    ]

module _ {V : Type 0} where
  -- If the new rules are valid, `apply_rules` returns, and the states of rules that are still active are
  -- kept as they are and no others. There is exactly one event for each alert that was active and whose
  -- rule is no longer active, with the alert's id, rule, severity and first observation and one
  -- notification more, and it says that the alert is resolved now: none is dropped in silence, and none
  -- is announced twice.
  pub apply_rules-Reloaded :
      (new_rules : List (EngineRule V)) (now : ℕ) (e : Engine V)
      → are_valid new_rules ≡ true
      → (events : List AlertEvent) × (e' : Engine V) × (apply_rules new_rules now e
          ≡ some (events, e'))
        × Reloaded (active_names new_rules) now e.lifecycle.states (events, e'.lifecycle.states)
  unfolding apply_rules
  apply_rules-Reloaded new_rules now e valid =
      rw (apply_rules, valid)
        (_, _, refl, remove_states-Reloaded (active_names new_rules) now e.lifecycle.states)
