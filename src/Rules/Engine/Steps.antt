-- ===== src/Rules/Engine/Steps.antt =====
-- What one tick does to what is known of the condition's past.
use avengers_fyp_is.Common.{
  ℕ, ◌+◌, ◌≤◌, ◌≡◌, inl, inr, refl, sym, ap, true, false, not, ◌||◌, String, List, ◌∷◌, Option,
  none, some, leb, ltb, ltb-false, string_eq, Bool-cases, Option-cases,
}
use avengers_fyp_is.Rules.Tiers.{SeverityTier, RuleConfig}
use avengers_fyp_is.Rules.Engine.Defs.{
  AlertStatus, inactive, pending, firing, resolving, resolved, AlertState, active_alert_count,
  EngineConfig, RuleEngine, is_active, same_text, store, fire, from_inactive, from_pending,
  renotify_due, from_firing, from_resolving, from_status, transition,
}
use mathlib.Core.Path.{subst}
use avengers_fyp_is.Rules.Engine.Lifecycle.{
  Tick, Since, since_first, since_more, state_of, IsTimed, active_state, Stepped, state_of-store,
  state_of-remove, reaches, level, still,
}

module _ {V : Type 0} (config : EngineConfig) (rule : RuleConfig V) (now : ℕ) (fresh : String)
    (older : List (Tick V)) where
  abbrev tick : Option (SeverityTier V) → Tick V
  tick tier = record { now = now; tier = tier; fresh = fresh }

  from_inactive-Stepped :
      (tier : Option (SeverityTier V)) (e : RuleEngine)
      → state_of config rule e ≡ none
      → Stepped config rule
          (tick tier)
          older
          false
          (state_of config rule (from_inactive config rule now tier fresh e).0)
  unfolding from_inactive
  from_inactive-Stepped none e absent =
      reaches config rule _ older false none _ absent (level config rule _ older false none refl tt)
  from_inactive-Stepped (some tier) e absent =
      reaches config rule _ older false _ _ (state_of-store config rule now _ e)
        (level config rule _ older false _ refl (since_first _ older refl refl))

  fire-Stepped :
      (s : AlertState) (tier : SeverityTier V) (e : RuleEngine)
      → state_of config rule e ≡ some s
      → s.status ≡ pending
      → Since true s.condition_since (tick (some tier) ∷ older)
      → s.condition_since + rule.for_time ≤ now
      → Stepped config rule
          (tick (some tier))
          older
          (is_active s.status)
          (state_of config rule (fire config rule now s tier fresh e).0)
  unfolding fire
  fire-Stepped s tier e found waiting since due =
      elim (Bool-cases (leb config.max_active_alerts (active_alert_count e))) [
        | inl full ↦
            rw (fire, full)
              (reaches config rule _ older (is_active s.status) (some s) _ found (
                level config rule _ older (is_active s.status) (some s) refl
                  (still config rule pending s.status s.condition_since _ waiting since)))
        | inr room ↦
            rw (fire, room)
              (reaches config rule _ older (is_active s.status)
                (some (record s {
                  status = firing;
                  severity = tier.severity;
                  notification_count = 1;
                  last_notified_at = some now;
                }))
                _ (state_of-store config rule now _ (record e { storm_active = false }))
                (record {
                  timed = tt;
                  fires =
                      λ off on. record { t0 = s.condition_since; since = since; long_enough = due };
                  resolves = λ on off. absurd (cc (on, ap is_active waiting));
                }))
      ]

  from_pending-Stepped :
      (s : AlertState) (tier : Option (SeverityTier V)) (e : RuleEngine)
      → s.status ≡ pending
      → Since true s.condition_since older
      → Stepped config rule
          (tick tier)
          older
          (is_active s.status)
          (state_of config rule (from_pending config rule now s tier fresh e).0)
  unfolding from_pending
  from_pending-Stepped s none e waiting since =
      reaches config rule _ older (is_active s.status) none _ (state_of-remove config rule now e)
        (level config rule _ older (is_active s.status) none (ap is_active waiting) tt)
  from_pending-Stepped s (some tier) e waiting since =
      let s' = record s { severity = tier.severity; last_observed = now } in
      let e' = store config rule now s' e in
      let held = since_more (tick (some tier)) older refl since in
      elim (Bool-cases (ltb now (s.condition_since + rule.for_time))) [
        | inl early ↦
            rw (from_pending, early)
              (reaches config rule _ older (is_active s.status) (some s') _
                (state_of-store config rule now s' e)
                (level config rule _ older (is_active s.status) (some s') refl
                  (still config rule pending s.status s.condition_since _ waiting held)))
        | inr due ↦
            rw (from_pending, due)
              (fire-Stepped s' tier e' (state_of-store config rule now s' e) waiting held
                (ltb-false _ _ due))
      ]

  from_firing-Stepped :
      (s : AlertState) (tier : Option (SeverityTier V)) (e : RuleEngine)
      → s.status ≡ firing
      → Stepped config rule
          (tick tier)
          older
          (is_active s.status)
          (state_of config rule (from_firing config rule now s tier e).0)
  unfolding from_firing
  from_firing-Stepped s none e on =
      reaches config rule _ older (is_active s.status) _ _ (state_of-store config rule now _ e) (
        level config rule _ older (is_active s.status) _ (ap is_active on)
          (since_first _ older refl refl))
  from_firing-Stepped s (some tier) e on =
      elim (Bool-cases
        (not (same_text tier.severity s.severity) || renotify_due config rule now s)) [
          | inl notify ↦
              rw (from_firing, notify)
                (reaches config rule _ older (is_active s.status) _ _
                  (state_of-store config rule now _ e)
                  (level config rule _ older (is_active s.status) _ refl
                    (still config rule firing s.status s.condition_since _ on tt)))
          | inr quiet ↦
              rw (from_firing, quiet)
                (reaches config rule _ older (is_active s.status) _ _
                  (state_of-store config rule now _ e)
                  (level config rule _ older (is_active s.status) _ refl
                    (still config rule firing s.status s.condition_since _ on tt)))
        ]

  from_resolving-Stepped :
      (s : AlertState) (tier : Option (SeverityTier V)) (e : RuleEngine)
      → state_of config rule e ≡ some s
      → s.status ≡ resolving
      → Since false s.condition_since older
      → Stepped config rule
          (tick tier)
          older
          (is_active s.status)
          (state_of config rule (from_resolving config rule now s tier e).0)
  unfolding from_resolving
  from_resolving-Stepped s (some tier) e found fading since =
      reaches config rule _ older (is_active s.status) _ _ (state_of-store config rule now _ e)
        (level config rule _ older (is_active s.status) _ (ap is_active fading) tt)
  from_resolving-Stepped s none e found fading since =
      let unmet = since_more (tick none) older refl since in
      elim (Bool-cases (ltb now (s.condition_since + rule.resolve_after))) [
        | inl early ↦
            rw (from_resolving, early)
              (reaches config rule _ older (is_active s.status) (some s) _ found (
                level config rule _ older (is_active s.status) (some s) refl
                  (still config rule resolving s.status s.condition_since _ fading unmet)))
        | inr due ↦
            rw (from_resolving, due)
              (reaches config rule _ older (is_active s.status) none _
                (state_of-remove config rule now e)
                (record {
                  timed = tt;
                  fires = λ off on. absurd (cc on);
                  resolves = λ on off. record {
                    t0 = s.condition_since;
                    since = unmet;
                    long_enough = ltb-false _ _ due;
                  };
                }))
      ]

  from_status-Stepped :
      (status : AlertStatus) (s : AlertState) (tier : Option (SeverityTier V)) (e : RuleEngine)
      → state_of config rule e ≡ some s
      → s.status ≡ status
      → IsTimed config rule older (some s)
      → Stepped config rule
          (tick tier)
          older
          (is_active s.status)
          (state_of config rule (from_status config rule now status s tier fresh e).0)
  from_status-Stepped inactive s tier e found is timed =
      reaches config rule _ older (is_active s.status) (some s) _ found (
        level config rule _ older (is_active s.status) (some s) refl
          (still config rule inactive s.status s.condition_since _ is tt))
  from_status-Stepped pending s tier e found is timed =
      from_pending-Stepped s tier e is
        (still config rule s.status pending s.condition_since older (sym is) timed)
  from_status-Stepped firing s tier e found is timed = from_firing-Stepped s tier e is
  from_status-Stepped resolving s tier e found is timed =
      from_resolving-Stepped s tier e found is
        (still config rule s.status resolving s.condition_since older (sym is) timed)
  from_status-Stepped resolved s tier e found is timed =
      reaches config rule _ older (is_active s.status) (some s) _ found (
        level config rule _ older (is_active s.status) (some s) refl
          (still config rule resolved s.status s.condition_since _ is tt))

  pub transition-Stepped :
      (tier : Option (SeverityTier V)) (e : RuleEngine)
      → IsTimed config rule older (state_of config rule e)
      → Stepped config rule
          (tick tier)
          older
          (active_state config rule (state_of config rule e))
          (state_of config rule (transition config rule now tier fresh e).0)
  unfolding transition
  transition-Stepped tier e timed = elim (Option-cases (state_of config rule e)) [
    | inl absent ↦ rw (transition, absent) (from_inactive-Stepped tier e absent)
    | inr (s, found) ↦
        rw (transition, found)
          (from_status-Stepped s.status s tier e found refl
            (subst (IsTimed config rule older) found timed))
  ]
