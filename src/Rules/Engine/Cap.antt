-- ===== src/Rules/Engine/Cap.antt =====
-- The limit on active alerts.
use avengers_fyp_is.Common.{
  ℕ, ◌+◌, ◌≤◌, ◌≡◌, inl, inr, refl, ap, not, ◌||◌, String, [], ◌∷◌, Option, none, some, arith, leb,
  ltb, leb-false, string_eq, ◌==◌, Bool-cases, Option-cases, if◌then◌else◌,
}
use avengers_fyp_is.Common.Dict.{Dict, lookup, insert, erase}
use avengers_fyp_is.Rules.Tiers.{SeverityTier, RuleConfig}
use avengers_fyp_is.Rules.Engine.Defs.{
  AlertStatus, inactive, pending, firing, resolving, resolved, AlertState, EngineConfig, RuleEngine,
  is_active, active_in, active_alert_count, same_text, key_of, store, fire, from_inactive,
  from_pending, renotify_due, from_firing, from_resolving, from_status, transition,
}

abbrev weight : AlertStatus → ℕ
weight s = if is_active s then 1 else 0

abbrev weight_in : Option AlertState → ℕ
weight_in none = 0
weight_in (some s) = weight s.status

active_in-insert :
    (k : String) (s : AlertState) (d : Dict String AlertState)
    → active_in (insert k s d) ≤ active_in d + weight s.status
unfolding active_in
active_in-insert k s [] = ground arith
active_in-insert k s ((j, old) ∷ d) = elim (Bool-cases (k == j)) [
  | inl same ↦ rw same (omega arith)
  | inr other ↦ rw other (omega (arith, active_in-insert k s d))
]

active_in-update :
    (k : String) (s old : AlertState) (d : Dict String AlertState)
    → lookup k d ≡ some old
    → active_in (insert k s d) + weight old.status ≡ active_in d + weight s.status
unfolding active_in
active_in-update k s old [] h = cc h
active_in-update k s old ((j, other) ∷ d) h = elim (Bool-cases (k == j)) [
  | inl same ↦
      let e : some other ≡ some old = rw same at h in rw same (omega (arith, ap weight_in e))
  | inr apart ↦ rw apart (omega (arith, active_in-update k s old d (rw apart at h)))
]

active_in-erase : (k : String) (d : Dict String AlertState) → active_in (erase k d) ≤ active_in d
unfolding active_in
active_in-erase k [] = omega arith
active_in-erase k ((j, s) ∷ d) = elim (Bool-cases (k == j)) [
  | inl same ↦ rw same (omega (arith, active_in-erase k d))
  | inr other ↦ rw other (omega (arith, active_in-erase k d))
]

abbrev pub IsCapped : EngineConfig → RuleEngine → Type 0
IsCapped config e = active_alert_count e ≤ config.max_active_alerts

module _ {V : Type 0} (config : EngineConfig) (rule : RuleConfig V) (now : ℕ) where
  abbrev key : String
  key = key_of config rule now

  fire-IsCapped :
      (s : AlertState) (tier : SeverityTier V) (fresh : String) (e : RuleEngine)
      → IsCapped config e
      → IsCapped config (fire config rule now s tier fresh e).0
  unfolding fire
  fire-IsCapped s tier fresh e h =
      elim (Bool-cases (leb config.max_active_alerts (active_alert_count e))) [
        | inl full ↦ rw (fire, full) h
        | inr room ↦
            rw (fire, room)
              (omega (
                arith,
                active_in-insert key
                    (record s {
                      status = firing;
                      severity = tier.severity;
                      notification_count = 1;
                      last_notified_at = some now;
                    })
                    e.states,
                leb-false config.max_active_alerts (active_alert_count e) room,
              ))
      ]

  from_inactive-IsCapped :
      (tier : Option (SeverityTier V)) (fresh : String) (e : RuleEngine)
      → IsCapped config e
      → IsCapped config (from_inactive config rule now tier fresh e).0
  unfolding from_inactive
  from_inactive-IsCapped none fresh e h = h
  from_inactive-IsCapped (some tier) fresh e h = omega (arith, active_in-insert key _ e.states)

  from_pending-IsCapped :
      (s : AlertState) (tier : Option (SeverityTier V)) (fresh : String) (e : RuleEngine)
      → s.status ≡ pending
      → IsCapped config e
      → IsCapped config (from_pending config rule now s tier fresh e).0
  unfolding from_pending
  from_pending-IsCapped s none fresh e waiting h = omega (arith, active_in-erase key e.states)
  from_pending-IsCapped s (some tier) fresh e waiting h =
      let s' = record s { severity = tier.severity; last_observed = now } in
      let e' = store config rule now s' e in
      let capped : IsCapped config e' =
        omega (arith, active_in-insert key s' e.states, ap weight waiting) in
      elim (Bool-cases (ltb now (s.condition_since + rule.for_time))) [
        | inl early ↦ rw (from_pending, early) capped
        | inr due ↦ rw (from_pending, due) (fire-IsCapped s' tier fresh e' capped)
      ]

  -- Storing another state of an active alert does not change their number.
  store-IsCapped :
      (s' s : AlertState) (e : RuleEngine)
      → lookup key e.states ≡ some s
      → weight s.status ≡ 1
      → weight s'.status ≡ 1
      → IsCapped config e
      → IsCapped config (store config rule now s' e)
  store-IsCapped s' s e found active active' h =
      omega (arith, active_in-update key s' s e.states found)

  from_firing-IsCapped :
      (s : AlertState) (tier : Option (SeverityTier V)) (e : RuleEngine)
      → lookup key e.states ≡ some s
      → s.status ≡ firing
      → IsCapped config e
      → IsCapped config (from_firing config rule now s tier e).0
  unfolding from_firing
  from_firing-IsCapped s none e found on h = store-IsCapped _ s e found (ap weight on) refl h
  from_firing-IsCapped s (some tier) e found on h =
      elim (Bool-cases
        (not (same_text tier.severity s.severity) || renotify_due config rule now s)) [
          | inl notify ↦
              rw (from_firing, notify) (store-IsCapped _ s e found (ap weight on) (ap weight on) h)
          | inr quiet ↦
              rw (from_firing, quiet) (store-IsCapped _ s e found (ap weight on) (ap weight on) h)
        ]

  from_resolving-IsCapped :
      (s : AlertState) (tier : Option (SeverityTier V)) (e : RuleEngine)
      → lookup key e.states ≡ some s
      → s.status ≡ resolving
      → IsCapped config e
      → IsCapped config (from_resolving config rule now s tier e).0
  unfolding from_resolving
  from_resolving-IsCapped s (some tier) e found fading h =
      store-IsCapped _ s e found (ap weight fading) refl h
  from_resolving-IsCapped s none e found fading h =
      elim (Bool-cases (ltb now (s.condition_since + rule.resolve_after))) [
        | inl early ↦ rw (from_resolving, early) h
        | inr due ↦ rw (from_resolving, due) (omega (arith, active_in-erase key e.states))
      ]

  from_status-IsCapped :
      (status : AlertStatus) (s : AlertState) (tier : Option (SeverityTier V)) (fresh : String)
      (e : RuleEngine)
      → lookup key e.states ≡ some s
      → s.status ≡ status
      → IsCapped config e
      → IsCapped config (from_status config rule now status s tier fresh e).0
  from_status-IsCapped inactive s tier fresh e found is h = h
  from_status-IsCapped pending s tier fresh e found is h = from_pending-IsCapped s tier fresh e is h
  from_status-IsCapped firing s tier fresh e found is h = from_firing-IsCapped s tier e found is h
  from_status-IsCapped resolving s tier fresh e found is h =
      from_resolving-IsCapped s tier e found is h
  from_status-IsCapped resolved s tier fresh e found is h = h

  -- A transition of any rule leaves at most `max_active_alerts` alerts firing or resolving, if there
  -- were not more before.
  pub transition-IsCapped :
      (tier : Option (SeverityTier V)) (fresh : String) (e : RuleEngine)
      → IsCapped config e
      → IsCapped config (transition config rule now tier fresh e).0
  unfolding transition
  transition-IsCapped tier fresh e h = elim (Option-cases (lookup key e.states)) [
    | inl absent ↦ rw (transition, absent) (from_inactive-IsCapped tier fresh e h)
    | inr (s, found) ↦
        rw (transition, found) (from_status-IsCapped s.status s tier fresh e found refl h)
  ]
