-- ===== src/Rules/Engine/Defs.antt =====
-- The state of `RuleEngine` and the methods that move an alert through its lifecycle.
use Prim.Native.String.{◌++◌ as ◌<>◌}
use avengers_fyp_is.Common.{
  ℕ, ◌+◌, Bool, true, false, not, ◌&&◌, ◌||◌, String, List, [], ◌∷◌, Option, none, some, ltb, leb,
  string_eq, ◌==◌, if◌then◌else◌,
}
use avengers_fyp_is.Common.Dict.{Dict, lookup, insert, erase}
use avengers_fyp_is.Rules.Tiers.{SeverityTier, RuleConfig}

-- `INACTIVE` is the absence of a state, and `RESOLVED` is only the status of an event.
pub data AlertStatus : Type 0 where
  inactive pending firing resolving resolved : AlertStatus

pub record AlertState : Type 0 where
  pub rule_name : String
  pub alert_id : String
  pub status : AlertStatus
  pub severity : String
  pub condition_since : ℕ
  pub first_observed : ℕ
  pub last_observed : ℕ
  pub last_notified_at : Option ℕ
  pub notification_count : ℕ

pub record Silence : Type 0 where
  pub rule_name : String
  pub instance_id : String
  pub starts_at : ℕ
  pub ends_at : ℕ

-- The fields of `AlertEvent` that the lifecycle decides.
pub record AlertEvent : Type 0 where
  pub alert_id : String
  pub rule_name : String
  pub severity : String
  pub status : AlertStatus
  pub first_observed : ℕ
  pub last_observed : ℕ
  pub resolved_at : Option ℕ
  pub notification_count : ℕ

pub record EngineConfig : Type 0 where
  pub instance_id : String
  pub renotify_interval : ℕ
  pub max_active_alerts : ℕ

pub record RuleEngine : Type 0 where
  pub states : Dict String AlertState
  pub silences : List Silence
  pub storm_active : Bool

-- `state.status in (AlertStatus.FIRING, AlertStatus.RESOLVING)`
abbrev pub is_active : AlertStatus → Bool
is_active firing = true
is_active resolving = true
is_active _ = false

unfoldable pub active_in : Dict String AlertState → ℕ
active_in [] = 0
active_in ((k, s) ∷ states) = (if is_active s.status then 1 else 0) + active_in states

abbrev pub active_alert_count : RuleEngine → ℕ
active_alert_count e = active_in e.states

abbrev pub same_text : String → String → Bool
same_text a b = a == b

abbrev pub any_silence : (Silence → Bool) → List Silence → Bool
any_silence f [] = false
any_silence f (s ∷ rest) = f s || any_silence f rest

unfoldable pub dedup_key : EngineConfig → String → String
dedup_key config rule_name = rule_name <> "::" <> config.instance_id

unfoldable pub is_silenced : EngineConfig → String → ℕ → RuleEngine → Bool
is_silenced config rule_name now e =
    any_silence
      (λ s.
        same_text s.rule_name rule_name
        && (same_text s.instance_id config.instance_id
            && (leb s.starts_at now && leb now s.ends_at)))
      e.silences

module _ {V : Type 0} (config : EngineConfig) (rule : RuleConfig V) (now : ℕ) where
  abbrev pub key_of : String
  key_of = dedup_key config rule.name

  abbrev pub store : AlertState → RuleEngine → RuleEngine
  store s e = record e { states = insert key_of s e.states }

  abbrev pub remove : RuleEngine → RuleEngine
  remove e = record e { states = erase key_of e.states }

  abbrev resolved_at : AlertStatus → Option ℕ
  resolved_at resolved = some now
  resolved_at _ = none

  abbrev pub event_of : AlertState → AlertStatus → AlertEvent
  event_of s status = record {
    alert_id = s.alert_id;
    rule_name = rule.name;
    severity = s.severity;
    status = status;
    first_observed = s.first_observed;
    last_observed = now;
    resolved_at = resolved_at status;
    notification_count = s.notification_count;
  }

  -- `_build_event`: nothing while the rule is silenced.
  unfoldable pub build_event : AlertState → AlertStatus → RuleEngine → Option AlertEvent
  build_event s status e =
      if is_silenced config rule.name now e then none else some (event_of s status)

  abbrev pub storm_event : String → AlertEvent
  storm_event fresh = record {
    alert_id = fresh;
    rule_name = "AlertStorm";
    severity = "critical";
    status = firing;
    first_observed = now;
    last_observed = now;
    resolved_at = none;
    notification_count = 1;
  }

  unfoldable pub fire :
      AlertState → SeverityTier V → String → RuleEngine → RuleEngine × Option AlertEvent
  fire s tier fresh e =
      if leb config.max_active_alerts (active_alert_count e)
      then (
        record e { storm_active = true },
        if e.storm_active then none else some (storm_event fresh),
      )
      else let s' : AlertState = record s {
        status = firing;
        severity = tier.severity;
        notification_count = 1;
        last_notified_at = some now;
      } in
        let e' = store s' (record e { storm_active = false }) in (e', build_event s' firing e')

  -- The four branches of `_transition`.
  unfoldable pub from_inactive :
      Option (SeverityTier V) → String → RuleEngine → RuleEngine × Option AlertEvent
  from_inactive none fresh e = (e, none)
  from_inactive (some tier) fresh e =
      let s : AlertState = record {
        rule_name = rule.name;
        alert_id = fresh;
        status = pending;
        severity = tier.severity;
        condition_since = now;
        first_observed = now;
        last_observed = now;
        last_notified_at = none;
        notification_count = 0;
      } in
      (store s e, none)

  unfoldable pub from_pending :
      AlertState → Option (SeverityTier V) → String → RuleEngine → RuleEngine × Option AlertEvent
  from_pending s none fresh e = (remove e, none)
  from_pending s (some tier) fresh e =
      let s' = record s { severity = tier.severity; last_observed = now } in
      let e' = store s' e in
      if ltb now (s.condition_since + rule.for_time) then (e', none) else fire s' tier fresh e'

  -- The renotification of a firing alert is due.
  abbrev pub renotify_due : AlertState → Bool
  renotify_due s = elim s.last_notified_at [
    | none ↦ false
    | some at ↦ ltb 0 config.renotify_interval && leb (at + config.renotify_interval) now
  ]

  unfoldable pub from_firing :
      AlertState → Option (SeverityTier V) → RuleEngine → RuleEngine × Option AlertEvent
  from_firing s none e = (store (record s { status = resolving; condition_since = now }) e, none)
  from_firing s (some tier) e =
      let s' = record s { last_observed = now } in
      let notified = record s' {
        severity = tier.severity;
        notification_count = s.notification_count + 1;
        last_notified_at = some now;
      } in
      if not (same_text tier.severity s.severity) || renotify_due s
      then (store notified e, build_event notified firing (store notified e))
      else (store s' e, none)

  unfoldable pub from_resolving :
      AlertState → Option (SeverityTier V) → RuleEngine → RuleEngine × Option AlertEvent
  from_resolving s (some tier) e =
      (store (record s { status = firing; severity = tier.severity; last_observed = now }) e, none)
  from_resolving s none e =
      if ltb now (s.condition_since + rule.resolve_after)
      then (e, none)
      else (remove e, build_event s resolved e)

  abbrev pub from_status :
      AlertStatus
      → AlertState
      → Option (SeverityTier V)
      → String
      → RuleEngine
      → RuleEngine × Option AlertEvent
  from_status pending s tier fresh e = from_pending s tier fresh e
  from_status firing s tier fresh e = from_firing s tier e
  from_status resolving s tier fresh e = from_resolving s tier e
  from_status _ s tier fresh e = (e, none)

  -- `_transition`
  unfoldable pub transition :
      Option (SeverityTier V) → String → RuleEngine → RuleEngine × Option AlertEvent
  transition tier fresh e = elim (lookup key_of e.states) [
    | none ↦ from_inactive tier fresh e
    | some s ↦ from_status s.status s tier fresh e
  ]
