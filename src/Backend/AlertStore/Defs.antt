-- ===== src/Backend/AlertStore/Defs.antt =====
-- The operations of `AlertStore` up to `merge`.
use avengers_fyp_is.Common.{
  ℕ, Bool, true, false, not, ◌&&◌, ◌||◌, String, List, [], ◌∷◌, ◌++◌, Option, none, some, ltb,
  nat_beq, length, trim, string_eq, ◌==◌, if◌then◌else◌,
}
use avengers_fyp_is.Common.Dict.{Dict, lookup, contains, insert, erase}
use avengers_fyp_is.Backend.AlertStore.Records.{
  AlertDelivery, AlertEvent, Source, AlertRecord, AlertTransition, AlertStoreConfig, StoredAlert,
  InstanceAlerts,
}

abbrev pub is_active_status : String → Bool
is_active_status status = (status == "pending") || (status == "firing") || (status == "resolving")

abbrev pub default_delivery : AlertDelivery
default_delivery = record {
  status = "unknown";
  attempts = 0;
  last_attempt = none;
  correlation_id = none;
}

abbrev pub AlertStore : Type 0 → Type 0
AlertStore V = Dict String (InstanceAlerts V)

abbrev pub no_alerts : {V : Type 0} → InstanceAlerts V
no_alerts = record { active = []; resolved = []; resolved_map = [] }

-- `delivery or _DEFAULT_DELIVERY`
abbrev pub or_default : Option AlertDelivery → AlertDelivery
or_default none = default_delivery
or_default (some delivery) = delivery

-- `event.callback_delivery`, or else what the record had
abbrev pub delivery_or : AlertDelivery → Option AlertDelivery → AlertDelivery
delivery_or old none = old
delivery_or old (some delivery) = delivery

abbrev pub is_given : Option AlertDelivery → Bool
is_given none = false
is_given (some delivery) = true

-- `deque.remove`: the first occurrence goes.
abbrev pub remove : String → List String → List String
remove k [] = []
remove k (j ∷ ids) = if k == j then ids else j ∷ remove k ids

module _ {V : Type 0} where
  abbrev pub transition_from_event : AlertEvent V → AlertTransition V
  transition_from_event event = record {
    status = event.status;
    severity = event.severity;
    observed_value = event.observed_value;
    threshold = event.threshold;
    timestamp = event.last_observed;
    notification_count = event.notification_count;
    matched_condition = event.matched_condition;
  }

  abbrev pub record_from_event : AlertEvent V → Source → Bool → Option AlertDelivery → AlertRecord V
  record_from_event event source synthetic delivery = record {
    alert_id = event.alert_id;
    source = source;
    synthetic = synthetic;
    agent_id = event.agent_id;
    application = event.application;
    instance_id = event.instance_id;
    rule_name = event.rule_name;
    severity = event.severity;
    status = event.status;
    matched_condition = event.matched_condition;
    observed_value = event.observed_value;
    threshold = event.threshold;
    first_observed = event.first_observed;
    last_observed = event.last_observed;
    resolved_at = event.resolved_at;
    notification_count = event.notification_count;
    delivery = or_default delivery;
    group_by = event.group_by;
    metric_context = event.metric_context;
    runbook_url = none;
  }

  -- `instance.active.get(...)`, then `instance.resolved_map.get(...)`
  abbrev pub or_resolved : Option (StoredAlert V) → Option (StoredAlert V) → Option (StoredAlert V)
  or_resolved none s = s
  or_resolved (some s) _ = some s

  unfoldable pub find : String → InstanceAlerts V → Option (StoredAlert V)
  find alert_id i = or_resolved (lookup alert_id i.active) (lookup alert_id i.resolved_map)

  -- `_get_instance`: an instance that is not known yet has no alerts.
  abbrev pub or_no_alerts : Option (InstanceAlerts V) → InstanceAlerts V
  or_no_alerts none = no_alerts
  or_no_alerts (some i) = i

  unfoldable pub get_instance : String → AlertStore V → InstanceAlerts V
  get_instance instance_id store = or_no_alerts (lookup instance_id store)

  -- `_evict_resolved_if_needed`
  unfoldable pub evict_resolved :
      ℕ → List String → Dict String (StoredAlert V) → List String × Dict String (StoredAlert V)
  evict_resolved limit [] resolved_map = ([], resolved_map)
  evict_resolved limit (oldest ∷ resolved) resolved_map =
      let rest = evict_resolved limit resolved (erase oldest resolved_map) in
      if ltb limit (length (oldest ∷ resolved)) then rest else (oldest ∷ resolved, resolved_map)

  -- `_place_alert`, first half: the alert is taken from where it was.
  unfoldable pub take_out : String → InstanceAlerts V → InstanceAlerts V
  take_out alert_id i =
      if contains alert_id i.resolved_map
      then record {
        active = erase alert_id i.active;
        resolved = remove alert_id i.resolved;
        resolved_map = erase alert_id i.resolved_map;
      }
      else record i { active = erase alert_id i.active }

  unfoldable pub put_active : StoredAlert V → InstanceAlerts V → InstanceAlerts V
  put_active s i = record i { active = insert s.alert.alert_id s i.active }

  unfoldable pub put_resolved : ℕ → StoredAlert V → InstanceAlerts V → InstanceAlerts V
  put_resolved limit s i =
      let (resolved, resolved_map) =
        evict_resolved limit (i.resolved ++ (s.alert.alert_id ∷ []))
          (insert s.alert.alert_id s i.resolved_map) in
      record i { resolved = resolved; resolved_map = resolved_map }

module _ {V : Type 0} (config : AlertStoreConfig) where
  -- `_append_transition`
  unfoldable pub append_transition : AlertEvent V → StoredAlert V → StoredAlert V
  append_transition event s = record s {
    transitions = trim config.max_transitions (s.transitions ++ (transition_from_event event ∷ []));
  }

  unfoldable pub place_alert : StoredAlert V → Bool → InstanceAlerts V → InstanceAlerts V
  place_alert s active i =
      let i' = take_out s.alert.alert_id i in
      if active then put_active s i' else put_resolved config.recent_alert_limit s i'

  -- What `merge` makes of an alert that the instance does not have.
  unfoldable pub first_stored : AlertEvent V → Source → StoredAlert V
  first_stored event source =
      if event.status == "resolved"
      then append_transition event (record {
        alert = record_from_event event source true none;
        transitions = [];
        synthetic = true;
      })
      else append_transition event (record {
        alert = record_from_event event source false event.callback_delivery;
        transitions = [];
        synthetic = false;
      })

  -- `only_delivery`
  unfoldable pub only_delivery : AlertEvent V → StoredAlert V → Bool
  only_delivery event existing =
      is_given event.callback_delivery
      && ((event.status == existing.alert.status)
          && nat_beq event.notification_count existing.alert.notification_count)

  -- What `merge` makes of an alert that the instance has.
  unfoldable pub next_stored : AlertEvent V → Source → StoredAlert V → StoredAlert V
  next_stored event source existing =
      let delivery = delivery_or existing.alert.delivery event.callback_delivery in
      let stored : StoredAlert V = record {
        alert = record_from_event event source existing.synthetic (some delivery);
        transitions = existing.transitions;
        synthetic = existing.synthetic;
      } in
      if only_delivery event existing then stored else append_transition event stored

  -- The test for an event that would reopen a resolved alert.
  unfoldable pub is_stale : AlertEvent V → StoredAlert V → Bool
  is_stale event existing =
      (existing.alert.status == "resolved") && not (event.status == "resolved")

  unfoldable pub merge_known :
      AlertEvent V → Source → InstanceAlerts V → StoredAlert V → InstanceAlerts V
  merge_known event source i existing =
      if is_stale event existing
      then i
      else place_alert (next_stored event source existing) (is_active_status event.status) i

  unfoldable pub merge_new : AlertEvent V → Source → InstanceAlerts V → InstanceAlerts V
  merge_new event source i =
      if event.status == "resolved"
      then place_alert (first_stored event source) false i
      else place_alert (first_stored event source) (is_active_status event.status) i

  -- `merge`, under the lock of the event's instance
  unfoldable pub merge_into : AlertEvent V → Source → InstanceAlerts V → InstanceAlerts V
  merge_into event source i = elim (find event.alert_id i) [
    | none ↦ merge_new event source i
    | some existing ↦ merge_known event source i existing
  ]

  -- `merge`; its argument `now` is not used.
  unfoldable pub merge : AlertEvent V → Source → AlertStore V → AlertStore V
  merge event source store =
      insert event.instance_id (merge_into event source (get_instance event.instance_id store))
        store
