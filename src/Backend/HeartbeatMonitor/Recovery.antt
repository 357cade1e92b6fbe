-- ===== src/Backend/HeartbeatMonitor/Recovery.antt =====
-- An agent that comes back has its alert resolved, and an agent that goes silent once more has none.
use avengers_fyp_is.Common.{
  ℕ, ◌+◌, ◌≤◌, ◌<◌, ◌≡◌, refl, ap, ◌∙◌, Bool, true, false, String, List, [], ◌∷◌, Option, none,
  some, arith, length, occurrences, string_eq,
}
use avengers_fyp_is.Common.Dict.{lookup, contains, lookup-insert}
use avengers_fyp_is.Backend.Registry.Defs.{
  Heartbeat, AgentRecord, AgentRegistry, heard, record_heartbeat, get, heartbeat_age_ms, is_stale,
  stale_agents,
}
use avengers_fyp_is.Backend.Registry.Stale.{stale_agents-reports}
use avengers_fyp_is.Backend.AlertStore.Records.{AlertEvent, backend, StoredAlert}
use avengers_fyp_is.Backend.AlertStore.Defs.{AlertStore, find, get_instance, merge}
use avengers_fyp_is.Backend.AlertStore.History.{same_id}
use avengers_fyp_is.Backend.AlertStore.Merge.{AreValid}
use avengers_fyp_is.Backend.AlertStore.Runs.{run_merges, resolved_stays}
use avengers_fyp_is.Backend.HeartbeatMonitor.Defs.{
  MonitorConfig, HeartbeatMonitor, is_in, discard, instance_id_of, backend_alert_id,
  build_resolved_event, resolve, evaluate_once, on_heartbeat, receive_heartbeat,
}
use avengers_fyp_is.Backend.HeartbeatMonitor.Events.{
  recovered, evaluation, evaluate_once-merges, length-evaluation,
}

occurrences-discard : (k : String) (ids : List String) → occurrences k (discard k ids) ≡ 0
occurrences-discard k [] = refl
occurrences-discard k (j ∷ ids) = ground (arith, occurrences-discard k ids)

module _ {P V : Type 0} where
  -- The record of the agent that has just sent a heartbeat.
  abbrev pub heard_record : Heartbeat P → ℕ → HeartbeatMonitor P V → AgentRecord P
  heard_record heartbeat now m = heard heartbeat now (lookup heartbeat.agent_id m.registry.agents)

module _ {P V : Type 0} (config : MonitorConfig V) where
  abbrev pub resolution : Heartbeat P → ℕ → HeartbeatMonitor P V → AlertEvent V
  resolution heartbeat now m =
      let a = heartbeat.agent_id in
      build_resolved_event config a (instance_id_of a (heard_record heartbeat now m)) now

  received_now :
      (heartbeat : Heartbeat P) (now : ℕ) (o : Option (AgentRecord P))
      → (heard heartbeat now o).received_at ≡ now
  unfolding heard
  received_now heartbeat now none = refl
  received_now heartbeat now (some r) = refl

  just_heard :
      (g : AgentRegistry P) (r : AgentRecord P) (now : ℕ)
      → r.received_at ≡ now
      → is_stale g r now ≡ false
  unfolding is_stale heartbeat_age_ms
  just_heard g r now h = ground (arith, h)

  receive_heartbeat-resolves :
      (heartbeat : Heartbeat P) (now : ℕ) (m : HeartbeatMonitor P V)
      → is_in heartbeat.agent_id m.firing ≡ true
      → let m' = receive_heartbeat config heartbeat now m in
        (m'.alert_store ≡ merge config.alerts (resolution heartbeat now m) backend m.alert_store)
        × (is_in heartbeat.agent_id m'.firing ≡ false)
  unfolding receive_heartbeat on_heartbeat resolve get record_heartbeat
  receive_heartbeat-resolves heartbeat now m firing =
      let a = heartbeat.agent_id in
      let g = (record_heartbeat heartbeat now m.registry).1 in
      let r = heard_record heartbeat now m in
      let known : lookup a g.agents ≡ some r =
        lookup-insert a a r m.registry.agents ∙ rw (same_id a) refl in
      let fresh = just_heard g r now (received_now heartbeat now (lookup a m.registry.agents)) in
      rw (receive_heartbeat, on_heartbeat, firing, get, known, fresh, resolve)
        (refl, rw (occurrences-discard a m.firing) refl)

  -- If the monitor reports an agent as silent and the store is well formed and has room for a resolved
  -- alert, then after a heartbeat of the agent, whatever time it carries, the monitor no longer reports the
  -- agent, and among the alerts of the instance that the agent's record names after the heartbeat, the
  -- agent's alert is resolved and not active. Of an alert in an instance that the record named before, if
  -- that was another one, nothing is said.
  pub heartbeat_resolves :
      (heartbeat : Heartbeat P) (now : ℕ) (m : HeartbeatMonitor P V)
      → is_in heartbeat.agent_id m.firing ≡ true
      → AreValid config.alerts m.alert_store
      → 1 ≤ config.alerts.recent_alert_limit
      → let m' = receive_heartbeat config heartbeat now m in
        let a = heartbeat.agent_id in
        let i = get_instance (instance_id_of a (heard_record heartbeat now m)) m'.alert_store in
        (is_in a m'.firing ≡ false)
        × ((contains (backend_alert_id config a) i.active ≡ false)
            × ((s : StoredAlert V) × (find (backend_alert_id config a) i ≡ some s)
                × (s.alert.status ≡ "resolved")))
  unfolding build_resolved_event
  heartbeat_resolves heartbeat now m firing valid room =
      let r = receive_heartbeat-resolves heartbeat now m firing in
      (
        r.1,
        rw r.0 (
            resolved_stays config.alerts (resolution heartbeat now m) backend [] m.alert_store valid
              refl room),
      )

  -- If the monitor reports an agent as silent, the agent then sends a heartbeat and is past the threshold
  -- once more, with a record that names the same instance as after the heartbeat, then `stale_agents`
  -- lists it, but an evaluation that reports fewer agents than `recent_alert_limit` does not make its alert
  -- active again: it is not among the active alerts of that instance, whatever else the registry holds by
  -- then.
  pub second_outage_hidden :
      (heartbeat : Heartbeat P) (now later : ℕ) (m : HeartbeatMonitor P V) (g : AgentRegistry P)
      (r : AgentRecord P)
      → is_in heartbeat.agent_id m.firing ≡ true
      → AreValid config.alerts m.alert_store
      → ((ids : List String) → length (config.outside.set_order ids) ≤ length ids)
      → let m' = record (receive_heartbeat config heartbeat now m) { registry = g } in
        length (stale_agents g later) + length (recovered config later m')
          < config.alerts.recent_alert_limit
        → get heartbeat.agent_id g ≡ some r
        → r.agent_id ≡ heartbeat.agent_id
        → is_stale g r later ≡ true
        → let a = heartbeat.agent_id in
          instance_id_of a r ≡ instance_id_of a (heard_record heartbeat now m)
          → (is_in a (stale_agents g later) ≡ true)
            × (contains
                  (backend_alert_id config a)
                  (get_instance
                    (instance_id_of a r)
                    (evaluate_once config later m').alert_store).active
                ≡ false)
  unfolding build_resolved_event
  second_outage_hidden heartbeat now later m g again firing valid order few known own late place =
      let r = receive_heartbeat-resolves heartbeat now m firing in
      let m' : HeartbeatMonitor P V = record (receive_heartbeat config heartbeat now m) {
        registry = g;
      } in
      let events = evaluation config later m' in
      let count = length-evaluation config later m' order in
      let stays =
        resolved_stays config.alerts (resolution heartbeat now m) backend events m.alert_store valid
          refl (omega (arith, count, few)) in
      let a = heartbeat.agent_id in
      let shown : AlertStore V → Bool = λ store.
        contains (backend_alert_id config a)
          (get_instance (instance_id_of a (heard_record heartbeat now m)) store).active in
      (
        ground (arith, stale_agents-reports g later a again known own late),
        rw place (
            ap shown (evaluate_once-merges config later m')
            ∙ ap (λ store. shown (run_merges config.alerts events store)) r.0
            ∙ stays.0),
      )
