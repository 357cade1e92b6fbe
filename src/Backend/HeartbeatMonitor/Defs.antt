-- ===== src/Backend/HeartbeatMonitor/Defs.antt =====
-- The state and the methods of `HeartbeatMonitor`. A method reads the clock once; the code reads it again
-- for each event.
use Prim.Native.String.{◌++◌ as ◌<>◌}
use avengers_fyp_is.Common.{
  ℕ, ◌*◌, ◌-◌, Bool, false, String, List, [], ◌∷◌, Option, none, some, ltb, occurrences, string_eq,
  ◌==◌, if◌then◌else◌,
}
use avengers_fyp_is.Backend.Registry.Defs.{
  Heartbeat, AgentRecord, AgentRegistry, record_heartbeat, get, is_stale, stale_agents,
}
use avengers_fyp_is.Backend.AlertStore.Records.{AlertEvent, backend, AlertStoreConfig}
use avengers_fyp_is.Backend.AlertStore.Defs.{AlertStore, merge}

-- What the code takes from elsewhere: the first 16 digits of the SHA-256 of a text, a number of
-- microseconds as a float of seconds and as text without decimals, and the order in which the elements
-- of a set come.
pub record Outside (V : Type 0) : Type 0 where
  pub digest : String → String
  pub as_seconds : ℕ → V
  pub as_text : ℕ → String
  pub set_order : List String → List String

pub record MonitorConfig (V : Type 0) : Type 0 where
  pub missing_heartbeat_threshold_seconds : ℕ
  pub alerts : AlertStoreConfig
  pub outside : Outside V

-- The monitor's own state is `firing`; the registry and the store are shared with the rest of the
-- backend.
pub record HeartbeatMonitor (P V : Type 0) : Type 0 where
  pub registry : AgentRegistry P
  pub alert_store : AlertStore V
  pub firing : List String

abbrev pub is_in : String → List String → Bool
is_in k ids = ltb 0 (occurrences k ids)

-- `set.add`, `set.discard` and the difference of two sets
abbrev pub add : String → List String → List String
add k ids = if is_in k ids then ids else k ∷ ids

abbrev pub discard : String → List String → List String
discard k [] = []
discard k (j ∷ ids) = let rest = discard k ids in if k == j then rest else j ∷ rest

abbrev pub minus : List String → List String → List String
minus [] gone = []
minus (k ∷ ids) gone = let rest = minus ids gone in if is_in k gone then rest else k ∷ rest

abbrev pub first_or : String → List String → String
first_or agent_id [] = agent_id
first_or agent_id (k ∷ ids) = k

abbrev pub rule_name : String
rule_name = "AgentHeartbeatMissing"

abbrev pub default_application : String
default_application = "Magic"

module _ {P : Type 0} where
  -- `_instance_id`
  abbrev pub instance_id_of : String → AgentRecord P → String
  instance_id_of agent_id r = first_or agent_id r.heartbeat.instance_ids

module _ {V : Type 0} (config : MonitorConfig V) where
  unfoldable pub backend_alert_id : String → String
  backend_alert_id agent_id =
      "backend-agentheartbeatmissing-" <> config.outside.digest (rule_name <> ":" <> agent_id)

  abbrev pub threshold : ℕ
  threshold = config.missing_heartbeat_threshold_seconds * 1000000

  unfoldable pub build_firing_event : String → String → ℕ → ℕ → AlertEvent V
  build_firing_event agent_id instance_id age now = record {
    alert_id = backend_alert_id agent_id;
    rule_name = rule_name;
    severity = "critical";
    status = "firing";
    application = default_application;
    instance_id = instance_id;
    agent_id = agent_id;
    matched_condition =
        "no heartbeat for "
        <> config.outside.as_text age
        <> "s (threshold "
        <> config.outside.as_text threshold
        <> "s)";
    observed_value = some (config.outside.as_seconds age);
    threshold = config.outside.as_seconds threshold;
    first_observed = now;
    last_observed = now;
    resolved_at = none;
    group_by = [];
    metric_context = [];
    notification_count = 1;
    callback_delivery = none;
  }

  unfoldable pub build_resolved_event : String → String → ℕ → AlertEvent V
  build_resolved_event agent_id instance_id now = record {
    alert_id = backend_alert_id agent_id;
    rule_name = rule_name;
    severity = "critical";
    status = "resolved";
    application = default_application;
    instance_id = instance_id;
    agent_id = agent_id;
    matched_condition =
        "heartbeat restored within " <> config.outside.as_text threshold <> "s threshold";
    observed_value = some (config.outside.as_seconds 0);
    threshold = config.outside.as_seconds threshold;
    first_observed = now;
    last_observed = now;
    resolved_at = some now;
    group_by = [];
    metric_context = [];
    notification_count = 1;
    callback_delivery = none;
  }

module _ {P V : Type 0} (config : MonitorConfig V) where
  -- The body of the first loop of `evaluate_once`.
  unfoldable pub report_stale : ℕ → String → HeartbeatMonitor P V → HeartbeatMonitor P V
  report_stale now agent_id m = elim (get agent_id m.registry) [
    | none ↦ m
    | some r ↦ record m {
      alert_store =
          merge config.alerts
            (build_firing_event config agent_id (instance_id_of agent_id r) (now - r.received_at)
              now)
            backend m.alert_store;
      firing = add agent_id m.firing;
    }
  ]

  unfoldable pub report_all : ℕ → List String → HeartbeatMonitor P V → HeartbeatMonitor P V
  report_all now [] m = m
  report_all now (agent_id ∷ ids) m = report_all now ids (report_stale now agent_id m)

  -- The body of the second loop, and the end of `on_heartbeat`.
  unfoldable pub resolve : ℕ → String → HeartbeatMonitor P V → HeartbeatMonitor P V
  resolve now agent_id m = elim (get agent_id m.registry) [
    | none ↦ record m { firing = discard agent_id m.firing }
    | some r ↦ record m {
      alert_store =
          merge config.alerts (build_resolved_event config agent_id (instance_id_of agent_id r) now)
            backend m.alert_store;
      firing = discard agent_id m.firing;
    }
  ]

  unfoldable pub resolve_all : ℕ → List String → HeartbeatMonitor P V → HeartbeatMonitor P V
  resolve_all now [] m = m
  resolve_all now (agent_id ∷ ids) m = resolve_all now ids (resolve now agent_id m)

  -- One step: the code runs in a thread and takes no lock of its own, but an interleaving with the heartbeats
  -- that arrive meanwhile is not modelled.
  unfoldable pub evaluate_once : ℕ → HeartbeatMonitor P V → HeartbeatMonitor P V
  evaluate_once now m =
      let stale = stale_agents m.registry now in
      let m' = report_all now (config.outside.set_order stale) m in
      resolve_all now (config.outside.set_order (minus m'.firing stale)) m'

  abbrev pub is_late : ℕ → HeartbeatMonitor P V → Option (AgentRecord P) → Bool
  is_late now m none = false
  is_late now m (some r) = is_stale m.registry r now

  -- `on_heartbeat`: an agent that is unknown by now is only forgotten.
  unfoldable pub on_heartbeat : ℕ → String → HeartbeatMonitor P V → HeartbeatMonitor P V
  on_heartbeat now agent_id m =
      if is_in agent_id m.firing
      then if is_late now m (get agent_id m.registry) then m else resolve now agent_id m
      else m

  -- What the heartbeat endpoint does once the document is queued: the registry and the monitor hear of it
  -- at one reading of the clock.
  unfoldable pub receive_heartbeat : Heartbeat P → ℕ → HeartbeatMonitor P V → HeartbeatMonitor P V
  receive_heartbeat heartbeat now m =
      on_heartbeat now heartbeat.agent_id
        (record m { registry = (record_heartbeat heartbeat now m.registry).1 })
