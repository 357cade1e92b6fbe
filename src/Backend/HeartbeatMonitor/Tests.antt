-- ===== src/Backend/HeartbeatMonitor/Tests.antt =====
-- The theorems on the monitor at concrete inputs.
use Prim.Native.String.{◌++◌ as ◌<>◌}
use text.Mathlib.TextLemmas.{append_cancel_left}
use text.Mathlib.TextEquality.{eq_iff}
use avengers_fyp_is.Common.{
  ℕ, ◌≡◌, ◌+◌, ◌<◌, refl, true, false, inl, inr, String, List, [], ◌∷◌, none, some, arith, length,
  string_eq, ◌==◌, Bool-cases,
}
use avengers_fyp_is.Common.Dict.{lookup, contains}
use avengers_fyp_is.Backend.Registry.Defs.{
  Heartbeat, AgentRecord, AgentRegistry, heard, record_heartbeat, get, is_stale, heartbeat_age_ms,
  stale_agents, stale_in, all_records, sort_by_id, place_by_id,
}
use avengers_fyp_is.Backend.AlertStore.Records.{StoredAlert}
use avengers_fyp_is.Backend.AlertStore.Defs.{find, get_instance}
use avengers_fyp_is.Backend.AlertStore.Merge.{AreValid}
use avengers_fyp_is.Backend.HeartbeatMonitor.Defs.{
  Outside, MonitorConfig, HeartbeatMonitor, is_in, rule_name, instance_id_of, backend_alert_id,
  report_all, report_stale, evaluate_once, receive_heartbeat, on_heartbeat, resolve,
}
use avengers_fyp_is.Backend.HeartbeatMonitor.Events.{recovered}
use avengers_fyp_is.Backend.HeartbeatMonitor.Outage.{outage_reported}
use avengers_fyp_is.Backend.HeartbeatMonitor.Recovery.{
  heard_record, heartbeat_resolves, second_outage_hidden,
}

-- A digest without collisions, and sets that come in the order of insertion.
abbrev outside : Outside ℕ
outside = record {
  digest = λ t. t;
  as_seconds = λ n. n;
  as_text = λ n. "61";
  set_order = λ ids. ids;
}

abbrev config : MonitorConfig ℕ
config = record {
  missing_heartbeat_threshold_seconds = 60;
  alerts = record { recent_alert_limit = 500; max_transitions = 50 };
  outside = outside;
}

abbrev sent : ℕ → Heartbeat ℕ
sent at = record {
  agent_id = "a-1";
  instance_ids = "i-1" ∷ [];
  sent_at = at;
  agent_version = "1.0";
  status = "healthy";
  payload = 0;
}

abbrev last_seen : ℕ → AgentRecord ℕ
last_seen at = record { agent_id = "a-1"; first_seen_at = 0; received_at = at; heartbeat = sent 0 }

abbrev known_at : ℕ → AgentRegistry ℕ
known_at at = record { missing_threshold_seconds = 60; agents = ("a-1", last_seen at) ∷ [] }

abbrev silent : List String → HeartbeatMonitor ℕ ℕ
silent firing = record { registry = known_at 0; alert_store = []; firing = firing }

no_alerts-AreValid : AreValid {V = ℕ} config.alerts []
unfolding get_instance
no_alerts-AreValid j = record {
  separate = λ k. refl;
  listed = λ k. refl;
  bounded = omega arith;
  active_fits = λ k. tt;
  resolved_fits = λ k. tt;
}

same_agent : (a x : String) → backend_alert_id config a ≡ backend_alert_id config x → a ≡ x
unfolding backend_alert_id
same_agent a x e = append_cancel_left ":" a x (
    append_cancel_left rule_name (":" <> a) (":" <> x)
      (append_cancel_left "backend-agentheartbeatmissing-" _ _ e))

distinct :
    (x : String) (q : AgentRecord ℕ)
    → get x (known_at 0) ≡ some q
    → ("a-1" == x) ≡ false
    → (backend_alert_id config "a-1" == backend_alert_id config x) ≡ false
distinct x q there other =
    elim (Bool-cases (backend_alert_id config "a-1" == backend_alert_id config x)) [
      | inl clash ↦
          absurd (cc (other, (eq_iff "a-1" x).1 (same_agent "a-1" x ((eq_iff _ _).0 clash))))
      | inr apart ↦ apart
    ]

is_late : is_stale (known_at 0) (last_seen 0) 61000000 ≡ true
unfolding is_stale heartbeat_age_ms
is_late = refl

has_record : get "a-1" (known_at 0) ≡ some (last_seen 0)
unfolding get
has_record = refl

no_resolved :
    lookup (backend_alert_id config "a-1") (get_instance {V = ℕ} "i-1" []).resolved_map ≡ none
unfolding get_instance
no_resolved = refl

outage_reported_example :
    contains
      (backend_alert_id config "a-1")
      (get_instance "i-1" (evaluate_once config 61000000 (silent [])).alert_store).active
    ≡ true
outage_reported_example =
    outage_reported config 61000000 "a-1" (last_seen 0) (silent []) has_record refl is_late distinct
      (λ x ids. refl) no_alerts-AreValid no_resolved

heartbeat_resolves_example :
    let m' = receive_heartbeat config (sent 5) 62000000 (silent ("a-1" ∷ [])) in
    let i =
      get_instance
        (instance_id_of "a-1" (heard_record (sent 5) 62000000 (silent ("a-1" ∷ []))))
        m'.alert_store in
    (is_in "a-1" m'.firing ≡ false)
    × ((contains (backend_alert_id config "a-1") i.active ≡ false)
        × ((s : StoredAlert ℕ) × (find (backend_alert_id config "a-1") i ≡ some s)
            × (s.alert.status ≡ "resolved")))
heartbeat_resolves_example =
    heartbeat_resolves config (sent 5) 62000000 (silent ("a-1" ∷ [])) refl no_alerts-AreValid
      (omega arith)

-- The agent is heard of at 62 seconds, and silent again at 130.
few_reports :
    let m' = record (receive_heartbeat config (sent 5) 62000000 (silent ("a-1" ∷ []))) {
      registry = known_at 62000000;
    } in
    length (stale_agents (known_at 62000000) 130000000) + length (recovered config 130000000 m')
    < 500
unfolding receive_heartbeat on_heartbeat resolve get record_heartbeat heard report_all report_stale
    stale_agents stale_in all_records sort_by_id place_by_id is_stale heartbeat_age_ms
few_reports = omega arith

silent_again : is_stale (known_at 62000000) (last_seen 62000000) 130000000 ≡ true
unfolding is_stale heartbeat_age_ms
silent_again = refl

has_record_again : get "a-1" (known_at 62000000) ≡ some (last_seen 62000000)
unfolding get
has_record_again = refl

same_instance :
    instance_id_of "a-1" (last_seen 62000000)
    ≡ instance_id_of "a-1" (heard_record (sent 5) 62000000 (silent ("a-1" ∷ [])))
unfolding heard
same_instance = refl

second_outage_hidden_example :
    let m' = record (receive_heartbeat config (sent 5) 62000000 (silent ("a-1" ∷ []))) {
      registry = known_at 62000000;
    } in
    (is_in "a-1" (stale_agents (known_at 62000000) 130000000) ≡ true)
    × (contains
          (backend_alert_id config "a-1")
          (get_instance "i-1" (evaluate_once config 130000000 m').alert_store).active
        ≡ false)
second_outage_hidden_example =
    second_outage_hidden config (sent 5) 62000000 130000000 (silent ("a-1" ∷ []))
      (known_at 62000000) (last_seen 62000000) refl no_alerts-AreValid (λ ids. omega arith)
      few_reports has_record_again refl silent_again same_instance
