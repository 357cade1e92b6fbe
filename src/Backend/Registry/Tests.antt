-- ===== src/Backend/Registry/Tests.antt =====
-- The theorems on the registry at concrete inputs.
use avengers_fyp_is.Common.{ℕ, ◌≡◌, refl, String, List, [], ◌∷◌, some, string_eq}
use avengers_fyp_is.Backend.Registry.Defs.{
  Heartbeat, AgentRegistry, heard, record_heartbeat, get, is_stale, heartbeat_age_ms, stale_agents,
  stale_in, all_records, sort_by_id, place_by_id,
}
use avengers_fyp_is.Backend.Registry.Latest.{contact_of, run_heartbeats, run_contacts}
use avengers_fyp_is.Backend.Registry.Newest.{
  KeepsNewest, documents_of, kept_before, run_heartbeats-KeepsNewest,
}

abbrev nobody : AgentRegistry ℕ
nobody = record { missing_threshold_seconds = 60; agents = [] }

abbrev sent : String → ℕ → Heartbeat ℕ
sent agent_id at = record {
  agent_id = agent_id;
  instance_ids = "i-1" ∷ [];
  sent_at = at;
  agent_version = "1.0";
  status = "healthy";
  payload = 0;
}

-- The second heartbeat of the first agent is delivered late: its document is the older one.
abbrev heartbeats : List (Heartbeat ℕ × ℕ)
heartbeats = (sent "a-1" 5, 10) ∷ (sent "a-2" 6, 11) ∷ (sent "a-1" 4, 12) ∷ []

run_heartbeats-KeepsNewest_example :
    KeepsNewest
      (documents_of "a-1" heartbeats (kept_before (get "a-1" nobody)))
      (get "a-1" (run_heartbeats heartbeats nobody))
    × (contact_of (get "a-1" (run_heartbeats heartbeats nobody))
        ≡ run_contacts "a-1" heartbeats (contact_of (get "a-1" nobody)))
run_heartbeats-KeepsNewest_example = run_heartbeats-KeepsNewest "a-1" heartbeats nobody

late_document :
    contact_of (get "a-1" (run_heartbeats heartbeats nobody))
    ≡ some (record { first_seen = 10; last_seen = 12; newest_document = 5 })
unfolding get record_heartbeat heard
late_document = refl

-- 60 seconds of silence are not too many yet.
both_stale : stale_agents (run_heartbeats heartbeats nobody) 60001012 ≡ "a-1" ∷ "a-2" ∷ []
unfolding stale_agents stale_in all_records sort_by_id place_by_id is_stale heartbeat_age_ms
    record_heartbeat heard
both_stale = refl

none_stale : stale_agents (run_heartbeats heartbeats nobody) 60000011 ≡ []
unfolding stale_agents stale_in all_records sort_by_id place_by_id is_stale heartbeat_age_ms
    record_heartbeat heard
none_stale = refl
