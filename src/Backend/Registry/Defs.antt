-- ===== src/Backend/Registry/Defs.antt =====
-- The state and the methods of `AgentRegistry`.
use Prim.Native.Nat.{Ordering}
use Prim.Native.String.{compare}
use avengers_fyp_is.Common.{
  ℕ, ◌*◌, ◌-◌, ◌/◌, Bool, true, false, String, List, [], ◌∷◌, Option, none, some, ltb, leb, length,
  string_eq, if◌then◌else◌,
}
use avengers_fyp_is.Common.Dict.{Dict, lookup, contains, insert, erase}

-- The fields of `Heartbeat` that the backend's monitoring reads; `P` is the rest of the document.
pub record Heartbeat (P : Type 0) : Type 0 where
  pub agent_id : String
  pub instance_ids : List String
  pub sent_at : ℕ
  pub agent_version : String
  pub status : String
  pub payload : P

pub record AgentRecord (P : Type 0) : Type 0 where
  pub agent_id : String
  pub first_seen_at : ℕ
  pub received_at : ℕ
  pub heartbeat : Heartbeat P

pub record AgentRegistry (P : Type 0) : Type 0 where
  pub missing_threshold_seconds : ℕ
  pub agents : Dict String (AgentRecord P)

module _ {P : Type 0} where
  -- The record that `record_heartbeat` stores: the document is replaced if it is not older.
  unfoldable pub heard : Heartbeat P → ℕ → Option (AgentRecord P) → AgentRecord P
  heard heartbeat received_at none = record {
    agent_id = heartbeat.agent_id;
    first_seen_at = received_at;
    received_at = received_at;
    heartbeat = heartbeat;
  }
  heard heartbeat received_at (some existing) = record existing {
    received_at = received_at;
    heartbeat =
        if leb existing.heartbeat.sent_at heartbeat.sent_at then heartbeat else existing.heartbeat;
  }

  abbrev pub is_none : Option (AgentRecord P) → Bool
  is_none none = true
  is_none (some existing) = false

  unfoldable pub record_heartbeat : Heartbeat P → ℕ → AgentRegistry P → Bool × AgentRegistry P
  record_heartbeat heartbeat received_at g =
      let existing = lookup heartbeat.agent_id g.agents in
      (
        is_none existing,
        record g {
          agents = insert heartbeat.agent_id (heard heartbeat received_at existing) g.agents;
        },
      )

  -- `remove`, and whether the agent was known
  unfoldable pub remove : String → AgentRegistry P → Bool × AgentRegistry P
  remove agent_id g = (contains agent_id g.agents, record g { agents = erase agent_id g.agents })

  unfoldable pub get : String → AgentRegistry P → Option (AgentRecord P)
  get agent_id g = lookup agent_id g.agents

  -- `sorted(..., key=agent_id)`: in the order of the ids, and equals in their order.
  unfoldable pub place_by_id : AgentRecord P → List (AgentRecord P) → List (AgentRecord P)
  place_by_id r [] = r ∷ []
  place_by_id r (s ∷ records) =
      let rest = place_by_id r records in
      elim (compare r.agent_id s.agent_id) [ Ordering.gt ↦ s ∷ rest | _ ↦ r ∷ s ∷ records ]

  unfoldable pub sort_by_id : Dict String (AgentRecord P) → List (AgentRecord P)
  sort_by_id [] = []
  sort_by_id ((k, r) ∷ agents) = place_by_id r (sort_by_id agents)

  -- `all`
  unfoldable pub all_records : AgentRegistry P → List (AgentRecord P)
  all_records g = sort_by_id g.agents

  -- `max(0, int(seconds * 1000))` for a time in microseconds
  unfoldable pub heartbeat_age_ms : AgentRecord P → ℕ → ℕ
  heartbeat_age_ms r at = (at - r.received_at) / 1000

  unfoldable pub is_stale : AgentRegistry P → AgentRecord P → ℕ → Bool
  is_stale g r at = ltb (g.missing_threshold_seconds * 1000) (heartbeat_age_ms r at)

  unfoldable pub status_of : AgentRegistry P → AgentRecord P → ℕ → String
  status_of g r at = if is_stale g r at then "missing" else r.heartbeat.status

  unfoldable pub stale_in : AgentRegistry P → ℕ → List (AgentRecord P) → List String
  stale_in g at [] = []
  stale_in g at (r ∷ records) =
      let rest = stale_in g at records in if is_stale g r at then r.agent_id ∷ rest else rest

  unfoldable pub stale_agents : AgentRegistry P → ℕ → List String
  stale_agents g at = stale_in g at (all_records g)

  -- `__len__`
  unfoldable pub agent_count : AgentRegistry P → ℕ
  agent_count g = length g.agents
