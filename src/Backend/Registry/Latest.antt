-- ===== src/Backend/Registry/Latest.antt =====
-- What the registry keeps of a run of heartbeats.
use text.Mathlib.TextEquality.{eq_iff}
use avengers_fyp_is.Common.{
  ℕ, ◌≤◌, ◌<◌, ◌≡◌, refl, sym, ap, ◌∙◌, inl, inr, String, List, [], ◌∷◌, Option, none, some, arith,
  max, leb, leb→le, leb-false, string_eq, ◌==◌, Bool-cases, if◌then◌else◌,
}
use avengers_fyp_is.Common.Dict.{lookup, insert, lookup-insert}
use avengers_fyp_is.Backend.Registry.Defs.{
  Heartbeat, AgentRecord, AgentRegistry, heard, record_heartbeat, get,
}

-- What is to be known of an agent: when it was first and last heard of, by the backend's clock, and the
-- time that its newest document carries, by the agent's.
pub record Contact : Type 0 where
  pub first_seen : ℕ
  pub last_seen : ℕ
  pub newest_document : ℕ

abbrev pub next_contact : ℕ → ℕ → Option Contact → Contact
next_contact sent received none = record {
  first_seen = received;
  last_seen = received;
  newest_document = sent;
}
next_contact sent received (some c) = record c {
  last_seen = received;
  newest_document = max sent c.newest_document;
}

max_newer : (m n : ℕ) → m ≤ n → n ≡ max n m
max_newer m n h = omega arith

max_older : (m n : ℕ) → n < m → m ≡ max n m
max_older m n h = omega arith

same_contact :
    (first last m n : ℕ)
    → m ≡ n
    → let c : Contact = record { first_seen = first; last_seen = last; newest_document = m } in
      some c ≡ some (record c { newest_document = n })
same_contact first last m n e =
    let dated : ℕ → Contact =
      λ k. record { first_seen = first; last_seen = last; newest_document = k } in
    ap (λ k. some (dated k)) e

module _ {P : Type 0} where
  abbrev pub contact_of : Option (AgentRecord P) → Option Contact
  contact_of none = none
  contact_of (some r) = some (record {
    first_seen = r.first_seen_at;
    last_seen = r.received_at;
    newest_document = r.heartbeat.sent_at;
  })

  -- The heartbeats in the order of their arrival, each with the backend's time.
  abbrev pub run_heartbeats : List (Heartbeat P × ℕ) → AgentRegistry P → AgentRegistry P
  run_heartbeats [] g = g
  run_heartbeats ((heartbeat, at) ∷ later) g =
      run_heartbeats later (record_heartbeat heartbeat at g).1

  -- The same run as one agent's contacts.
  abbrev pub run_contacts : String → List (Heartbeat P × ℕ) → Option Contact → Option Contact
  run_contacts a [] c = c
  run_contacts a ((heartbeat, at) ∷ later) c =
      if a == heartbeat.agent_id
      then run_contacts a later (some (next_contact heartbeat.sent_at at c))
      else run_contacts a later c

  heard-contact :
      (heartbeat : Heartbeat P) (at : ℕ) (existing : Option (AgentRecord P))
      → contact_of (some (heard heartbeat at existing))
        ≡ some (next_contact heartbeat.sent_at at (contact_of existing))
  unfolding heard
  heard-contact heartbeat at none = refl
  heard-contact heartbeat at (some r) =
      elim (Bool-cases (leb r.heartbeat.sent_at heartbeat.sent_at)) [
        | inl newer ↦ rw (heard, newer) (same_contact _ _ _ _ (max_newer _ _ (leb→le _ _ newer)))
        | inr older ↦ rw (heard, older) (same_contact _ _ _ _ (max_older _ _ (leb-false _ _ older)))
      ]

  -- The times that the registry keeps of an agent are those that a look at its heartbeats alone tells.
  pub run_heartbeats-contacts :
      (a : String) (heartbeats : List (Heartbeat P × ℕ)) (g : AgentRegistry P)
      → contact_of (get a (run_heartbeats heartbeats g))
        ≡ run_contacts a heartbeats (contact_of (get a g))
  unfolding record_heartbeat get
  run_heartbeats-contacts a [] g = refl
  run_heartbeats-contacts a ((heartbeat, at) ∷ later) g =
      let k = heartbeat.agent_id in
      let r = heard heartbeat at (lookup k g.agents) in
      let rest = run_heartbeats-contacts a later (record_heartbeat heartbeat at g).1 in
      let e = lookup-insert a k r g.agents in
      elim (Bool-cases (a == k)) [
        | inl same ↦
            let own : lookup k g.agents ≡ lookup a g.agents =
              ap (λ j. lookup j g.agents) (sym ((eq_iff a k).0 same)) in
            let stored : lookup a (insert k r g.agents) ≡ some r = e ∙ rw same refl in
            rw same (
              rest
              ∙ ap (run_contacts a later) (
                  ap contact_of stored
                  ∙ heard-contact heartbeat at (lookup k g.agents)
                  ∙ ap (λ o. some (next_contact heartbeat.sent_at at (contact_of o))) own))
        | inr other ↦
            let stored : lookup a (insert k r g.agents) ≡ lookup a g.agents = e ∙ rw other refl in
            rw other (rest ∙ ap (run_contacts a later) (ap contact_of stored))
      ]
