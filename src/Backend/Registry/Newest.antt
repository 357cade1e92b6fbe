-- ===== src/Backend/Registry/Newest.antt =====
-- Which document the registry keeps of an agent.
use mathlib.Core.Path.{subst}
use text.Mathlib.TextEquality.{eq_iff}
use avengers_fyp_is.Common.{
  ℕ, ◌≤◌, ◌<◌, ◌≡◌, refl, sym, ap, ◌∙◌, inl, inr, String, List, [], ◌∷◌, ◌++◌, Option, none, some,
  arith, leb, leb→le, leb-false, string_eq, ◌==◌, All, Bool-cases, if◌then◌else◌,
}
use avengers_fyp_is.Common.Dict.{lookup, insert, lookup-insert}
use avengers_fyp_is.Backend.Registry.Defs.{
  Heartbeat, AgentRecord, AgentRegistry, heard, record_heartbeat, get,
}
use avengers_fyp_is.Backend.Registry.Latest.{
  contact_of, run_heartbeats, run_contacts, run_heartbeats-contacts,
}

module _ {P : Type 0} where
  -- Of documents, the latest to arrive first: none was sent after the document, and of those that arrived
  -- after it each was sent before.
  pub record IsNewest (d : Heartbeat P) (documents : List (Heartbeat P)) : Type 0 where
    pub after : List (Heartbeat P)
    pub before : List (Heartbeat P)
    pub split : documents ≡ after ++ (d ∷ before)
    pub after_older : All (λ (x : Heartbeat P). x.sent_at < d.sent_at) after
    pub before_not_newer : All (λ (x : Heartbeat P). x.sent_at ≤ d.sent_at) before

  -- The agent is unknown if it sent none, and otherwise has the newest.
  abbrev pub KeepsNewest : List (Heartbeat P) → Option (AgentRecord P) → Type 0
  KeepsNewest documents none = documents ≡ []
  KeepsNewest documents (some r) = IsNewest r.heartbeat documents

  -- The document that is there already.
  abbrev pub kept_before : Option (AgentRecord P) → List (Heartbeat P)
  kept_before none = []
  kept_before (some r) = r.heartbeat ∷ []

  -- The agent's documents, the latest to arrive first, in front of those that were there.
  abbrev pub documents_of :
      String → List (Heartbeat P × ℕ) → List (Heartbeat P) → List (Heartbeat P)
  documents_of a [] documents = documents
  documents_of a ((heartbeat, at) ∷ later) documents =
      if a == heartbeat.agent_id
      then documents_of a later (heartbeat ∷ documents)
      else documents_of a later documents

  not_newer :
      (m n : ℕ) (xs : List (Heartbeat P))
      → m ≤ n
      → All (λ (x : Heartbeat P). x.sent_at ≤ m) xs
      → All (λ (x : Heartbeat P). x.sent_at ≤ n) xs
  not_newer m n [] h a = tt
  not_newer m n (x ∷ xs) h a = (omega (arith, a.0), not_newer m n xs h a.1)

  not_older :
      (m : ℕ) (xs : List (Heartbeat P))
      → All (λ (x : Heartbeat P). x.sent_at < m) xs
      → All (λ (x : Heartbeat P). x.sent_at ≤ m) xs
  not_older m [] a = tt
  not_older m (x ∷ xs) a = (omega (arith, a.0), not_older m xs a.1)

  All-append :
      (m : ℕ) (xs ys : List (Heartbeat P))
      → All (λ (x : Heartbeat P). x.sent_at ≤ m) xs
      → All (λ (x : Heartbeat P). x.sent_at ≤ m) ys
      → All (λ (x : Heartbeat P). x.sent_at ≤ m) (xs ++ ys)
  All-append m [] ys a b = b
  All-append m (x ∷ xs) ys a b = (a.0, All-append m xs ys a.1 b)

  heard-IsNewest :
      (d : Heartbeat P) (at : ℕ) (documents : List (Heartbeat P)) (o : Option (AgentRecord P))
      → KeepsNewest documents o
      → IsNewest (heard d at o).heartbeat (d ∷ documents)
  unfolding heard
  heard-IsNewest d at documents none h = record {
    after = [];
    before = [];
    split = ap (λ l. d ∷ l) h;
    after_older = tt;
    before_not_newer = tt;
  }
  heard-IsNewest d at documents (some r) h = elim (Bool-cases (leb r.heartbeat.sent_at d.sent_at)) [
    | inl newer ↦
        let m = r.heartbeat.sent_at in
        let le = leb→le m d.sent_at newer in
        let all_older : All (λ (x : Heartbeat P). x.sent_at ≤ m) documents = rw h.split (
          All-append m h.after (r.heartbeat ∷ h.before) (not_older m h.after h.after_older)
            (omega arith, h.before_not_newer)) in
        rw newer (record {
          after = [];
          before = documents;
          split = refl;
          after_older = tt;
          before_not_newer = not_newer m d.sent_at documents le all_older;
        })
    | inr older ↦ rw older (record {
      after = d ∷ h.after;
      before = h.before;
      split = ap (λ l. d ∷ l) h.split;
      after_older = (leb-false r.heartbeat.sent_at d.sent_at older, h.after_older);
      before_not_newer = h.before_not_newer;
    })
  ]

  run_heartbeats-newest :
      (a : String) (heartbeats : List (Heartbeat P × ℕ)) (documents : List (Heartbeat P))
      (g : AgentRegistry P)
      → KeepsNewest documents (get a g)
      → KeepsNewest (documents_of a heartbeats documents) (get a (run_heartbeats heartbeats g))
  unfolding record_heartbeat get
  run_heartbeats-newest a [] documents g h = h
  run_heartbeats-newest a ((heartbeat, at) ∷ later) documents g h =
      let k = heartbeat.agent_id in
      let r = heard heartbeat at (lookup k g.agents) in
      let g' = (record_heartbeat heartbeat at g).1 in
      let e = lookup-insert a k r g.agents in
      elim (Bool-cases (a == k)) [
        | inl same ↦
            let own : lookup a g.agents ≡ lookup k g.agents =
              ap (λ j. lookup j g.agents) ((eq_iff a k).0 same) in
            let stored : lookup a (insert k r g.agents) ≡ some r = e ∙ rw same refl in
            rw same (
              run_heartbeats-newest a later (heartbeat ∷ documents) g' (
                subst (KeepsNewest (heartbeat ∷ documents)) (sym stored) (
                  heard-IsNewest heartbeat at documents (lookup k g.agents)
                    (subst (KeepsNewest documents) own h))))
        | inr other ↦
            let stored : lookup a (insert k r g.agents) ≡ lookup a g.agents = e ∙ rw other refl in
            rw other (
              run_heartbeats-newest a later documents g'
                (subst (KeepsNewest documents) (sym stored) h))
      ]

  kept_before-KeepsNewest : (o : Option (AgentRecord P)) → KeepsNewest (kept_before o) o
  kept_before-KeepsNewest none = refl
  kept_before-KeepsNewest (some r) = record {
    after = [];
    before = [];
    split = refl;
    after_older = tt;
    before_not_newer = tt;
  }

  -- After any heartbeats, from any agents, in any order of the times at which they were sent, the time of
  -- an agent's first contact is that of its first heartbeat, the time of its last contact is that of its
  -- latest to arrive, and the stored document is the newest of the one that was there and those received:
  -- none of them was sent later, and each that arrived after it was sent before it.
  pub run_heartbeats-KeepsNewest :
      (a : String) (heartbeats : List (Heartbeat P × ℕ)) (g : AgentRegistry P)
      → KeepsNewest
          (documents_of a heartbeats (kept_before (get a g)))
          (get a (run_heartbeats heartbeats g))
        × (contact_of (get a (run_heartbeats heartbeats g))
            ≡ run_contacts a heartbeats (contact_of (get a g)))
  run_heartbeats-KeepsNewest a heartbeats g = (
    run_heartbeats-newest a heartbeats (kept_before (get a g)) g
        (kept_before-KeepsNewest (get a g)),
    run_heartbeats-contacts a heartbeats g,
  )
