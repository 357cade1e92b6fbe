-- ===== src/Backend/Registry/Stale.antt =====
-- A silent agent is among the stale ones.
use text.Mathlib.TextEquality.{eq_iff}
use avengers_fyp_is.Common.{
  ℕ, ◌<◌, ◌≡◌, refl, sym, inl, inr, true, String, List, [], ◌∷◌, some, arith, occurrences,
  string_eq, ◌==◌, Bool-cases,
}
use avengers_fyp_is.Common.Dict.{Dict, lookup}
use avengers_fyp_is.Backend.Registry.Defs.{
  AgentRecord, AgentRegistry, get, place_by_id, sort_by_id, all_records, is_stale, stale_in,
  stale_agents,
}

module _ {P : Type 0} (g : AgentRegistry P) (at : ℕ) where
  stale_in-place_by_id :
      (a : String) (r : AgentRecord P) (records : List (AgentRecord P))
      → occurrences a (stale_in g at (place_by_id r records))
        ≡ occurrences a (stale_in g at (r ∷ records))
  unfolding place_by_id stale_in
  stale_in-place_by_id a r [] = refl
  stale_in-place_by_id a r (s ∷ records) = ground (arith, stale_in-place_by_id a r records)

  stale_in-sort_by_id :
      (a : String) (agents : Dict String (AgentRecord P)) (r : AgentRecord P)
      → lookup a agents ≡ some r
      → r.agent_id ≡ a
      → is_stale g r at ≡ true
      → 0 < occurrences a (stale_in g at (sort_by_id agents))
  unfolding sort_by_id stale_in
  stale_in-sort_by_id a [] r h own stale = absurd (cc h)
  stale_in-sort_by_id a ((k, s) ∷ agents) r h own stale = elim (Bool-cases (a == k)) [
    | inl same ↦
        let e : s ≡ r = cc (rw same at h) in
        let late : is_stale g s at ≡ true = rw e stale in
        let named : (a == s.agent_id) ≡ true = (eq_iff a s.agent_id).1 (sym (rw e own)) in
        ground (arith, stale_in-place_by_id a s (sort_by_id agents), late, named)
    | inr other ↦
        let rest = stale_in-sort_by_id a agents r (rw other at h) own stale in
        ground (arith, stale_in-place_by_id a s (sort_by_id agents), rest)
  ]

  -- An agent whose record is under its id and is past the threshold is reported by `stale_agents`.
  pub stale_agents-reports :
      (a : String) (r : AgentRecord P)
      → get a g ≡ some r
      → r.agent_id ≡ a
      → is_stale g r at ≡ true
      → 0 < occurrences a (stale_agents g at)
  unfolding get stale_agents all_records
  stale_agents-reports a r h own stale = stale_in-sort_by_id a g.agents r h own stale
