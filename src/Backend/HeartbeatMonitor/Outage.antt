-- ===== src/Backend/HeartbeatMonitor/Outage.antt =====
-- An agent that goes silent for the first time has an active alert after the next evaluation.
use mathlib.Core.Path.{subst}
use text.Mathlib.TextEquality.{eq_iff}
use avengers_fyp_is.Common.{
  ℕ, ◌≡◌, refl, sym, ap, ◌∙◌, inl, inr, Bool, true, false, ◌||◌, String, List, [], ◌∷◌, none, some,
  arith, string_eq, ◌==◌, Bool-cases, Option-cases,
}
use avengers_fyp_is.Common.Dict.{lookup, contains}
use avengers_fyp_is.Backend.Registry.Defs.{AgentRecord, AgentRegistry, get, is_stale, stale_agents}
use avengers_fyp_is.Backend.Registry.Stale.{stale_agents-reports}
use avengers_fyp_is.Backend.AlertStore.Records.{AlertEvent, Source, backend, AlertStoreConfig}
use avengers_fyp_is.Backend.AlertStore.Defs.{AlertStore, get_instance, merge_into, merge}
use avengers_fyp_is.Backend.AlertStore.History.{same_id}
use avengers_fyp_is.Backend.AlertStore.Merge.{get_instance-insert, AreValid, merge-AreValid}
use avengers_fyp_is.Backend.AlertStore.Runs.{run_merges, run_merges-append}
use avengers_fyp_is.Backend.AlertStore.Live.{Live, merge_into-other, merge_into-firing}
use avengers_fyp_is.Backend.HeartbeatMonitor.Defs.{
  MonitorConfig, HeartbeatMonitor, is_in, minus, instance_id_of, backend_alert_id,
  build_firing_event, build_resolved_event, report_all, evaluate_once,
}
use avengers_fyp_is.Backend.HeartbeatMonitor.Events.{
  firing_event, firing_events, resolved_event, resolved_events, recovered, evaluate_once-merges,
}

minus-gone :
    (k : String) (ids gone : List String) → is_in k gone ≡ true → is_in k (minus ids gone) ≡ false
minus-gone k [] gone h = refl
minus-gone k (j ∷ ids) gone h = ground (arith, minus-gone k ids gone h, h, eq_iff k j)

module _ {V : Type 0} (config : AlertStoreConfig) where
  -- An alert of one instance behind an event for another alert.
  merge-other :
      (b : Bool) (k j : String) (event : AlertEvent V) (source : Source) (store : AlertStore V)
      → AreValid config store
      → (k == event.alert_id) ≡ false
      → Live b k (get_instance j store)
      → Live b k (get_instance j (merge config event source store))
  unfolding merge
  merge-other b k j event source store v other l =
      let i' = merge_into config event source (get_instance event.instance_id store) in
      let e = get_instance-insert config j event.instance_id i' store in
      elim (Bool-cases (j == event.instance_id)) [
        | inl same ↦
            rw (merge, e, same)
              (merge_into-other config b k event source _ (v event.instance_id) other (
                subst (λ a. Live b k (get_instance a store)) ((eq_iff j event.instance_id).0 same)
                  l))
        | inr apart ↦ rw (merge, e, apart) l
      ]

  merge-firing :
      (b : Bool) (event : AlertEvent V) (source : Source) (store : AlertStore V)
      → AreValid config store
      → event.status ≡ "firing"
      → Live b event.alert_id (get_instance event.instance_id store)
      → Live true event.alert_id (get_instance event.instance_id (merge config event source store))
  unfolding merge
  merge-firing b event source store v fires l =
      let j = event.instance_id in
      let i' = merge_into config event source (get_instance j store) in
      rw (merge, get_instance-insert config j j i' store, same_id j)
        (merge_into-firing config b event source _ (v j) fires l)

module _ {P V : Type 0} (config : MonitorConfig V) (now : ℕ) (g : AgentRegistry P) (a : String)
    (r : AgentRecord P) (known : get a g ≡ some r)
    (distinct : (x : String) (q : AgentRecord P)
      → get x g ≡ some q
      → (a == x) ≡ false
      → (backend_alert_id config a == backend_alert_id config x) ≡ false) where
  abbrev IsShown : Bool → AlertStore V → Type 0
  IsShown b store = Live b (backend_alert_id config a) (get_instance (instance_id_of a r) store)

  abbrev IsKept : Bool → AlertStore V → Type 0
  IsKept b store = AreValid config.alerts store × IsShown b store

  own_firing :
      (b : Bool) (store : AlertStore V)
      → AreValid config.alerts store
      → IsShown b store
      → IsKept true (run_merges config.alerts (firing_event config now a (get a g)) store)
  unfolding build_firing_event
  own_firing b store v l = rw known (
    merge-AreValid config.alerts _ backend store v,
    merge-firing config.alerts b _ backend store v refl l,
  )

  one_firing :
      (x : String) (b : Bool) (store : AlertStore V)
      → AreValid config.alerts store
      → IsShown b store
      → IsKept
          ((a == x) || b)
          (run_merges config.alerts (firing_event config now x (get x g)) store)
  unfolding build_firing_event
  one_firing x b store v l = elim (Bool-cases (a == x)) [
    | inl same ↦ rw same (
        subst
          (λ y. IsKept true (run_merges config.alerts (firing_event config now y (get y g)) store))
          ((eq_iff a x).0 same) (own_firing b store v l))
    | inr other ↦ elim (Option-cases (get x g)) [
      | inl unknown ↦ rw (other, unknown) (v, l)
      | inr (q, there) ↦
          rw (other, there)
            (
              merge-AreValid config.alerts _ backend store v,
              merge-other config.alerts b _ _ _ backend store v (distinct x q there other) l,
            )
    ]
  ]

  all_firing :
      (ids : List String) (b : Bool) (store : AlertStore V)
      → AreValid config.alerts store
      → IsShown b store
      → IsKept (is_in a ids || b) (run_merges config.alerts (firing_events config now ids g) store)
  all_firing [] b store v l = (v, l)
  all_firing (x ∷ ids) b store v l =
      let first = one_firing x b store v l in
      let rest = all_firing ids ((a == x) || b) _ first.0 first.1 in
      let flag : (is_in a ids || ((a == x) || b)) ≡ (is_in a (x ∷ ids) || b) = ground arith in
      let runs =
        run_merges-append config.alerts (firing_event config now x (get x g))
          (firing_events config now ids g) store in
      subst (IsKept (is_in a (x ∷ ids) || b)) (sym runs) (
        subst
          (λ c. IsKept c (
            run_merges config.alerts (firing_events config now ids g)
              (run_merges config.alerts (firing_event config now x (get x g)) store)))
          flag rest)

  one_resolved :
      (x : String) (b : Bool) (store : AlertStore V)
      → (a == x) ≡ false
      → AreValid config.alerts store
      → IsShown b store
      → IsKept b (run_merges config.alerts (resolved_event config now x (get x g)) store)
  unfolding build_resolved_event
  one_resolved x b store other v l = elim (Option-cases (get x g)) [
    | inl unknown ↦ rw unknown (v, l)
    | inr (q, there) ↦ rw there (
      merge-AreValid config.alerts _ backend store v,
      merge-other config.alerts b _ _ _ backend store v (distinct x q there other) l,
    )
  ]

  all_resolved :
      (ids : List String) (b : Bool) (store : AlertStore V)
      → is_in a ids ≡ false
      → AreValid config.alerts store
      → IsShown b store
      → IsKept b (run_merges config.alerts (resolved_events config now ids g) store)
  all_resolved [] b store out v l = (v, l)
  all_resolved (x ∷ ids) b store out v l =
      let other : (a == x) ≡ false = ground (arith, out) in
      let later : is_in a ids ≡ false = ground (arith, out) in
      let first = one_resolved x b store other v l in
      let rest = all_resolved ids b _ later first.0 first.1 in
      let runs =
        run_merges-append config.alerts (resolved_event config now x (get x g))
          (resolved_events config now ids g) store in
      subst (IsKept b) (sym runs) rest

module _ {P V : Type 0} (config : MonitorConfig V) where
  -- If an agent's record is under its id and is past the threshold, no other agent of the registry has
  -- an alert of the same id (the id is a truncated digest), the store is well formed and the agent's alert is not among the resolved ones, then after
  -- `evaluate_once` the agent's alert is active, whichever other agents are silent or have come back, and
  -- in whatever order they are looked at.
  pub outage_reported :
      (now : ℕ) (a : String) (r : AgentRecord P) (m : HeartbeatMonitor P V)
      → get a m.registry ≡ some r
      → r.agent_id ≡ a
      → is_stale m.registry r now ≡ true
      → ((x : String) (q : AgentRecord P)
          → get x m.registry ≡ some q
          → (a == x) ≡ false
          → (backend_alert_id config a == backend_alert_id config x) ≡ false)
      → ((x : String) (ids : List String) → is_in x (config.outside.set_order ids) ≡ is_in x ids)
      → AreValid config.alerts m.alert_store
      → let k = backend_alert_id config a in
        let j = instance_id_of a r in
        lookup k (get_instance j m.alert_store).resolved_map ≡ none
        → contains k (get_instance j (evaluate_once config now m).alert_store).active ≡ true
  outage_reported now a r m known own late distinct order v absent =
      let k = backend_alert_id config a in
      let j = instance_id_of a r in
      let stale = stale_agents m.registry now in
      let ids = config.outside.set_order stale in
      let back = config.outside.set_order (recovered config now m) in
      let reported : is_in a stale ≡ true =
        ground (arith, stale_agents-reports m.registry now a r known own late) in
      let before : Live (contains k (get_instance j m.alert_store).active) k
          (get_instance j m.alert_store) =
        record { shown = refl; not_resolved = absent } in
      let fired =
        all_firing config now m.registry a r known distinct ids _ m.alert_store v before in
      let out : is_in a back ≡ false =
        order a (recovered config now m)
        ∙ minus-gone a (report_all config now ids m).firing stale reported in
      let ended =
        all_resolved config now m.registry a r known distinct back _ _ out fired.0 fired.1 in
      let runs =
        evaluate_once-merges config now m
        ∙ run_merges-append config.alerts (firing_events config now ids m.registry)
            (resolved_events config now back m.registry) m.alert_store in
      let listed : is_in a ids ≡ true = order a stale ∙ reported in
      ap (λ store. contains k (get_instance j store).active) runs ∙ ended.1.shown ∙ rw listed refl
