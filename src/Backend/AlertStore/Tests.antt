-- ===== src/Backend/AlertStore/Tests.antt =====
-- The theorems on the alert store at concrete inputs.
use avengers_fyp_is.Common.{
  ℕ, ◌≡◌, refl, false, String, List, [], ◌∷◌, none, some, arith, ltb, length, trim, min, ◌++◌,
  string_eq,
}
use avengers_fyp_is.Common.Dict.{contains}
use avengers_fyp_is.Backend.AlertStore.Records.{
  AlertEvent, agent, AlertRecord, AlertStoreConfig, StoredAlert,
}
use avengers_fyp_is.Backend.AlertStore.Defs.{
  AlertStore, find, get_instance, merge, merge_into, merge_new, merge_known, is_stale, place_alert,
  take_out, put_active, put_resolved, evict_resolved, first_stored, next_stored, append_transition,
  only_delivery,
}
use avengers_fyp_is.Backend.AlertStore.Merge.{AreValid, merge-AreValid}
use avengers_fyp_is.Backend.AlertStore.Runs.{run_merges, resolved_stays}
use avengers_fyp_is.Backend.AlertStore.Passing.{Parts}
use avengers_fyp_is.Backend.AlertStore.Query.{all, Filters, list_alerts}
use avengers_fyp_is.Backend.AlertStore.Listing.{Descending, asked, list_alerts-newest}

abbrev config : AlertStoreConfig
config = record { recent_alert_limit = 2; max_transitions = 2 }

abbrev event : String → String → ℕ → AlertEvent ℕ
event alert_id status at = record {
  alert_id = alert_id;
  rule_name = "HighRejectRate";
  severity = "critical";
  status = status;
  application = "Magic";
  instance_id = "i-1";
  agent_id = "agent-1";
  matched_condition = "reject_rate > 5";
  observed_value = some 7;
  threshold = 5;
  first_observed = 1;
  last_observed = at;
  resolved_at = none;
  group_by = [];
  metric_context = [];
  notification_count = 1;
  callback_delivery = none;
}

none_yet-AreValid : AreValid {V = ℕ} config []
unfolding get_instance
none_yet-AreValid j = record {
  separate = λ k. refl;
  listed = λ k. refl;
  bounded = omega arith;
  active_fits = λ k. tt;
  resolved_fits = λ k. tt;
}

abbrev fired : AlertStore ℕ
fired = merge config (event "a-1" "firing" 3) agent []

merge-AreValid_example : AreValid config (merge config (event "a-1" "firing" 3) agent [])
merge-AreValid_example = merge-AreValid config (event "a-1" "firing" 3) agent [] none_yet-AreValid

-- A resolved alert that fires late is stale.
resolved_stays_example :
    let i = get_instance "i-1" (
      run_merges config
        ((event "a-1" "firing" 5, agent) ∷ [])
        (merge config (event "a-1" "resolved" 4) agent [])) in
    (contains "a-1" i.active ≡ false)
    × ((s : StoredAlert ℕ) × (find "a-1" i ≡ some s) × (s.alert.status ≡ "resolved"))
resolved_stays_example =
    resolved_stays config (event "a-1" "resolved" 4) agent ((event "a-1" "firing" 5, agent) ∷ []) []
      none_yet-AreValid refl (omega arith)

abbrev any_alert : Filters
any_alert = record {
  application = none;
  instance_id = none;
  rule_name = none;
  severity = none;
  since = none;
}

list_alerts-newest_example :
    let answer = list_alerts all any_alert 1 fired in
    (rest : List (AlertRecord ℕ)) × (others : List (AlertRecord ℕ)) × Descending
      (answer.alerts ++ rest)
    × Parts all any_alert (asked all fired) (answer.alerts ++ rest) others
    × (length answer.alerts ≡ min 1 (length (answer.alerts ++ rest)))
    × (answer.truncated ≡ ltb 0 (length rest))
list_alerts-newest_example = list_alerts-newest all any_alert 1 fired

-- The second alert that is resolved is the newer one, and a third makes the first one go.
abbrev three_resolved : AlertStore ℕ
three_resolved =
    run_merges config
      ((event "a-1" "firing" 3, agent)
        ∷ (event "a-1" "resolved" 4, agent)
        ∷ (event "a-2" "resolved" 5, agent)
        ∷ (event "a-3" "resolved" 6, agent)
        ∷ [])
      []

oldest_evicted : (get_instance "i-1" three_resolved).resolved ≡ "a-2" ∷ "a-3" ∷ []
unfolding get_instance merge merge_into merge_new merge_known is_stale place_alert take_out
    put_active put_resolved evict_resolved first_stored next_stored append_transition only_delivery
    find trim
oldest_evicted = refl
