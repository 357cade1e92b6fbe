-- ===== src/Backend/AlertStore/Query.antt =====
-- `list_alerts` and `get_alert`, and what a list of alerts contains.
use avengers_fyp_is.Common.{
  ℕ, ◌+◌, Bool, true, false, ◌&&◌, String, List, [], ◌∷◌, ◌++◌, Option, none, some, ltb, leb,
  length, take, string_eq, ◌==◌, if◌then◌else◌,
}
use avengers_fyp_is.Common.Dict.{Dict, lookup}
use avengers_fyp_is.Backend.AlertStore.Records.{AlertRecord, AlertTransition, StoredAlert}
use avengers_fyp_is.Backend.AlertStore.Defs.{AlertStore, is_active_status, find}

pub data StatusFilter : Type 0 where
  active resolved all : StatusFilter

pub record Filters : Type 0 where
  pub application : Option String
  pub instance_id : Option String
  pub rule_name : Option String
  pub severity : Option String
  pub since : Option ℕ

pub record AlertCounts : Type 0 where
  pub active : ℕ
  pub critical : ℕ
  pub warning : ℕ

pub record AlertsList (V : Type 0) : Type 0 where
  pub alerts : List (AlertRecord V)
  pub counts : AlertCounts
  pub truncated : Bool

pub record AlertDetail (V : Type 0) : Type 0 where
  pub alert : AlertRecord V
  pub transitions : List (AlertTransition V)

-- `wanted is not None and found != wanted`, negated
abbrev pub admits : Option String → String → Bool
admits none found = true
admits (some wanted) found = found == wanted

abbrev pub is_since : Option ℕ → ℕ → Bool
is_since none at = true
is_since (some since) at = leb since at

abbrev pub include_active : StatusFilter → Bool
include_active active = true
include_active resolved = false
include_active all = true

abbrev pub include_resolved : StatusFilter → Bool
include_resolved active = false
include_resolved resolved = true
include_resolved all = true

abbrev pub has_status : StatusFilter → String → Bool
has_status active status = is_active_status status
has_status resolved status = status == "resolved"
has_status all status = true

module _ {V : Type 0} where
  unfoldable pub matches_filters : Filters → AlertRecord V → Bool
  matches_filters f r =
      admits f.application r.application
      && (admits f.instance_id r.instance_id
          && (admits f.rule_name r.rule_name
              && (admits f.severity r.severity && is_since f.since r.last_observed)))

  abbrev pub active_records : Dict String (StoredAlert V) → List (AlertRecord V)
  active_records [] = []
  active_records ((k, s) ∷ stored) = s.alert ∷ active_records stored

  abbrev pub found_record : Option (StoredAlert V) → List (AlertRecord V)
  found_record none = []
  found_record (some s) = s.alert ∷ []

  abbrev pub resolved_records : List String → Dict String (StoredAlert V) → List (AlertRecord V)
  resolved_records [] stored = []
  resolved_records (k ∷ ids) stored = found_record (lookup k stored) ++ resolved_records ids stored

  -- `_iter_all_records`
  unfoldable pub all_records : Bool → Bool → AlertStore V → List (AlertRecord V)
  all_records with_active with_resolved [] = []
  all_records with_active with_resolved ((instance_id, i) ∷ store) =
      (if with_active then active_records i.active else [])
      ++ ((if with_resolved then resolved_records i.resolved i.resolved_map else [])
          ++ all_records with_active with_resolved store)

  -- The two tests in the loop of `list_alerts`.
  abbrev pub is_candidate : StatusFilter → Filters → AlertRecord V → Bool
  is_candidate status f r = has_status status r.status && matches_filters f r

  unfoldable pub candidates : StatusFilter → Filters → List (AlertRecord V) → List (AlertRecord V)
  candidates status f [] = []
  candidates status f (r ∷ records) =
      let rest = candidates status f records in if is_candidate status f r then r ∷ rest else rest

  -- `sort(key=last_observed, reverse=True)`: the newest first, and equals in their order.
  unfoldable pub place_newest : AlertRecord V → List (AlertRecord V) → List (AlertRecord V)
  place_newest r [] = r ∷ []
  place_newest r (s ∷ records) =
      let rest = place_newest r records in
      if leb s.last_observed r.last_observed then r ∷ s ∷ records else s ∷ rest

  unfoldable pub newest_first : List (AlertRecord V) → List (AlertRecord V)
  newest_first [] = []
  newest_first (r ∷ records) = place_newest r (newest_first records)

  abbrev pub count_if : (AlertRecord V → Bool) → List (AlertRecord V) → ℕ
  count_if f [] = 0
  count_if f (r ∷ records) = (if f r then 1 else 0) + count_if f records

  abbrev pub is_query_active : AlertRecord V → Bool
  is_query_active r = is_active_status r.status

  unfoldable pub counts_of : List (AlertRecord V) → AlertCounts
  counts_of all_active = record {
    active = count_if is_query_active all_active;
    critical = count_if (λ r. is_query_active r && (r.severity == "critical")) all_active;
    warning = count_if (λ r. is_query_active r && (r.severity == "warning")) all_active;
  }

  unfoldable pub list_alerts : StatusFilter → Filters → ℕ → AlertStore V → AlertsList V
  list_alerts status f limit store =
      let records = all_records (include_active status) (include_resolved status) store in
      let sorted = newest_first (candidates status f records) in
      record {
        alerts = take limit sorted;
        counts = counts_of (all_records true false store);
        truncated = ltb limit (length sorted);
      }

  -- `AlertDetailResponse` of what an instance has
  abbrev pub detail_or : Option (AlertDetail V) → Option (StoredAlert V) → Option (AlertDetail V)
  detail_or later none = later
  detail_or later (some s) = some (record { alert = s.alert; transitions = s.transitions })

  unfoldable pub get_alert : String → AlertStore V → Option (AlertDetail V)
  get_alert alert_id [] = none
  get_alert alert_id ((instance_id, i) ∷ store) =
      detail_or (get_alert alert_id store) (find alert_id i)
