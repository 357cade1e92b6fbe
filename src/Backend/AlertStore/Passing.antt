-- ===== src/Backend/AlertStore/Passing.antt =====
-- Which of the stored records pass the status and the filters of a request.
use text.Mathlib.TextEquality.{eq_iff}
use avengers_fyp_is.Common.{
  ℕ, ◌+◌, ◌≤◌, ◌≡◌, ◌⊎◌, refl, inl, inr, Bool, true, false, ◌&&◌, ◌||◌, String, List, [], ◌∷◌,
  Option, none, some, arith, leb→le, leb-false, string_eq, ◌==◌, All, Bool-cases,
}
use avengers_fyp_is.Backend.AlertStore.Records.{AlertRecord}
use avengers_fyp_is.Backend.AlertStore.Query.{
  StatusFilter, active, resolved, all, Filters, admits, is_since, has_status, matches_filters,
  is_candidate, candidates, count_if,
}

-- A filter that is not given asks for nothing.
abbrev pub Asks : Option String → String → Type 0
Asks none found = Unit
Asks (some wanted) found = found ≡ wanted

abbrev pub AsksSince : Option ℕ → ℕ → Type 0
AsksSince none at = Unit
AsksSince (some since) at = since ≤ at

abbrev pub HasStatus : StatusFilter → String → Type 0
HasStatus active status = ((status ≡ "pending") ⊎ (status ≡ "firing")) ⊎ (status ≡ "resolving")
HasStatus resolved status = status ≡ "resolved"
HasStatus all status = Unit

-- A test that decides a condition.
abbrev Decides : Bool → Type 0 → Type 0
Decides b A = (b ≡ true → A) × (b ≡ false → ¬ A)

both : {A B : Type 0} (b c : Bool) → Decides b A → Decides c B → Decides (b && c) (A × B)
both true c d e = ((λ h. (d.0 refl, e.0 h)), (λ h p. e.1 h p.1))
both false c d e = ((λ h. absurd (cc h)), (λ h p. d.1 refl p.0))

either : {A B : Type 0} (b c : Bool) → Decides b A → Decides c B → Decides (b || c) (A ⊎ B)
either true c d e = ((λ h. inl (d.0 refl)), (λ h. absurd (cc h)))
either false c d e = ((λ h. inr (e.0 h)), (λ h p. elim p [ inl a ↦ d.1 refl a | inr b ↦ e.1 h b ]))

same_text : (s t : String) → Decides (s == t) (s ≡ t)
same_text s t = ((eq_iff s t).0, (λ h e. cc (h, (eq_iff s t).1 e)))

decides_filter :
    (wanted : Option String) (found : String) → Decides (admits wanted found) (Asks wanted found)
decides_filter none found = ((λ h. tt), (λ h. absurd (cc h)))
decides_filter (some wanted) found = same_text found wanted

decides_since : (since : Option ℕ) (at : ℕ) → Decides (is_since since at) (AsksSince since at)
decides_since none at = ((λ h. tt), (λ h. absurd (cc h)))
decides_since (some since) at =
    ((λ h. leb→le since at h), (λ h p. absurd (omega (arith, leb-false since at h))))

decides_status :
    (wanted : StatusFilter) (status : String)
    → Decides (has_status wanted status) (HasStatus wanted status)
decides_status active status =
    either _ _ (either _ _ (same_text status "pending") (same_text status "firing"))
      (same_text status "resolving")
decides_status resolved status = same_text status "resolved"
decides_status all status = ((λ h. tt), (λ h. absurd (cc h)))

module _ {V : Type 0} where
  pub record Passes (status : StatusFilter) (f : Filters) (r : AlertRecord V) : Type 0 where
    pub status_ok : HasStatus status r.status
    pub application_ok : Asks f.application r.application
    pub instance_ok : Asks f.instance_id r.instance_id
    pub rule_ok : Asks f.rule_name r.rule_name
    pub severity_ok : Asks f.severity r.severity
    pub since_ok : AsksSince f.since r.last_observed

  decides_candidate :
      (status : StatusFilter) (f : Filters) (r : AlertRecord V)
      → Decides (is_candidate status f r) (Passes status f r)
  unfolding matches_filters
  decides_candidate status f r =
      let d = both _ _ (decides_status status r.status) (
        both _ _ (decides_filter f.application r.application) (
          both _ _ (decides_filter f.instance_id r.instance_id) (
            both _ _ (decides_filter f.rule_name r.rule_name) (
              both _ _ (decides_filter f.severity r.severity)
                (decides_since f.since r.last_observed))))) in
      (
        (λ h.
            let p = d.0 h in
            record {
              status_ok = p.0;
              application_ok = p.1.0;
              instance_ok = p.1.1.0;
              rule_ok = p.1.1.1.0;
              severity_ok = p.1.1.1.1.0;
              since_ok = p.1.1.1.1.1;
            }),
        (λ h p. d.1 h (
          p.status_ok,
          (p.application_ok, (p.instance_ok, (p.rule_ok, (p.severity_ok, p.since_ok)))),
        )),
      )

  -- The records that pass, and those that do not, are together all of them.
  pub record Parts (status : StatusFilter) (f : Filters)
      (records passing others : List (AlertRecord V)) : Type 0 where
    pub all_pass : All (λ r. Passes status f r) passing
    pub none_passes : All (λ r. ¬ Passes status f r) others
    pub each :
        (test : AlertRecord V → Bool)
        → count_if test passing + count_if test others ≡ count_if test records

  pub candidates-Parts :
      (status : StatusFilter) (f : Filters) (records : List (AlertRecord V))
      → (others : List (AlertRecord V)) × Parts status f records
          (candidates status f records)
          others
  unfolding candidates
  candidates-Parts status f [] =
      ([], record { all_pass = tt; none_passes = tt; each = λ test. refl })
  candidates-Parts status f (r ∷ records) =
      let (others, p) = candidates-Parts status f records in
      let d = decides_candidate status f r in
      elim (Bool-cases (is_candidate status f r)) [
        | inl passes ↦ rw passes (
          others,
          record {
            all_pass = (d.0 passes, p.all_pass);
            none_passes = p.none_passes;
            each = λ test. omega (arith, p.each test);
          },
        )
        | inr out ↦ rw out (
          r ∷ others,
          record {
            all_pass = p.all_pass;
            none_passes = (d.1 out, p.none_passes);
            each = λ test. omega (arith, p.each test);
          },
        )
      ]
