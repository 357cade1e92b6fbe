-- ===== src/Sessions/Silence/Once.antt =====
-- When `timed_out` reports a session.
use mathlib.Core.Path.{subst}
use text.Mathlib.TextEquality.{eq_iff}
use avengers_fyp_is.Common.{
  ℕ, ◌≡◌, refl, ap, ◌∙◌, sym, inl, inr, Bool, true, false, ◌||◌, String, List, [], ◌∷◌, Option,
  none, some, arith, string_eq, ◌==◌, Bool-cases, Option-cases, if◌then◌else◌,
}
use avengers_fyp_is.Common.Dict.{Dict, lookup, contains, insert, lookup-insert}
use avengers_fyp_is.Sessions.Silence.Defs.{
  SessionTimeout, SessionState, SessionHeartbeatTracker, is_newly, newly_silent, place_sorted,
  sorted, timed_out, is_timed_out,
}

-- The session is among the reported ones.
abbrev pub reports : String → List SessionTimeout → Bool
reports key [] = false
reports key (x ∷ xs) = key == x.session_key || reports key xs

reports-place_sorted :
    (key : String) (x : SessionTimeout) (xs : List SessionTimeout)
    → reports key (place_sorted x xs) ≡ (key == x.session_key || reports key xs)
unfolding place_sorted
reports-place_sorted key x [] = refl
reports-place_sorted key x (y ∷ ys) = ground (arith, reports-place_sorted key x ys)

reports-sorted :
    (key : String) (xs : List SessionTimeout) → reports key (sorted xs) ≡ reports key xs
unfolding sorted
reports-sorted key [] = refl
reports-sorted key (x ∷ xs) =
    reports-place_sorted key x (sorted xs) ∙ ground (arith, reports-sorted key xs)

-- The session is known, not yet reported, and has been silent for longer than the time-out.
abbrev pub is_due : ℕ → ℕ → Option SessionState → Option Bool → Bool
is_due now timeout none latched = false
is_due now timeout (some s) latched = is_newly now timeout s latched

abbrev pub is_some : Option Bool → Bool
is_some none = false
is_some (some u) = true

-- A dictionary has each key once.
abbrev pub IsKeyed : Dict String SessionState → Type 0
IsKeyed [] = Unit
IsKeyed ((key, s) ∷ d) = (lookup key d ≡ none) × IsKeyed d

record Found (key : String) (now timeout : ℕ) (state : Option SessionState)
    (latched : Dict String Bool) (r : List SessionTimeout × Dict String Bool) : Type 0 where
  reported : reports key r.0 ≡ is_due now timeout state (lookup key latched)
  latch :
      is_some (lookup key r.1)
      ≡ (is_due now timeout state (lookup key latched) || is_some (lookup key latched))

module _ (now timeout : ℕ) where
  abbrev latch_after : String → SessionState → Dict String Bool → Dict String Bool
  latch_after key s latched =
      if is_newly now timeout s (lookup key latched) then insert key true latched else latched

  latch_after-other :
      (key j : String) (s : SessionState) (latched : Dict String Bool)
      → (key == j) ≡ false
      → lookup key (latch_after j s latched) ≡ lookup key latched
  latch_after-other key j s latched other =
      elim (Bool-cases (is_newly now timeout s (lookup j latched))) [
        | inl new ↦ rw new (lookup-insert key j true latched ∙ rw other refl)
        | inr old ↦ rw old refl
      ]

  latch_after-own :
      (key : String) (s : SessionState) (latched : Dict String Bool)
      → is_some (lookup key (latch_after key s latched))
        ≡ (is_newly now timeout s (lookup key latched) || is_some (lookup key latched))
  latch_after-own key s latched = elim (Bool-cases (is_newly now timeout s (lookup key latched))) [
    | inl new ↦ rw (new, lookup-insert key key true latched) (ground (arith, eq_iff key key))
    | inr old ↦ rw old refl
  ]

  reports-skip :
      (key : String) (b : Bool) (x : SessionTimeout) (xs : List SessionTimeout)
      → (key == x.session_key) ≡ false
      → reports key (if b then x ∷ xs else xs) ≡ reports key xs
  reports-skip key true x xs other = rw other refl
  reports-skip key false x xs other = refl

  -- At the session itself.
  head-Found :
      (key : String) (s : SessionState) (sessions : Dict String SessionState)
      (latched : Dict String Bool)
      → lookup key sessions ≡ none
      → let latched' = latch_after key s latched in
        Found key now timeout
          (lookup key sessions)
          latched'
          (newly_silent now timeout sessions latched')
        → Found key now timeout
            (some s)
            latched
            (newly_silent now timeout ((key, s) ∷ sessions) latched)
  unfolding newly_silent
  head-Found key s sessions latched absent rest = record {
    reported = elim (Bool-cases (is_newly now timeout s (lookup key latched))) [
      | inl new ↦ rw new (ground (arith, eq_iff key key))
      | inr old ↦ rw old (rw old at (rw absent at rest.reported))
    ];
    latch = rw absent at rest.latch ∙ latch_after-own key s latched;
  }

  -- At another session.
  other-Found :
      (key j : String) (s : SessionState) (sessions : Dict String SessionState)
      (latched : Dict String Bool)
      → (key == j) ≡ false
      → let latched' = latch_after j s latched in
        Found key now timeout
          (lookup key sessions)
          latched'
          (newly_silent now timeout sessions latched')
        → Found key now timeout
            (lookup key sessions)
            latched
            (newly_silent now timeout ((j, s) ∷ sessions) latched)
  unfolding newly_silent
  other-Found key j s sessions latched other rest =
      let q = latch_after-other key j s latched other in
      record {
        reported =
            reports-skip key (is_newly now timeout s (lookup j latched)) _ _ other
            ∙ rest.reported
            ∙ ap (is_due now timeout (lookup key sessions)) q;
        latch = rest.latch ∙ ap (λ l. is_due now timeout (lookup key sessions) l || is_some l) q;
      }

  newly_silent-Found :
      (key : String) (sessions : Dict String SessionState) (latched : Dict String Bool)
      → IsKeyed sessions
      → Found key now timeout
          (lookup key sessions)
          latched
          (newly_silent now timeout sessions latched)
  unfolding newly_silent
  newly_silent-Found key [] latched keyed = record { reported = refl; latch = refl }
  newly_silent-Found key ((j, s) ∷ sessions) latched keyed = elim (Bool-cases (key == j)) [
    | inl same ↦
        let e = (eq_iff key j).0 same in
        rw same (
          subst
            (λ i.
              Found key now timeout (some s) latched
                (newly_silent now timeout ((i, s) ∷ sessions) latched))
            e
            (head-Found key s sessions latched (rw e keyed.0)
              (newly_silent-Found key sessions (latch_after key s latched) keyed.1)))
    | inr other ↦ rw other (
        other-Found key j s sessions latched other
          (newly_silent-Found key sessions (latch_after j s latched) keyed.1))
  ]

pub contains-is_some :
    (key : String) (d : Dict String Bool) → contains key d ≡ is_some (lookup key d)
contains-is_some key d = elim (Option-cases (lookup key d)) [
  | inl absent ↦ rw (contains, absent) refl
  | inr (b, present) ↦ rw (contains, present) refl
]

-- Over distinct session keys, `timed_out` reports a session exactly if it is known, has not been
-- reported since it was last heard from, and has been silent for longer than the time-out; what it
-- reports, and nothing else, it latches.
pub timed_out-reports :
    (key : String) (now : ℕ) (t : SessionHeartbeatTracker)
    → IsKeyed t.sessions
    → let (found, t') = timed_out now t in
      let due = is_due now t.timeout (lookup key t.sessions) (lookup key t.latched) in
      (reports key found ≡ due) × (is_timed_out key t' ≡ (due || is_timed_out key t))
unfolding timed_out is_timed_out
timed_out-reports key now t keyed =
    let f = newly_silent-Found now t.timeout key t.sessions t.latched keyed in
    (
      reports-sorted key _ ∙ f.reported,
      contains-is_some key (newly_silent now t.timeout t.sessions t.latched).1
          ∙ f.latch
          ∙ ap (λ b. is_due now t.timeout (lookup key t.sessions) (lookup key t.latched) || b)
              (sym (contains-is_some key t.latched)),
    )
