-- ===== src/Sessions/Silence/Latch.antt =====
-- A silence is reported once.
use text.Mathlib.TextEquality.{eq_iff}
use avengers_fyp_is.Common.{
  ℕ, ◌≡◌, ◌≢◌, refl, ap, ◌∙◌, sym, inl, inr, Bool, true, false, ◌||◌, String, List, [], ◌∷◌, Option,
  none, some, arith, All, string_eq, ◌==◌, Bool-cases,
}
use avengers_fyp_is.Common.Dict.{Dict, lookup, insert, erase, lookup-insert, lookup-erase}
use avengers_fyp_is.Sessions.Silence.Defs.{
  SessionTimeout, SessionState, SessionHeartbeatTracker, forget, is_logout, observe, timed_out,
  is_timed_out,
}
use avengers_fyp_is.Sessions.Silence.Once.{
  reports, is_due, is_some, IsKeyed, contains-is_some, timed_out-reports,
}

-- The calls of the tracker: a message of some session, or a tick.
pub data Call : Type 0 where
  heard : Option String → String → String → ℕ → Call
  tick : ℕ → Call

-- The tracker after some calls, with what its ticks have reported.
unfoldable pub run :
    List Call → SessionHeartbeatTracker → SessionHeartbeatTracker × List (List SessionTimeout)
run [] t = (t, [])
run (heard msg_type key session_id at ∷ calls) t = run calls (observe msg_type key session_id at t)
run (tick now ∷ calls) t =
    let (found, t') = timed_out now t in let (t'', later) = run calls t' in (t'', found ∷ later)

-- The call is no message of the session.
abbrev pub IsElsewhere : String → Call → Type 0
IsElsewhere key (heard msg_type other session_id at) = key ≢ other
IsElsewhere key (tick now) = Unit

IsKeyed-insert :
    (key : String) (s : SessionState) (d : Dict String SessionState)
    → IsKeyed d
    → IsKeyed (insert key s d)
IsKeyed-insert key s [] h = (refl, tt)
IsKeyed-insert key s ((j, old) ∷ d) h = elim (Bool-cases (key == j)) [
  | inl same ↦ rw same (rw (sym ((eq_iff key j).0 same)) at h.0, h.1)
  | inr other ↦ rw other (
    lookup-insert j key s d ∙ ground (arith, other, h.0, eq_iff key j, eq_iff j key),
    IsKeyed-insert key s d h.1,
  )
]

IsKeyed-erase : (key : String) (d : Dict String SessionState) → IsKeyed d → IsKeyed (erase key d)
IsKeyed-erase key [] h = tt
IsKeyed-erase key ((j, old) ∷ d) h = elim (Bool-cases (key == j)) [
  | inl same ↦ rw same (IsKeyed-erase key d h.1)
  | inr other ↦ rw other (
    lookup-erase j key d ∙ ground (arith, other, h.0, eq_iff key j, eq_iff j key),
    IsKeyed-erase key d h.1,
  )
]

pub observe-IsKeyed :
    (msg_type : Option String) (key session_id : String) (at : ℕ) (t : SessionHeartbeatTracker)
    → IsKeyed t.sessions
    → IsKeyed (observe msg_type key session_id at t).sessions
unfolding observe forget
observe-IsKeyed msg_type key session_id at t h = elim (Bool-cases (is_logout msg_type)) [
  | inl logout ↦ rw (observe, logout) (IsKeyed-erase key t.sessions h)
  | inr alive ↦ rw (observe, alive) (IsKeyed-insert key _ t.sessions h)
]

observe-latch :
    (msg_type : Option String) (key other session_id : String) (at : ℕ)
    (t : SessionHeartbeatTracker)
    → key ≢ other
    → lookup key (observe msg_type other session_id at t).latched ≡ lookup key t.latched
unfolding observe forget
observe-latch msg_type key other session_id at t apart =
    let e = lookup-erase key other t.latched ∙ ground (arith, eq_iff key other) in
    elim (Bool-cases (is_logout msg_type)) [
      | inl logout ↦ rw (observe, logout) e
      | inr alive ↦ rw (observe, alive) e
    ]

not_due :
    (now timeout : ℕ) (s : Option SessionState) (l : Option Bool)
    → is_some l ≡ true
    → is_due now timeout s l ≡ false
not_due now timeout none l h = refl
not_due now timeout (some s) none h = cc h
not_due now timeout (some s) (some u) h = refl

is_timed_out_lem :
    (key : String) (t : SessionHeartbeatTracker)
    → is_timed_out key t ≡ is_some (lookup key t.latched)
unfolding is_timed_out
is_timed_out_lem key t = contains-is_some key t.latched

timed_out-IsKeyed :
    (now : ℕ) (t : SessionHeartbeatTracker)
    → IsKeyed t.sessions
    → IsKeyed (timed_out now t).1.sessions
unfolding timed_out
timed_out-IsKeyed now t h = h

or_true : (b c : Bool) → c ≡ true → (b || c) ≡ true
or_true true c h = refl
or_true false c h = h

latched_once :
    (key : String) (calls : List Call) (t : SessionHeartbeatTracker)
    → IsKeyed t.sessions
    → is_timed_out key t ≡ true
    → All (IsElsewhere key) calls
    → All (λ found. reports key found ≡ false) (run calls t).1
unfolding run
latched_once key [] t keyed latched apart = tt
latched_once key (heard msg_type other session_id at ∷ calls) t keyed latched apart =
    latched_once key calls (observe msg_type other session_id at t)
      (observe-IsKeyed msg_type other session_id at t keyed)
      (is_timed_out_lem key (observe msg_type other session_id at t)
        ∙ ap is_some (observe-latch msg_type key other session_id at t apart.0)
        ∙ sym (is_timed_out_lem key t)
        ∙ latched)
      apart.1
latched_once key (tick now ∷ calls) t keyed latched apart =
    let r = timed_out-reports key now t keyed in
    (
      r.0 ∙ not_due now t.timeout _ _ (sym (is_timed_out_lem key t) ∙ latched),
      latched_once key calls (timed_out now t).1 (timed_out-IsKeyed now t keyed)
          (r.1 ∙ or_true _ _ latched) apart.1,
    )

reported_is_latched : (due latched : Bool) → due ≡ true → (due || latched) ≡ true
reported_is_latched due latched h = rw h refl

-- Over distinct session keys, once a tick has reported a session, no later tick reports it again as long
-- as no message of that session arrives, whatever the times of the ticks and the messages of the other
-- sessions are.
pub reported_once :
    (key : String) (now : ℕ) (calls : List Call) (t : SessionHeartbeatTracker)
    → IsKeyed t.sessions
    → reports key (timed_out now t).0 ≡ true
    → All (IsElsewhere key) calls
    → All (λ found. reports key found ≡ false) (run calls (timed_out now t).1).1
reported_once key now calls t keyed reported apart =
    let r = timed_out-reports key now t keyed in
    latched_once key calls (timed_out now t).1 (timed_out-IsKeyed now t keyed)
      (r.1 ∙ reported_is_latched _ _ (sym r.0 ∙ reported)) apart
