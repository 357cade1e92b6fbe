-- ===== src/Sessions/Silence/Defs.antt =====
-- The state and the methods of `SessionHeartbeatTracker`.
use Prim.Native.Nat.{Ordering}
use Prim.Native.String.{compare}
use avengers_fyp_is.Common.{
  ℕ, ◌+◌, ◌-◌, Bool, true, false, ◌||◌, String, List, [], ◌∷◌, Option, none, some, ltb, string_eq,
  ◌==◌, if◌then◌else◌,
}
use avengers_fyp_is.Common.Dict.{Dict, lookup, contains, insert, erase}

pub record SessionTimeout : Type 0 where
  pub session_key : String
  pub session_id : String
  pub silent : ℕ

pub record SessionState : Type 0 where
  pub last_seen : ℕ
  pub session_id : String

pub record SessionHeartbeatTracker : Type 0 where
  pub timeout : ℕ
  pub sessions : Dict String SessionState
  pub latched : Dict String Bool

unfoldable pub forget : String → SessionHeartbeatTracker → SessionHeartbeatTracker
forget key t = record t { sessions = erase key t.sessions; latched = erase key t.latched }

abbrev pub is_logout : Option String → Bool
is_logout none = false
is_logout (some m) = m == "Logout" || m == "5"

-- `observe`, with the session's key and id.
unfoldable pub observe :
    Option String → String → String → ℕ → SessionHeartbeatTracker → SessionHeartbeatTracker
observe msg_type key session_id at t = if is_logout msg_type then forget key t else record t {
  sessions = insert key (record { last_seen = at; session_id = session_id }) t.sessions;
  latched = erase key t.latched;
}

-- The session is not latched, and `now - last_seen > timeout`.
abbrev pub is_newly : ℕ → ℕ → SessionState → Option Bool → Bool
is_newly now timeout s (some u) = false
is_newly now timeout s none = ltb (s.last_seen + timeout) now

-- The loop of `timed_out`: what it finds, and the latch behind it.
unfoldable pub newly_silent :
    ℕ → ℕ → Dict String SessionState → Dict String Bool → List SessionTimeout × Dict String Bool
newly_silent now timeout [] latched = ([], latched)
newly_silent now timeout ((key, s) ∷ sessions) latched =
    let is_new = is_newly now timeout s (lookup key latched) in
    let (found, latched') =
      newly_silent now timeout sessions (if is_new then insert key true latched else latched) in
    (
      if is_new
          then record { session_key = key; session_id = s.session_id; silent = now - s.last_seen }
            ∷ found
          else found,
      latched',
    )

-- `sorted(newly, key=lambda t: t.session_key)`, which is stable
abbrev comes_after : String → String → Bool
comes_after a b = elim (compare a b) [ Ordering.gt ↦ true | _ ↦ false ]

unfoldable pub place_sorted : SessionTimeout → List SessionTimeout → List SessionTimeout
place_sorted x [] = x ∷ []
place_sorted x (y ∷ ys) =
    let rest = place_sorted x ys in
    if comes_after x.session_key y.session_key then y ∷ rest else x ∷ y ∷ ys

unfoldable pub sorted : List SessionTimeout → List SessionTimeout
sorted [] = []
sorted (x ∷ xs) = place_sorted x (sorted xs)

unfoldable pub timed_out :
    ℕ → SessionHeartbeatTracker → List SessionTimeout × SessionHeartbeatTracker
timed_out now t =
    let (newly, latched) = newly_silent now t.timeout t.sessions t.latched in
    (sorted newly, record t { latched = latched })

unfoldable pub is_timed_out : String → SessionHeartbeatTracker → Bool
is_timed_out key t = contains key t.latched
