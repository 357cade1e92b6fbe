-- ===== src/Sessions/Tests.antt =====
-- The theorems on the session trackers at concrete inputs.
use text.Mathlib.TextEquality.{eq_iff}
use avengers_fyp_is.Common.{
  ℕ, ◌+◌, ◌≡◌, refl, true, false, String, List, [], ◌∷◌, Option, none, some, arith, All, ◌==◌,
  string_eq, if◌then◌else◌,
}
use avengers_fyp_is.Common.Dict.{lookup}
use avengers_fyp_is.Sessions.Keys.{session_key}
use avengers_fyp_is.Sessions.Gaps.{
  Message, observe_all, missing, IsRising, rising_end, rising_more, gaps_account,
}
use avengers_fyp_is.Sessions.Silence.Defs.{
  SessionHeartbeatTracker, newly_silent, place_sorted, sorted, timed_out,
}
use avengers_fyp_is.Sessions.Silence.Once.{reports, IsKeyed}
use avengers_fyp_is.Sessions.Silence.Latch.{Call, heard, tick, run, reported_once}

session_key_test : session_key (some "VENUE") none "in" ≡ "VENUE->?:in"
unfolding session_key
session_key_test = refl

abbrev parse : String → Option ℕ
parse text = if text == "8" then some 8 else if text == "12" then some 12 else none

abbrev message : String → Message
message n = record { msg_type = some "D"; seq_num = some n }

messages-IsRising : IsRising parse 7 (message "8" ∷ message "12" ∷ []) 12
messages-IsRising =
    rising_more (message "8") (message "12" ∷ []) 8 refl refl refl (omega arith)
      (rising_more (message "12") [] 12 refl refl refl (omega arith) (rising_end 12))

gaps_account_example :
    let (t', events) = observe_all parse "s" (message "8" ∷ message "12" ∷ []) (("s", 7) ∷ []) in
    (7 + 2 + missing events ≡ 12) × (lookup "s" t' ≡ some 12)
gaps_account_example =
    gaps_account parse "s" (message "8" ∷ message "12" ∷ []) 7 12 (("s", 7) ∷ []) refl
      messages-IsRising

abbrev tracker : SessionHeartbeatTracker
tracker = record {
  timeout = 60;
  sessions =
      ("b", record { last_seen = 100; session_id = "B" })
      ∷ ("a", record { last_seen = 110; session_id = "A" })
      ∷ [];
  latched = [];
}

tracker-IsKeyed : IsKeyed tracker.sessions
tracker-IsKeyed = (refl, (refl, tt))

both_silent :
    (timed_out 171 tracker).0
    ≡ record { session_key = "a"; session_id = "A"; silent = 61 }
      ∷ record { session_key = "b"; session_id = "B"; silent = 71 }
      ∷ []
unfolding timed_out newly_silent sorted place_sorted
both_silent = refl

abbrev calls : List Call
calls = tick 175 ∷ heard (some "0") "a" "A" 180 ∷ tick 400 ∷ []

reported_at_171 : reports "b" (timed_out 171 tracker).0 ≡ true
unfolding timed_out newly_silent sorted place_sorted
reported_at_171 = refl

reported_once_example :
    All (λ found. reports "b" found ≡ false) (run calls (timed_out 171 tracker).1).1
reported_once_example =
    reported_once "b" 171 calls tracker tracker-IsKeyed reported_at_171
      (tt, ((λ e. ground (arith, e, eq_iff "b" "a")), (tt, tt)))
