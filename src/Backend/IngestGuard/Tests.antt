-- ===== src/Backend/IngestGuard/Tests.antt =====
-- The theorems on the guard at concrete inputs: two batches a minute, a cache of three.
use avengers_fyp_is.Common.{
  List, ◌≡◌, ◌≢◌, refl, [], ◌∷◌, arith, inl, inr, Bool-cases, string_eq, ◌==◌,
}
use avengers_fyp_is.Backend.IngestGuard.Defs.{
  IngestGuardConfig, duplicate, rate_limited, IngestGuard, expire_seen, slide, check_rate, check,
  commit,
}
use avengers_fyp_is.Backend.IngestGuard.Limit.{IsLimited, times_of, commit-IsLimited}
use avengers_fyp_is.Backend.IngestGuard.Dedupe.{Call, asks, accepts, commit-duplicate}
use avengers_fyp_is.Backend.IngestGuard.Dedupe
use avengers_fyp_is.Backend.IngestGuard.RetryAfter.{retry_after_suffices}

abbrev config : IngestGuardConfig
config = record { dedupe_ttl = 1800000000; dedupe_cache_size = 3; max_batches_per_minute = 2 }

abbrev empty_guard : IngestGuard
empty_guard = record { seen = []; accepted = [] }

abbrev busy_guard : IngestGuard
busy_guard = record {
  seen = ("agent", ("b1", 1000000) ∷ ("b2", 2000000) ∷ []) ∷ [];
  accepted = ("agent", 1000000 ∷ 2000000 ∷ []) ∷ [];
}

busy_guard-refuses : (check config "agent" "b3" 31000000 busy_guard).0 ≡ rate_limited 30
unfolding check check_rate expire_seen slide
busy_guard-refuses = refl

empty_guard-IsLimited : IsLimited config empty_guard
empty_guard-IsLimited agent_id = omega arith

busy_guard-IsLimited : IsLimited config busy_guard
busy_guard-IsLimited agent_id = elim (Bool-cases (agent_id == "agent")) [
  | inl same ↦ rw (times_of, same) (omega arith)
  | inr other ↦ rw (times_of, other) (omega arith)
]

commit-IsLimited_example :
    IsLimited config
      (commit config "agent" "b1" 1000001 (check config "agent" "b1" 1000000 empty_guard).1)
unfolding check check_rate
commit-IsLimited_example =
    commit-IsLimited config "agent" "b1" 1000000 1000001 empty_guard (omega arith)
      empty_guard-IsLimited refl

abbrev traffic : List Call
traffic = asks "agent" "b4" 4000000 ∷ accepts "other" "b4" 5000000 ∷ []

commit-duplicate_example :
    (check config "agent" "b3" 9000000
      (Dedupe.run config traffic (commit config "agent" "b3" 3000000 busy_guard))).0
    ≡ duplicate
commit-duplicate_example =
    commit-duplicate config "agent" "b3" 3000000 9000000 traffic busy_guard (omega arith)
      (omega arith) (omega arith)

retry_after_suffices_example :
    (check config "agent" "b3" 61000000 (check config "agent" "b3" 31000000 busy_guard).1).0
    ≢ rate_limited 1
retry_after_suffices_example =
    retry_after_suffices config "agent" "b3" 31000000 61000000 30 1 busy_guard (omega arith)
      busy_guard-IsLimited busy_guard-refuses (omega arith)
