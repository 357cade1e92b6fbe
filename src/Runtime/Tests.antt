-- ===== src/Runtime/Tests.antt =====
-- The theorems on the shared parts at concrete inputs.
use avengers_fyp_is.Common.{◌≡◌, refl}
use avengers_fyp_is.Runtime.Backoff.{RetryPolicy, raw_delay}

abbrev policy : RetryPolicy
policy = record { base = 500; factor = 2000; cap = 3000; jitter = 200; max_attempts = 5 }

third_delay : raw_delay policy 3 ≡ 2000
unfolding raw_delay
third_delay = refl

capped_delay : raw_delay policy 4 ≡ 3000
unfolding raw_delay
capped_delay = refl
