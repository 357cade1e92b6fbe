-- ===== src/Callbacks/Tracker/Tests.antt =====
-- The theorems on the tracker at concrete inputs.
use avengers_fyp_is.Common.{◌≡◌, refl, [], none, some, arith, trim}
use avengers_fyp_is.Callbacks.Tracker.Defs.{
  pending, sent, failed, DeliveryTracker, next_record, record_status, status_of,
}
use avengers_fyp_is.Callbacks.Tracker.Latest.{IsBounded, status_of-record_status}

abbrev tracker : DeliveryTracker
tracker = record_status "a-1" pending 3 none "firing:1" none []

second_attempt :
    status_of "a-1" none (
      record_status "a-1" sent 5 none "firing:1"
        (some "d-2")
        (record_status "a-1" sent 4 none "firing:1" (some "d-1") tracker))
    ≡ some (record {
      status = sent;
      updated_at = 5;
      attempt_count = 2;
      last_error = none;
      correlation_id = some "d-2";
    })
unfolding status_of record_status next_record trim
second_attempt = refl

status_of-record_status_example :
    let t' = record_status "a-1" failed 6 (some "http_400") "firing:1" none tracker in
    let r =
      next_record failed 6 (some "http_400") none (status_of "a-1" (some "firing:1") tracker) in
    (status_of "a-1" (some "firing:1") t' ≡ some r) × (status_of "a-1" none t' ≡ some r)
status_of-record_status_example =
    status_of-record_status "a-1" failed 6 (some "http_400") "firing:1" none tracker

none_yet-IsBounded : IsBounded []
none_yet-IsBounded a = omega arith
