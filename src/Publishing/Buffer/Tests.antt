-- ===== src/Publishing/Buffer/Tests.antt =====
-- The theorems on the buffer at concrete inputs.
use avengers_fyp_is.Common.{ℕ, ◌≡◌, inr, refl, List, [], ◌∷◌, arith}
use avengers_fyp_is.Publishing.Buffer.Defs.{
  PendingItem, PublishBuffer, event, make_pending_item, append, expire, evict_from, expire_from,
}
use avengers_fyp_is.Publishing.Buffer.Bounds.{
  IsValid, BufferCall, call_append, call_expire, call_take, call_requeue_front, run_calls,
  run_calls-IsValid,
}

-- An item of the given size, enqueued at that time.
abbrev item : ℕ → ℕ → PendingItem ℕ
item at size = make_pending_item (λ n. n) event size at

abbrev buffer : PublishBuffer ℕ
buffer = record { max_bytes = 50; max_age = 10; items = item 1 20 ∷ item 3 25 ∷ []; total = 45 }

buffer-IsValid : IsValid buffer
buffer-IsValid = record { counted = refl; within = inr (omega arith) }

appended : append (item 9 30) buffer ≡ (record buffer { items = item 9 30 ∷ []; total = 30 }, 2)
unfolding append evict_from
appended = refl

expired : (expire 12 buffer).1 ≡ 1
unfolding expire expire_from
expired = refl

abbrev calls : List (BufferCall ℕ)
calls =
    call_append (item 9 30)
    ∷ call_take 1
    ∷ call_append (item 10 45)
    ∷ call_requeue_front (item 9 30 ∷ [])
    ∷ call_expire 30
    ∷ []

run_calls-IsValid_example : IsValid (run_calls calls buffer)
run_calls-IsValid_example = run_calls-IsValid calls buffer buffer-IsValid
