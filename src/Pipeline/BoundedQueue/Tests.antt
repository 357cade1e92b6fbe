-- ===== src/Pipeline/BoundedQueue/Tests.antt =====
-- Runs of `BoundedQueue`, and the theorems at concrete inputs.
use avengers_fyp_is.Common.{ℕ, ◌≡◌, refl, List, [], ◌∷◌, none, arith}
use avengers_fyp_is.Pipeline.BoundedQueue.Defs.{
  BoundedQueue, block, drop_oldest, woken, timed_out, accepted, refused, put, put_nowait, put_block,
}
use avengers_fyp_is.Pipeline.BoundedQueue.Traffic.{
  Op, put_op, put_nowait_op, get_op, get_block_op, drain_op, Departure, Explains, run,
}
use avengers_fyp_is.Pipeline.BoundedQueue.Fifo.{run-fifo}

abbrev full_queue : BoundedQueue ℕ
full_queue = record { capacity = 2; overflow_policy = block; items = 1 ∷ 2 ∷ []; dropped = 0 }

abbrev served_queue : BoundedQueue ℕ
served_queue = record full_queue { items = 2 ∷ [] }

put_after_wait :
    put (woken full_queue ∷ woken served_queue ∷ []) 3 full_queue
    ≡ (accepted, record full_queue { items = 2 ∷ 3 ∷ [] })
unfolding put put_block
put_after_wait = refl

put_times_out : put (timed_out ∷ []) 3 full_queue ≡ (refused, full_queue)
unfolding put put_block
put_times_out = refl

put_nowait_needs_drop_oldest : put_nowait 3 full_queue ≡ none
unfolding put_nowait
put_nowait_needs_drop_oldest = refl

abbrev lossy_queue : BoundedQueue ℕ
lossy_queue = record full_queue { overflow_policy = drop_oldest }

abbrev lossy_ops : List (Op ℕ)
lossy_ops = put_op 3 ∷ get_op ∷ put_nowait_op 4 ∷ get_block_op ∷ drain_op none ∷ get_op ∷ []

run-fifo_example :
    (gone : List (Departure ℕ)) × Explains gone lossy_queue (run lossy_ops lossy_queue)
run-fifo_example = run-fifo lossy_ops lossy_queue (omega arith)
