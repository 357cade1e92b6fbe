-- ===== src/Pipeline/BoundedQueue/Traffic.antt =====
-- The abstract view of a queue: what enters it, and what leaves it.
use avengers_fyp_is.Common.{ℕ, ◌+◌, ◌≡◌, List, [], ◌∷◌, ◌++◌, map, Option, none, some}
use avengers_fyp_is.Pipeline.BoundedQueue.Defs.{
  BoundedQueue, PutOutcome, accepted, GetOutcome, got, put, timed_out, put_nowait, get_block,
  get_timed, drain,
}

-- One call by some thread that ends without waiting for another: `put` and `get` with a time-out,
-- `put_nowait`, `get` without one, and `drain`.
pub data Op {ℓ} (A : Type ℓ) : Type ℓ where
  put_op put_nowait_op : A → Op A
  get_op get_block_op : Op A
  drain_op : Option ℕ → Op A

pub data Departure {ℓ} (A : Type ℓ) : Type ℓ where
  delivered evicted : A → Departure A

-- What a call has let in and handed out.
pub record Traffic {ℓ} (A : Type ℓ) : Type ℓ where
  pub entered : List A
  pub outputs : List A
  pub queue : BoundedQueue A

module _ {ℓ} {A : Type ℓ} where
  abbrev pub item_of : Departure A → A
  item_of (delivered x) = x
  item_of (evicted x) = x

  abbrev pub outputs_of : List (Departure A) → List A
  outputs_of [] = []
  outputs_of (delivered x ∷ ds) = x ∷ outputs_of ds
  outputs_of (evicted x ∷ ds) = outputs_of ds

  abbrev pub evictions : List (Departure A) → ℕ
  evictions [] = 0
  evictions (delivered x ∷ ds) = evictions ds
  evictions (evicted x ∷ ds) = evictions ds + 1

  abbrev pub entered_by : A → PutOutcome → List A
  entered_by x accepted = x ∷ []
  entered_by x _ = []

  -- `put_nowait` that raises lets nothing in.
  abbrev pub nowait_traffic : A → BoundedQueue A → Option (BoundedQueue A) → Traffic A
  nowait_traffic x q none = record { entered = []; outputs = []; queue = q }
  nowait_traffic x q (some q') = record { entered = x ∷ []; outputs = []; queue = q' }

  abbrev pub handed_out : GetOutcome A → List A
  handed_out (got x) = x ∷ []
  handed_out _ = []

  unfoldable pub step : Op A → BoundedQueue A → Traffic A
  step (put_op x) q =
      let (r, q') = put (timed_out ∷ []) x q in
      record { entered = entered_by x r; outputs = []; queue = q' }
  step (put_nowait_op x) q = nowait_traffic x q (put_nowait x q)
  step get_block_op q =
      let (r, q') = get_block [] q in record { entered = []; outputs = handed_out r; queue = q' }
  step get_op q =
      let (r, q') = get_timed timed_out q in
      record { entered = []; outputs = handed_out r; queue = q' }
  step (drain_op n) q =
      let (xs, q') = drain n q in record { entered = []; outputs = xs; queue = q' }

  unfoldable pub run : List (Op A) → BoundedQueue A → Traffic A
  run [] q = record { entered = []; outputs = []; queue = q }
  run (op ∷ ops) q =
      let t = step op q in
      let u = run ops t.queue in
      record { entered = t.entered ++ u.entered; outputs = t.outputs ++ u.outputs; queue = u.queue }

  -- The departures explain the traffic that led from `q` to `t.queue`.
  pub record Explains (gone : List (Departure A)) (q : BoundedQueue A) (t : Traffic A)
      : Type ℓ where
    pub in_order : map item_of gone ++ t.queue.items ≡ q.items ++ t.entered
    pub to_consumers : outputs_of gone ≡ t.outputs
    pub counted : t.queue.dropped ≡ q.dropped + evictions gone
    pub same_capacity : t.queue.capacity ≡ q.capacity
