-- ===== src/Pipeline/BoundedQueue/Fifo.antt =====
-- `BoundedQueue` against an abstract queue: what leaves is what came in, in the same order, and
-- `dropped_total` counts what left without reaching a consumer.
use mathlib.Core.List.{append_assoc, append-nil, map-append}
use mathlib.Core.Path.{◌≡⟨◌⟩◌, ◌∎, subst}
use avengers_fyp_is.Common.{
  ℕ, ◌+◌, ◌<◌, ◌≡◌, inl, inr, refl, sym, ap, ◌∙◌, List, [], ◌∷◌, ◌++◌, map, Option, none, some,
  arith, nat_beq, length, take, drop, take-append-drop, Bool-cases, List-cases,
}
use avengers_fyp_is.Pipeline.BoundedQueue.Defs.{
  BoundedQueue, OverflowPolicy, block, drop_oldest, PutOutcome, is_full, put_block, put_by, put,
  put_nowait_by, put_nowait, get_block, timed_out, drain,
}
use avengers_fyp_is.Pipeline.BoundedQueue.Traffic.{
  Op, put_op, put_nowait_op, get_op, get_block_op, nowait_traffic, drain_op, Departure, Traffic,
  item_of, outputs_of, evictions, entered_by, step, run, Explains, delivered, evicted,
}

module _ {ℓ} {A : Type ℓ} where
  abbrev Explained : BoundedQueue A → Traffic A → Type ℓ
  Explained q t = (gone : List (Departure A)) × Explains gone q t

  abbrev first_out : List A → List (Departure A)
  first_out [] = []
  first_out (x ∷ xs) = evicted x ∷ []

  abbrev all_out : List A → List (Departure A)
  all_out [] = []
  all_out (x ∷ xs) = delivered x ∷ all_out xs

  first_out_items : (xs : List A) → map item_of (first_out xs) ++ drop 1 xs ≡ xs
  first_out_items [] = refl
  first_out_items (x ∷ xs) = refl

  first_out_outputs : (xs : List A) → outputs_of (first_out xs) ≡ []
  first_out_outputs [] = refl
  first_out_outputs (x ∷ xs) = refl

  evictions-first_out : (xs : List A) → 0 < length xs → evictions (first_out xs) ≡ 1
  evictions-first_out [] h = elim h [ ]
  evictions-first_out (x ∷ xs) h = omega arith

  all_out_items : (xs : List A) → map item_of (all_out xs) ≡ xs
  all_out_items [] = refl
  all_out_items (x ∷ xs) = ap (λ t. x ∷ t) (all_out_items xs)

  all_out_outputs : (xs : List A) → outputs_of (all_out xs) ≡ xs
  all_out_outputs [] = refl
  all_out_outputs (x ∷ xs) = ap (λ t. x ∷ t) (all_out_outputs xs)

  evictions-all_out : (xs : List A) → evictions (all_out xs) ≡ 0
  evictions-all_out [] = refl
  evictions-all_out (x ∷ xs) = evictions-all_out xs

  abbrev put_traffic : A → PutOutcome × BoundedQueue A → Traffic A
  put_traffic x (r, q) = record { entered = entered_by x r; outputs = []; queue = q }

  put_by-Explained :
      (p : OverflowPolicy) (x : A) (q : BoundedQueue A)
      → 0 < q.capacity
      → Explained q (put_traffic x (put_by p (timed_out ∷ []) x q))
  unfolding put_block
  put_by-Explained block x q c = elim (Bool-cases (is_full q)) [
    | inl full ↦ rw full (
      [],
      record {
        in_order = sym (append-nil q.items);
        to_consumers = refl;
        counted = omega arith;
        same_capacity = refl;
      },
    )
    | inr free ↦ rw free (
      [],
      record { in_order = refl; to_consumers = refl; counted = omega arith; same_capacity = refl },
    )
  ]
  put_by-Explained drop_oldest x q c = elim (Bool-cases (is_full q)) [
    | inl full ↦ rw full (
      first_out q.items,
      record {
        in_order = rw (← append_assoc) (rw (first_out_items q.items));
        to_consumers = first_out_outputs q.items;
        counted = ground (arith, evictions-first_out q.items);
        same_capacity = refl;
      },
    )
    | inr free ↦ rw free (
      [],
      record { in_order = refl; to_consumers = refl; counted = omega arith; same_capacity = refl },
    )
  ]

  put_op-Explained : (x : A) (q : BoundedQueue A) → 0 < q.capacity → Explained q (step (put_op x) q)
  unfolding step put
  put_op-Explained x q c = elim (Bool-cases (nat_beq q.capacity 0)) [
    | inl zero_room ↦ absurd (ground arith)
    | inr has_room ↦ rw has_room (put_by-Explained q.overflow_policy x q c)
  ]

  put_nowait_by-Explained :
      (p : OverflowPolicy) (x : A) (q : BoundedQueue A)
      → q.overflow_policy ≡ p
      → 0 < q.capacity
      → Explained q (nowait_traffic x q (put_nowait_by p x q))
  unfolding put
  put_nowait_by-Explained block x q e c = (
    [],
    record {
      in_order = sym (append-nil q.items);
      to_consumers = refl;
      counted = omega arith;
      same_capacity = refl;
    },
  )
  put_nowait_by-Explained drop_oldest x q e c = elim (Bool-cases (nat_beq q.capacity 0)) [
    | inl zero_room ↦ absurd (ground arith)
    | inr has_room ↦ rw has_room (
        subst (λ policy. Explained q (nowait_traffic x q (some (put_by policy [] x q).1))) (sym e)
          (put_by-Explained drop_oldest x q c))
  ]

  put_nowait_op-Explained :
      (x : A) (q : BoundedQueue A) → 0 < q.capacity → Explained q (step (put_nowait_op x) q)
  unfolding step put_nowait
  put_nowait_op-Explained x q c = put_nowait_by-Explained q.overflow_policy x q refl c

  get_block_op-Explained : (q : BoundedQueue A) → Explained q (step get_block_op q)
  unfolding step get_block
  get_block_op-Explained q = elim (List-cases q.items) [
    | inl e ↦ (
      [],
      record {
        in_order = ground arith;
        to_consumers = ground arith;
        counted = ground arith;
        same_capacity = ground arith;
      },
    )
    | inr (x, r, e) ↦ (
      delivered x ∷ [],
      record {
        in_order = ground (arith, append-nil q.items);
        to_consumers = ground arith;
        counted = ground arith;
        same_capacity = ground arith;
      },
    )
  ]

  get_op-Explained : (q : BoundedQueue A) → Explained q (step get_op q)
  unfolding step
  get_op-Explained q = elim (List-cases q.items) [
    | inl e ↦ (
      [],
      record {
        in_order = ground arith;
        to_consumers = ground arith;
        counted = ground arith;
        same_capacity = ground arith;
      },
    )
    | inr (x, r, e) ↦ (
      delivered x ∷ [],
      record {
        in_order = ground (arith, append-nil q.items);
        to_consumers = ground arith;
        counted = ground arith;
        same_capacity = ground arith;
      },
    )
  ]

  drain_op-Explained : (n : Option ℕ) (q : BoundedQueue A) → Explained q (step (drain_op n) q)
  unfolding step drain
  drain_op-Explained none q = (
    all_out q.items,
    record {
      in_order = ap (λ t. t ++ []) (all_out_items q.items);
      to_consumers = all_out_outputs q.items;
      counted = omega (arith, evictions-all_out q.items);
      same_capacity = refl;
    },
  )
  drain_op-Explained (some n) q = (
    all_out (take n q.items),
    record {
      in_order = rw (all_out_items (take n q.items), take-append-drop) (sym (append-nil q.items));
      to_consumers = all_out_outputs (take n q.items);
      counted = omega (arith, evictions-all_out (take n q.items));
      same_capacity = refl;
    },
  )

  outputs_of-append :
      (g h : List (Departure A)) → outputs_of (g ++ h) ≡ outputs_of g ++ outputs_of h
  outputs_of-append [] h = refl
  outputs_of-append (delivered x ∷ g) h = ap (λ t. x ∷ t) (outputs_of-append g h)
  outputs_of-append (evicted x ∷ g) h = outputs_of-append g h

  evictions-append : (g h : List (Departure A)) → evictions (g ++ h) ≡ evictions g + evictions h
  evictions-append [] h = omega arith
  evictions-append (delivered x ∷ g) h = evictions-append g h
  evictions-append (evicted x ∷ g) h = omega (arith, evictions-append g h)

  abbrev then_traffic : Traffic A → Traffic A → Traffic A
  then_traffic t u = record {
    entered = t.entered ++ u.entered;
    outputs = t.outputs ++ u.outputs;
    queue = u.queue;
  }

  Explains-then :
      (g h : List (Departure A)) (q : BoundedQueue A) (t u : Traffic A)
      → Explains g q t
      → Explains h t.queue u
      → Explains (g ++ h) q (then_traffic t u)
  Explains-then g h q t u a b = record {
    in_order =
        map item_of (g ++ h) ++ u.queue.items
        ≡⟨ (simp (map-append, append_assoc)) ⟩ map item_of g ++ (map item_of h ++ u.queue.items)
        ≡⟨ (rw b.in_order) ⟩ map item_of g ++ (t.queue.items ++ u.entered)
        ≡⟨ sym (append_assoc (map item_of g) t.queue.items u.entered) ⟩
          (map item_of g ++ t.queue.items) ++ u.entered
        ≡⟨ (rw a.in_order (append_assoc q.items t.entered u.entered)) ⟩
          q.items ++ (t.entered ++ u.entered) ∎;
    to_consumers = rw (outputs_of-append, a.to_consumers, b.to_consumers);
    counted = omega (arith, a.counted, b.counted, evictions-append g h);
    same_capacity = b.same_capacity ∙ a.same_capacity;
  }

  step-Explained : (op : Op A) (q : BoundedQueue A) → 0 < q.capacity → Explained q (step op q)
  step-Explained (put_op x) q c = put_op-Explained x q c
  step-Explained (put_nowait_op x) q c = put_nowait_op-Explained x q c
  step-Explained get_block_op q c = get_block_op-Explained q
  step-Explained get_op q c = get_op-Explained q
  step-Explained (drain_op n) q c = drain_op-Explained n q

  -- For every sequence of calls of `put` and `get` with a time-out, `put_nowait`, `get` without a time-out
  -- and `drain`, each of which ends without waiting for another thread, on a queue of capacity at least 1
  -- and of either policy, there is a list of departures such that: the departures followed by what is still queued are the old items followed by all
  -- accepted items, in order; the departures that were not evicted are, in order, what the
  -- consumers received; and `dropped_total` has grown by the number of evicted ones.
  pub run-fifo :
      (ops : List (Op A)) (q : BoundedQueue A)
      → 0 < q.capacity
      → (gone : List (Departure A)) × Explains gone q (run ops q)
  unfolding run
  run-fifo [] q c = (
    [],
    record {
      in_order = sym (append-nil q.items);
      to_consumers = refl;
      counted = omega arith;
      same_capacity = refl;
    },
  )
  run-fifo (op ∷ ops) q c =
      let (g, a) = step-Explained op q c in
      let (h, b) = run-fifo ops (step op q).queue (omega (arith, a.same_capacity)) in
      (g ++ h, Explains-then g h q (step op q) (run ops (step op q).queue) a b)
