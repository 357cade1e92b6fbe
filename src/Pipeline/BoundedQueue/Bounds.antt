-- ===== src/Pipeline/BoundedQueue/Bounds.antt =====
-- The capacity bound of `BoundedQueue`, also for a `put` that waits while other threads work.
use avengers_fyp_is.Common.{
  ℕ, ◌≤◌, ◌<◌, ◌≡◌, inl, inr, refl, List, [], ◌∷◌, ◌++◌, arith, nat_beq, length, drop,
  length-append, length-drop, All, Bool-cases,
}
use avengers_fyp_is.Pipeline.BoundedQueue.Defs.{
  BoundedQueue, OverflowPolicy, block, drop_oldest, Wake, timed_out, woken, PutOutcome, accepted,
  is_full, make_room, put_block, put_by, count_drop, put,
}

module _ {ℓ} {A : Type ℓ} where
  abbrev pub IsBounded : BoundedQueue A → Type 0
  IsBounded q = length q.items ≤ q.capacity

  -- What the other threads may leave behind: a bounded queue of the same capacity.
  abbrev pub WakeOk : ℕ → Wake A → Type 0
  WakeOk c timed_out = Unit
  WakeOk c (woken q) = IsBounded q × (q.capacity ≡ c)

  -- What a put that has ended tells: it was taken and stands last, or nothing was added.
  abbrev pub PutSays : A → PutOutcome × BoundedQueue A → Type ℓ
  PutSays x (accepted, q) = (front : List A) × (q.items ≡ front ++ x ∷ [])
  PutSays x _ = Unit

module _ {ℓ} {A : Type ℓ} where
  put_block-IsBounded :
      (ws : List (Wake A)) (x : A) (q : BoundedQueue A)
      → IsBounded q
      → All (WakeOk q.capacity) ws
      → IsBounded (put_block ws x q).1
  unfolding put_block
  put_block-IsBounded [] x q h w = ground (arith, length-append q.items (x ∷ []))
  put_block-IsBounded (timed_out ∷ ws) x q h w = ground (arith, length-append q.items (x ∷ []))
  put_block-IsBounded (woken q' ∷ ws) x q h w = elim (Bool-cases (is_full q)) [
    | inl full ↦ rw full (put_block-IsBounded ws x q' w.0.0 (rw w.0.1 w.1))
    | inr free ↦ rw free (ground (arith, length-append q.items (x ∷ [])))
  ]

  put_block-says : (ws : List (Wake A)) (x : A) (q : BoundedQueue A) → PutSays x (put_block ws x q)
  unfolding put_block
  put_block-says [] x q = elim (Bool-cases (is_full q)) [
    | inl full ↦ rw full tt
    | inr free ↦ rw free (q.items, refl)
  ]
  put_block-says (timed_out ∷ ws) x q = elim (Bool-cases (is_full q)) [
    | inl full ↦ rw full tt
    | inr free ↦ rw free (q.items, refl)
  ]
  put_block-says (woken q' ∷ ws) x q = elim (Bool-cases (is_full q)) [
    | inl full ↦ rw full (put_block-says ws x q')
    | inr free ↦ rw free (q.items, refl)
  ]

  put_by_policy-IsBounded :
      (p : OverflowPolicy) (ws : List (Wake A)) (x : A) (q : BoundedQueue A)
      → 0 < q.capacity
      → IsBounded q
      → All (WakeOk q.capacity) ws
      → IsBounded (put_by p ws x q).1
  put_by_policy-IsBounded block ws x q c h w = put_block-IsBounded ws x q h w
  put_by_policy-IsBounded drop_oldest ws x q c h w = ground (
    arith,
    length-append q.items (x ∷ []),
    length-append (drop 1 q.items) (x ∷ []),
    length-drop 1 q.items,
  )

  -- A put never leaves more than `capacity` items, whatever the policy, and however often it
  -- waited while the other threads left bounded states behind.
  pub put-IsBounded :
      (ws : List (Wake A)) (x : A) (q : BoundedQueue A)
      → IsBounded q
      → All (WakeOk q.capacity) ws
      → IsBounded (put ws x q).1
  unfolding put
  put-IsBounded ws x q h w = elim (Bool-cases (nat_beq q.capacity 0)) [
    | inl empty ↦ rw empty (count_drop-IsBounded q.overflow_policy q h)
    | inr some_room ↦
        rw some_room (put_by_policy-IsBounded q.overflow_policy ws x q (ground arith) h w)
  ]
    where
      count_drop-IsBounded :
          (p : OverflowPolicy) (q : BoundedQueue A) → IsBounded q → IsBounded (count_drop p q)
      count_drop-IsBounded block q h = h
      count_drop-IsBounded drop_oldest q h = h

  put_by-says :
      (p : OverflowPolicy) (ws : List (Wake A)) (x : A) (q : BoundedQueue A)
      → PutSays x (put_by p ws x q)
  put_by-says block ws x q = put_block-says ws x q
  put_by-says drop_oldest ws x q = ((make_room q).items, refl)

  pub put-says : (ws : List (Wake A)) (x : A) (q : BoundedQueue A) → PutSays x (put ws x q)
  unfolding put
  put-says ws x q = elim (Bool-cases (nat_beq q.capacity 0)) [
    | inl empty ↦ rw empty tt
    | inr some_room ↦ rw some_room (put_by-says q.overflow_policy ws x q)
  ]
