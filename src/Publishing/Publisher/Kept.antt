-- ===== src/Publishing/Publisher/Kept.antt =====
-- What is left of the items after a cycle that keeps its batch, and after one that gives it up.
use avengers_fyp_is.Common.{ℕ, ◌+◌, ◌≤◌, ◌≡◌, ap, ◌∙◌, List, ◌++◌, arith, take, drop}
use avengers_fyp_is.Publishing.Buffer.Defs.{PendingItem, sizes}
use avengers_fyp_is.Publishing.Buffer.Bounds.{IsValid}
use avengers_fyp_is.Publishing.Buffer.Contents.{EvictsOldest, nothing_evicted}
use avengers_fyp_is.Publishing.Buffer.Loss.{sizes-append}
use avengers_fyp_is.Publishing.Publisher.Defs.{Publisher}
use avengers_fyp_is.Publishing.Publisher.Retain.{dropped_items}

module _ {P : Type 0} where
  -- What the next batch takes from the buffer, and what it leaves.
  abbrev pub taken_of : Publisher P → List (PendingItem P)
  taken_of q = take q.max_batch_items q.buffer.items

  abbrev pub rest_of : Publisher P → List (PendingItem P)
  rest_of q = drop q.max_batch_items q.buffer.items

  -- The items `taken` came back in front of what had arrived. `meanwhile` is the buffer before they
  -- came back.
  pub record Retained (taken rest arrivals : List (PendingItem P)) (before max_bytes : ℕ)
      (p' : Publisher P) : Type 0 where
    pub meanwhile : List (PendingItem P)
    pub lost_before : ℕ
    pub lost_after : ℕ
    pub while_sending : EvictsOldest max_bytes (rest ++ arrivals) meanwhile lost_before
    pub on_return : EvictsOldest max_bytes (taken ++ meanwhile) p'.buffer.items lost_after
    pub counted : dropped_items p' ≡ before + lost_before + lost_after
    pub valid : IsValid p'.buffer

  -- The items `taken` are gone for good.
  pub record GivenUp (rest arrivals : List (PendingItem P)) (before max_bytes : ℕ)
      (p' : Publisher P) : Type 0 where
    pub lost : ℕ
    pub while_sending : EvictsOldest max_bytes (rest ++ arrivals) p'.buffer.items lost
    pub counted : dropped_items p' ≡ before + lost
    pub valid : IsValid p'.buffer

  -- Where everything fits, a cycle that puts its items back leaves the buffer as if it had only
  -- received the arrivals.
  pub Retained-intact :
      (taken rest arrivals : List (PendingItem P)) (before m : ℕ) (p' : Publisher P)
      → sizes (taken ++ (rest ++ arrivals)) ≤ m
      → Retained taken rest arrivals before m p'
      → (p'.buffer.items ≡ taken ++ (rest ++ arrivals)) × (dropped_items p' ≡ before)
  Retained-intact taken rest arrivals before m p' fits v =
      let a =
        nothing_evicted m (rest ++ arrivals) v.meanwhile v.lost_before
          (omega (arith, sizes-append taken (rest ++ arrivals))) v.while_sending in
      let b =
        nothing_evicted m (taken ++ v.meanwhile) p'.buffer.items v.lost_after (rw a.1 fits)
          v.on_return in
      (b.1 ∙ ap (λ l. taken ++ l) a.1, omega (arith, v.counted, a.0, b.0))
