-- ===== src/Pipeline/Deduper/Once.antt =====
-- A line that was processed is recognised again, and no other line is.
use native.Mathlib.Nat.{add-zero}
use avengers_fyp_is.Common.{
  ℕ, suc, ◌+◌, ◌≤◌, ◌<◌, ◌≡◌, inl, inr, refl, true, List, [], ◌∷◌, ◌++◌, none, arith, leb, length,
  Bool-cases, Option-cases, All,
}
use avengers_fyp_is.Common.Dict.{Dict, lookup, contains, erase, lookup-erase, lookup-suffix}
use avengers_fyp_is.Common.Recent.{Holds, lookup-found, Holds-renew, Holds-trim}
use avengers_fyp_is.Pipeline.Deduper.Defs.{
  LinePosition, position_eq, same_position_iff, ProcessedLineDeduper, expire_from, evict_expired,
  move_to_end, is_duplicate, mark_processed,
}
use avengers_fyp_is.Pipeline.Deduper.Calls.{
  Call, check, mark, apply, run, time_of, apply-settings, run-settings,
}

Holds-expire :
    (k : LinePosition) (at n now ttl : ℕ) (front : Dict LinePosition ℕ) (late : ℕ)
    (back : Dict LinePosition ℕ)
    → lookup k front ≡ none
    → at ≤ late
    → length back ≤ n
    → now ≤ at + ttl
    → Holds k at n (expire_from now ttl (front ++ ((k, late) ∷ back)))
unfolding expire_from
Holds-expire k at n now ttl [] late back f a b t = ([], late, back, ground arith, refl, a, b)
Holds-expire k at n now ttl ((j, old) ∷ front) late back f a b t =
    elim (Bool-cases (leb now (old + ttl))) [
      | inl fresh ↦ rw fresh ((j, old) ∷ front, late, back, refl, f, a, b)
      | inr stale ↦ rw stale (
          Holds-expire k at n now ttl front late back (lookup-suffix k ((j, old) ∷ []) front f) a b
            t)
    ]

Holds-evict :
    (k : LinePosition) (at n now : ℕ) (d : ProcessedLineDeduper)
    → now ≤ at + d.ttl_seconds
    → Holds k at n d.seen
    → Holds k at n (evict_expired now d).seen
Holds-evict k at n now d t (front, late, back, e, f, a, b) =
    rw e (Holds-expire k at n now d.ttl_seconds front late back f a b t)

Holds-move :
    (k j : LinePosition) (at n : ℕ) (seen : Dict LinePosition ℕ)
    → Holds k at n seen
    → Holds k at (suc n) (move_to_end j seen)
Holds-move k j at n seen (front, late, back, e, f, a, b) = elim (Option-cases (lookup j seen)) [
  | inl absent ↦ rw (absent, move_to_end) (front, late, back, e, f, a, omega arith)
  | inr (time, found) ↦
      rw (found, move_to_end)
        (Holds-renew k j at n time seen
          (λ same. ground (arith, lookup-found k late front back f, (same_position_iff j k).0 same))
          (front, late, back, e, f, a, b))
]

Holds-weaken :
    (k : LinePosition) (at n : ℕ) (seen : Dict LinePosition ℕ)
    → Holds k at n seen
    → Holds k at (suc n) seen
Holds-weaken k at n seen (front, late, back, e, f, a, b) = (front, late, back, e, f, a, omega arith)

Holds-apply :
    (k : LinePosition) (at n : ℕ) (c : Call) (d : ProcessedLineDeduper)
    → suc n < d.capacity
    → at ≤ time_of c
    → time_of c ≤ at + d.ttl_seconds
    → Holds k at n d.seen
    → Holds k at (suc n) (apply c d).seen
unfolding apply is_duplicate mark_processed
Holds-apply k at n (check p now) d c lo hi h =
    elim (Bool-cases (contains p (evict_expired now d).seen)) [
      | inl hit ↦ rw (hit, apply) (Holds-move k p at n _ (Holds-evict k at n now d hi h))
      | inr miss ↦ rw (miss, apply) (Holds-weaken k at n _ (Holds-evict k at n now d hi h))
    ]
Holds-apply k at n (mark p now) d c lo hi h =
    Holds-trim k at (suc n) d.capacity _ c
      (Holds-renew k p at n now _ (λ _. lo) (Holds-evict k at n now d hi h))

abbrev pub Between : ℕ → ℕ → Call → Type 0
Between lo hi c = (lo ≤ time_of c) × (time_of c ≤ hi)

Holds-run :
    (k : LinePosition) (at n : ℕ) (cs : List Call) (d : ProcessedLineDeduper)
    → n + length cs < d.capacity
    → All (Between at (at + d.ttl_seconds)) cs
    → Holds k at n d.seen
    → Holds k at (n + length cs) (run cs d).seen
unfolding run
Holds-run k at n [] d c w h = rw add-zero h
Holds-run k at n (x ∷ cs) d c w h =
    let s = apply-settings x d in
    let e : n + suc (length cs) ≡ suc n + length cs = omega arith in
    rw e (
      Holds-run k at (suc n) cs (apply x d) (omega (arith, s.0)) (rw s.1 w.1)
        (Holds-apply k at n x d (omega arith) w.0.0 w.0.1 h))

Holds-mark :
    (k : LinePosition) (at : ℕ) (d : ProcessedLineDeduper)
    → 0 < d.capacity
    → Holds k at 0 (mark_processed k at d).seen
unfolding mark_processed
Holds-mark k at d c = Holds-trim k at 0 d.capacity _ c (
  erase k (evict_expired at d).seen,
  at,
  [],
  refl,
  rw lookup-erase (ground (arith, same_position_iff k k)),
  omega arith,
  omega arith,
)

found_is_duplicate :
    (k : LinePosition) (at n now : ℕ) (d : ProcessedLineDeduper)
    → now ≤ at + d.ttl_seconds
    → Holds k at n d.seen
    → (is_duplicate k now d).0 ≡ true
unfolding is_duplicate
found_is_duplicate k at n now d t h =
    let (front, late, back, e, f, a, b) = Holds-evict k at n now d t h in
    ground (arith, lookup-found k late front back f)

-- A processed position is recognised as a duplicate up to `ttl` after it was marked, whatever
-- calls come in between, if these are fewer than the capacity and fall into the same time span.
pub processed_is_duplicate :
    (k : LinePosition) (at now : ℕ) (cs : List Call) (d : ProcessedLineDeduper)
    → length cs < d.capacity
    → All (Between at (at + d.ttl_seconds)) cs
    → now ≤ at + d.ttl_seconds
    → (is_duplicate k now (run cs (mark_processed k at d))).0 ≡ true
unfolding mark_processed
processed_is_duplicate k at now cs d c w t =
    let m = mark_processed k at d in
    found_is_duplicate k at (0 + length cs) now (run cs m) (omega (arith, (run-settings cs m).1))
      (Holds-run k at 0 cs m (omega arith) w (Holds-mark k at d (omega arith)))
