-- ===== src/Pipeline/Deduper/Sound.antt =====
-- No line is taken for a duplicate that was not marked, and the cache stays bounded.
use avengers_fyp_is.Common.{
  ℕ, ◌≤◌, ◌<◌, ◌≡◌, inl, inr, refl, Bool, false, ◌||◌, List, [], ◌∷◌, ◌++◌, none, some, arith,
  length, length-append, trim, length-trim, ◌==◌, Bool-cases, Option-cases,
}
use avengers_fyp_is.Common.Dict.{Dict, lookup, contains, erase, lookup-erase, lookup-append}
use avengers_fyp_is.Pipeline.Deduper.Defs.{
  LinePosition, position_eq, same_position_iff, ProcessedLineDeduper, expire_from, evict_expired,
  move_to_end, is_duplicate, mark_processed,
}
use avengers_fyp_is.Pipeline.Deduper.Calls.{
  Call, check, mark, apply, run, apply-settings, length-erase,
}

absent-expire :
    (k : LinePosition) (now ttl : ℕ) (seen : Dict LinePosition ℕ)
    → lookup k seen ≡ none
    → lookup k (expire_from now ttl seen) ≡ none
unfolding expire_from
absent-expire k now ttl [] h = refl
absent-expire k now ttl ((j, at) ∷ seen) h = ground (arith, absent-expire k now ttl seen)

absent-trim :
    (k : LinePosition) (n : ℕ) (seen : Dict LinePosition ℕ)
    → lookup k seen ≡ none
    → lookup k (trim n seen) ≡ none
unfolding trim
absent-trim k n [] h = refl
absent-trim k n ((j, at) ∷ seen) h = ground (arith, absent-trim k n seen)

absent-renew :
    (k j : LinePosition) (time : ℕ) (seen : Dict LinePosition ℕ)
    → (k == j) ≡ false
    → lookup k seen ≡ none
    → lookup k (erase j seen ++ ((j, time) ∷ [])) ≡ none
absent-renew k j time seen ne h =
    let gone : lookup k (erase j seen) ≡ none = rw lookup-erase (rw ne h) in
    rw (lookup-append k j time (erase j seen) gone, ne) refl

absent-move :
    (k j : LinePosition) (seen : Dict LinePosition ℕ)
    → lookup k seen ≡ none
    → lookup k (move_to_end j seen) ≡ none
absent-move k j seen h = elim (Option-cases (lookup j seen)) [
  | inl absent ↦ rw (absent, move_to_end) h
  | inr (time, found) ↦
      rw (found, move_to_end) (absent-renew k j time seen (ground (arith, same_position_iff k j)) h)
]

abbrev pub marks : LinePosition → Call → Bool
marks k (check p now) = false
marks k (mark p now) = k == p

abbrev pub marked : LinePosition → List Call → Bool
marked k [] = false
marked k (c ∷ cs) = marks k c || marked k cs

absent-apply :
    (k : LinePosition) (c : Call) (d : ProcessedLineDeduper)
    → marks k c ≡ false
    → lookup k d.seen ≡ none
    → lookup k (apply c d).seen ≡ none
unfolding apply is_duplicate mark_processed
absent-apply k (check p now) d ne h =
    let gone = absent-expire k now d.ttl_seconds d.seen h in
    elim (Bool-cases (contains p (evict_expired now d).seen)) [
      | inl hit ↦ rw (hit, apply) (absent-move k p _ gone)
      | inr miss ↦ rw (miss, apply) gone
    ]
absent-apply k (mark p now) d ne h =
    absent-trim k d.capacity _
      (absent-renew k p now _ ne (absent-expire k now d.ttl_seconds d.seen h))

absent-run :
    (k : LinePosition) (cs : List Call) (d : ProcessedLineDeduper)
    → marked k cs ≡ false
    → lookup k d.seen ≡ none
    → lookup k (run cs d).seen ≡ none
unfolding run
absent-run k [] d ne h = h
absent-run k (c ∷ cs) d ne h =
    absent-run k cs (apply c d) (ground arith) (absent-apply k c d (ground arith) h)

-- A position that no call has marked, and that was not known before, is never taken for a
-- duplicate: no line is lost.
pub unseen_not_duplicate :
    (k : LinePosition) (now : ℕ) (cs : List Call) (d : ProcessedLineDeduper)
    → lookup k d.seen ≡ none
    → marked k cs ≡ false
    → (is_duplicate k now (run cs d)).0 ≡ false
unfolding is_duplicate
unseen_not_duplicate k now cs d h ne =
    let e = run cs d in ground (arith, absent-expire k now e.ttl_seconds e.seen, absent-run k cs d)

length-erase_found :
    (k : LinePosition) (at : ℕ) (seen : Dict LinePosition ℕ)
    → lookup k seen ≡ some at
    → length (erase k seen) < length seen
length-erase_found k at [] h = absurd (ground arith)
length-erase_found k at ((j, v) ∷ seen) h =
    ground (arith, length-erase_found k at seen, length-erase k seen)

length-expire :
    (now ttl : ℕ) (seen : Dict LinePosition ℕ) → length (expire_from now ttl seen) ≤ length seen
unfolding expire_from
length-expire now ttl [] = omega arith
length-expire now ttl ((j, at) ∷ seen) = ground (arith, length-expire now ttl seen)

length-move :
    (k : LinePosition) (seen : Dict LinePosition ℕ) → length (move_to_end k seen) ≤ length seen
length-move k seen = elim (Option-cases (lookup k seen)) [
  | inl absent ↦ rw (absent, move_to_end) (omega arith)
  | inr (time, found) ↦
      rw (found, move_to_end)
        (omega (
          arith,
          length-append {0} (erase k seen) ((k, time) ∷ []),
          length-erase_found k time seen found,
        ))
]

apply-bounded :
    (c : Call) (d : ProcessedLineDeduper)
    → length d.seen ≤ d.capacity
    → length (apply c d).seen ≤ d.capacity
unfolding apply is_duplicate mark_processed
apply-bounded (check p now) d h = elim (Bool-cases (contains p (evict_expired now d).seen)) [
  | inl hit ↦
      rw (hit, apply)
        (omega
          (arith, length-move p (evict_expired now d).seen, length-expire now d.ttl_seconds d.seen))
  | inr miss ↦ rw (miss, apply) (omega (arith, length-expire now d.ttl_seconds d.seen))
]
apply-bounded (mark p now) d h = length-trim d.capacity _

-- From a cache within its capacity, no sequence of calls takes it past the capacity.
pub run-bounded :
    (cs : List Call) (d : ProcessedLineDeduper)
    → length d.seen ≤ d.capacity
    → length (run cs d).seen ≤ d.capacity
unfolding run
run-bounded [] d h = h
run-bounded (c ∷ cs) d h =
    let s = apply-settings c d in
    omega
      (arith, run-bounded cs (apply c d) (omega (arith, apply-bounded c d h)), apply-bounded c d h)
