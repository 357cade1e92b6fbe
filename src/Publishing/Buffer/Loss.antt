-- ===== src/Publishing/Buffer/Loss.antt =====
-- The buffer's losses, one after the other: evicting as items come is evicting from all of them.
use native.Mathlib.Nat.{zero-add, add-zero}
use avengers_fyp_is.Common.{
  ℕ, zero, suc, ◌+◌, ◌-◌, ◌≤◌, ◌<◌, ◌≡◌, refl, sym, ap, ◌∙◌, List, [], ◌∷◌, ◌++◌, arith, length,
  drop, inl, inr, ltb, ltb→lt, Bool-cases, sum_by-append,
}
use avengers_fyp_is.Publishing.Buffer.Defs.{PendingItem, sizes}
use avengers_fyp_is.Publishing.Buffer.Contents.{EvictsOldest}

module _ {P : Type 0} where
  pub sizes-append : (xs ys : List (PendingItem P)) → sizes (xs ++ ys) ≡ sizes xs + sizes ys
  sizes-append xs ys = sum_by-append (λ (i : PendingItem P). i.size_bytes) xs ys

  -- Where something is left behind `k` items, there are more than `k`.
  drop_room : (k m : ℕ) (items : List (PendingItem P)) → m < sizes (drop k items) → k < length items
  drop_room zero m [] h = absurd (omega arith)
  drop_room (suc k) m [] h = absurd (omega arith)
  drop_room zero m (x ∷ items) h = omega arith
  drop_room (suc k) m (x ∷ items) h = omega (arith, drop_room k m items h)

  evicted_room :
      (m d : ℕ) (all kept : List (PendingItem P)) → EvictsOldest m all kept d → d ≤ length all
  evicted_room m zero all kept v = omega arith
  evicted_room m (suc d) all kept v = omega (arith, drop_room d m all (v.needed d (omega arith)))

  drop-append :
      (d : ℕ) (all more : List (PendingItem P))
      → d ≤ length all
      → drop d (all ++ more) ≡ drop d all ++ more
  drop-append zero all more h = refl
  drop-append (suc d) [] more h = absurd (omega arith)
  drop-append (suc d) (x ∷ all) more h = drop-append d all more (omega arith)

  drop-drop : (d k : ℕ) (all : List (PendingItem P)) → drop k (drop d all) ≡ drop (d + k) all
  drop-drop zero k all = rw zero-add refl
  drop-drop (suc d) zero [] = rw add-zero refl
  drop-drop (suc d) (suc k) [] = rw (later d k) refl
    where
      later : (d k : ℕ) → suc d + suc k ≡ suc (d + suc k)
      later d k = omega arith
  drop-drop (suc d) k (x ∷ all) = drop-drop d k all ∙ rw (later d k) refl
    where
      later : (d k : ℕ) → suc d + k ≡ suc (d + k)
      later d k = omega arith

  -- Evicting, and once more after more items have come, drops no more than evicting at the end.
  pub EvictsOldest-then :
      (m : ℕ) (all kept more kept' : List (PendingItem P)) (d d' : ℕ)
      → EvictsOldest m all kept d
      → EvictsOldest m (kept ++ more) kept' d'
      → EvictsOldest m (all ++ more) kept' (d + d')
  EvictsOldest-then m all kept more kept' d d' a b = record {
    oldest_first = b.oldest_first ∙ behind d';
    needed = needed_at;
  }
    where
      behind : (k : ℕ) → drop k (kept ++ more) ≡ drop (d + k) (all ++ more)
      behind k =
          ap (λ l. drop k l)
            (ap (λ l. l ++ more) a.oldest_first
              ∙ sym (drop-append d all more (evicted_room m d all kept a)))
          ∙ drop-drop d k (all ++ more)

      needed_at : (k : ℕ) → k < d + d' → m < sizes (drop k (all ++ more))
      needed_at k h = elim (Bool-cases (ltb k d)) [
        | inl early ↦
            let over = a.needed k (ltb→lt k d early) in
            let whole =
              ap sizes (drop-append k all more (omega (arith, drop_room k m all over)))
              ∙ sizes-append (drop k all) more in
            omega (arith, over, whole)
        | inr late ↦
            let place : d ≤ k = ground (arith, late) in
            let e : d + (k - d) ≡ k = omega arith in
            let over = b.needed (k - d) (omega arith) in
            let moved = ap sizes (behind (k - d) ∙ ap (λ n. drop n (all ++ more)) e) in
            omega (arith, over, moved)
      ]
