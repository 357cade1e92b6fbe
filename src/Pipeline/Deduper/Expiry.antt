-- ===== src/Pipeline/Deduper/Expiry.antt =====
-- What the order of the entries means for expiry: a hit moves an entry to the end and keeps its
-- time, so the loop of `_evict_expired` can stop before an entry that has expired.
use avengers_fyp_is.Common.{ℕ, ◌+◌, ◌≤◌, ◌<◌, ◌≡◌, ◌≢◌, true, [], ◌∷◌, arith, trim}
use avengers_fyp_is.Pipeline.Deduper.Defs.{
  LinePosition, same_position_iff, ProcessedLineDeduper, expire_from, is_duplicate, mark_processed,
}
use avengers_fyp_is.Pipeline.Deduper.Calls.{check, mark, apply, run}

-- After marking `p` and then `q`, a hit on `p` lets `p` count as a duplicate as long as `q` has not
-- expired, also when more than `ttl` has passed since `p` was marked.
pub stale_duplicate :
    (p q : LinePosition) (first second hit now : ℕ) (d : ProcessedLineDeduper)
    → p ≢ q
    → d.seen ≡ []
    → 2 ≤ d.capacity
    → first ≤ second
    → second ≤ hit
    → hit ≤ first + d.ttl_seconds
    → first + d.ttl_seconds < now
    → now ≤ second + d.ttl_seconds
    → (is_duplicate p now (run (mark p first ∷ mark q second ∷ check p hit ∷ []) d)).0 ≡ true
unfolding is_duplicate mark_processed run apply expire_from trim
stale_duplicate p q first second hit now d ne e c a b h s t =
    ground (arith, same_position_iff p q, same_position_iff p p, same_position_iff q p)
