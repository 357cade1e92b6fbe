-- ===== src/Callbacks/Queue.antt =====
-- callbacks/queue.py: `DropOldestQueue`, on the library's `asyncio.Queue` as a list with a limit.
-- `asyncio.Queue` takes a limit of 0 as none.
use avengers_fyp_is.Common.{
  ℕ, Bool, true, false, ◌&&◌, List, [], ◌∷◌, ◌++◌, ltb, leb, length, if◌then◌else◌,
}

pub record DropOldestQueue (A : Type 0) : Type 0 where
  pub maxsize : ℕ
  pub items : List A

module _ {A : Type 0} where
  abbrev pub is_full : DropOldestQueue A → Bool
  is_full q = ltb 0 q.maxsize && leb q.maxsize (length q.items)

  abbrev without_first : List A → List A
  without_first [] = []
  without_first (x ∷ xs) = xs

  -- The second result says whether an item was dropped.
  unfoldable pub put_dropping_oldest : A → DropOldestQueue A → DropOldestQueue A × Bool
  put_dropping_oldest item q =
      if is_full q
      then (record q { items = without_first q.items ++ (item ∷ []) }, true)
      else (record q { items = q.items ++ (item ∷ []) }, false)
