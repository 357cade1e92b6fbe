-- ===== src/Runtime/Counters.antt =====
-- common/self_metrics.py: `CounterRegistry`.
use avengers_fyp_is.Common.{
  ℕ, zero, suc, ◌+◌, ◌≡◌, String, Option, none, some, arith, string_eq, ◌==◌, if◌then◌else◌,
}
use text.Mathlib.TextEquality.{eq_iff}
use avengers_fyp_is.Common.Dict.{Dict, lookup, insert, lookup-insert}

abbrev pub CounterRegistry : Type 0
CounterRegistry = Dict String ℕ

abbrev pub value_or_zero : Option ℕ → ℕ
value_or_zero none = 0
value_or_zero (some n) = n

-- `self._counters.get(name, 0)`
unfoldable pub count_of : String → CounterRegistry → ℕ
count_of name c = value_or_zero (lookup name c)

unfoldable pub increment : String → ℕ → CounterRegistry → CounterRegistry
increment name amount c = insert name (value_or_zero (lookup name c) + amount) c

-- A hook that increments by one, called once for each dropped item.
unfoldable pub increment_times : ℕ → String → CounterRegistry → CounterRegistry
increment_times zero name c = c
increment_times (suc n) name c = increment_times n name (increment name 1 c)

pub count_of-increment :
    (name other : String) (amount : ℕ) (c : CounterRegistry)
    → count_of other (increment name amount c)
      ≡ (if other == name then count_of name c + amount else count_of other c)
unfolding count_of increment
count_of-increment name other amount c = rw lookup-insert (ground (arith, eq_iff other name))

pub count_of-increment_times :
    (n : ℕ) (name other : String) (c : CounterRegistry)
    → count_of other (increment_times n name c)
      ≡ (if other == name then count_of name c + n else count_of other c)
unfolding increment_times
count_of-increment_times zero name other c = ground (arith, eq_iff other name)
count_of-increment_times (suc n) name other c = ground (
  arith,
  eq_iff other name,
  eq_iff name name,
  count_of-increment name other 1 c,
  count_of-increment name name 1 c,
  count_of-increment_times n name other (increment name 1 c),
)
