-- ===== src/Sessions/Gaps.antt =====
-- parser/fix/seq_tracker.py: `SeqTracker`. `parse` is what `isdigit` and `int` make of a text: a
-- number, if it is one. The key of the session is an argument.
use text.Mathlib.TextEquality.{eq_iff}
use avengers_fyp_is.Common.{
  ℕ, ◌+◌, ◌-◌, ◌≤◌, ◌≡◌, refl, ◌∙◌, Bool, true, false, ◌||◌, String, List, [], ◌∷◌, Option, none,
  some, arith, ltb, nat_beq, length, string_eq, ◌==◌, if◌then◌else◌,
}
use avengers_fyp_is.Common.Dict.{Dict, lookup, insert, erase, lookup-insert}

pub record SeqGapEvent : Type 0 where
  pub session_key : String
  pub expected : ℕ
  pub actual : ℕ
  pub gap_size : ℕ
  pub is_regression : Bool

-- `SeqTracker._last_seq`
abbrev pub SeqTracker : Type 0
SeqTracker = Dict String ℕ

abbrev pub is_one_of : String → String → Option String → Bool
is_one_of a b none = false
is_one_of a b (some m) = m == a || m == b

-- The comparison at the end of `observe`.
unfoldable pub compare_seq : String → ℕ → ℕ → Option SeqGapEvent
compare_seq key expected current =
    if nat_beq current expected
    then none
    else if ltb current expected
    then some (record {
      session_key = key;
      expected = expected;
      actual = current;
      gap_size = 0;
      is_regression = true;
    })
    else some (record {
      session_key = key;
      expected = expected;
      actual = current;
      gap_size = current - expected;
      is_regression = false;
    })

module _ (parse : String → Option ℕ) where
  abbrev pub number_of : Option String → Option ℕ
  number_of none = none
  number_of (some text) = parse text

  abbrev observe_logon : String → Option ℕ → SeqTracker → SeqTracker
  observe_logon key none t = erase key t
  observe_logon key (some n) t = insert key n t

  abbrev observe_reset : String → Option ℕ → SeqTracker → SeqTracker
  observe_reset key none t = t
  observe_reset key (some n) t = insert key n t

  abbrev pub observe_number : String → Option ℕ → SeqTracker → SeqTracker × Option SeqGapEvent
  observe_number key none t = (t, none)
  observe_number key (some n) t = (
    insert key n t,
    elim (lookup key t) [ none ↦ none | some last ↦ compare_seq key (last + 1) n ],
  )

  unfoldable pub observe :
      Option String → Option String → String → SeqTracker → SeqTracker × Option SeqGapEvent
  observe msg_type seq_num key t =
      if is_one_of "Logon" "A" msg_type
      then (observe_logon key (number_of seq_num) t, none)
      else if is_one_of "SequenceReset" "4" msg_type
      then (observe_reset key (number_of seq_num) t, none)
      else observe_number key (number_of seq_num) t

pub record Message : Type 0 where
  pub msg_type : Option String
  pub seq_num : Option String

-- The messages of one session, in order, with what `observe` returns for each.
unfoldable pub observe_all :
    (String → Option ℕ)
    → String
    → List Message
    → SeqTracker
    → SeqTracker × List (Option SeqGapEvent)
observe_all parse key [] t = (t, [])
observe_all parse key (m ∷ ms) t =
    let (t', event) = observe parse m.msg_type m.seq_num key t in
    let (t'', events) = observe_all parse key ms t' in (t'', event ∷ events)

-- Numbered messages, none of them a logon or a reset, with rising numbers that end in `final`.
pub data IsRising (parse : String → Option ℕ) : ℕ → List Message → ℕ → Type 0 where
  rising_end : (last : ℕ) → IsRising parse last [] last
  rising_more :
      {last final : ℕ} (m : Message) (ms : List Message) (n : ℕ)
      → is_one_of "Logon" "A" m.msg_type ≡ false
      → is_one_of "SequenceReset" "4" m.msg_type ≡ false
      → number_of parse m.seq_num ≡ some n
      → last + 1 ≤ n
      → IsRising parse n ms final
      → IsRising parse last (m ∷ ms) final

abbrev pub missing : List (Option SeqGapEvent) → ℕ
missing [] = 0
missing (none ∷ events) = missing events
missing (some e ∷ events) = e.gap_size + missing events

abbrev gap_of : Option SeqGapEvent → ℕ
gap_of none = 0
gap_of (some e) = e.gap_size

missing-cons :
    (e : Option SeqGapEvent) (events : List (Option SeqGapEvent))
    → missing (e ∷ events) ≡ gap_of e + missing events
missing-cons none events = omega arith
missing-cons (some e) events = refl

gap_of-compare_seq :
    (key : String) (last n : ℕ) → gap_of (compare_seq key (last + 1) n) ≡ n - (last + 1)
unfolding compare_seq
gap_of-compare_seq key last n = ground arith

found_again : (key : String) (n : ℕ) (t : SeqTracker) → lookup key (insert key n t) ≡ some n
found_again key n t = lookup-insert key key n t ∙ ground (arith, eq_iff key key)

observe-numbered :
    (parse : String → Option ℕ) (m : Message) (last n : ℕ) (key : String) (t : SeqTracker)
    → is_one_of "Logon" "A" m.msg_type ≡ false
    → is_one_of "SequenceReset" "4" m.msg_type ≡ false
    → number_of parse m.seq_num ≡ some n
    → lookup key t ≡ some last
    → observe parse m.msg_type m.seq_num key t ≡ (insert key n t, compare_seq key (last + 1) n)
unfolding observe
observe-numbered parse m last n key t no_logon no_reset numbered known =
    rw (no_logon, no_reset, numbered, observe_number, known) refl

-- For a session whose last number is `last`, over any run of messages with rising numbers, none of them a
-- Logon or a SequenceReset (which set the number and report nothing), the
-- reported gaps add up to exactly the numbers that were skipped: `last`, plus one for each message,
-- plus the sizes of the gaps, is the number of the last message, which the tracker knows then.
pub gaps_account :
    (parse : String → Option ℕ) (key : String) (ms : List Message) (last final : ℕ) (t : SeqTracker)
    → lookup key t ≡ some last
    → IsRising parse last ms final
    → let (t', events) = observe_all parse key ms t in
      (last + length ms + missing events ≡ final) × (lookup key t' ≡ some final)
unfolding observe_all
gaps_account parse key [] last _ t known (rising_end _) = (omega arith, known)
gaps_account parse key (m ∷ ms) last final t known (rising_more _ _ n a b c above rest) =
    let t' = insert key n t in
    let later = gaps_account parse key ms n final t' (found_again key n t) rest in
    rw (observe_all, observe-numbered parse m last n key t a b c known)
      (
        omega (
          arith,
          later.0,
          missing-cons (compare_seq key (last + 1) n) (observe_all parse key ms t').1,
          gap_of-compare_seq key last n,
          above,
        ),
        later.1,
      )
