-- ===== src/Tests/Duplicates.antt =====
-- src/duplicate_set.c on concrete inputs.
use olsrd_hybrid_plc.Prelude.{
  ℕ, Bool, max, if◌then◌else◌, ◌≡◌, refl, true, false, ◌||◌, [], ◌∷◌, arith, ◌==◌, find,
}
use olsrd_hybrid_plc.Prelude.Int.{pos}
use olsrd_hybrid_plc.Duplicate.{
  DupEntry, DupSet, seqno_diff, judge, message_is_duplicate, cleanup_duplicate_entry,
  duplicate_vtime,
}
use olsrd_hybrid_plc.Duplicate.Window.{seen, judge-seen}
use olsrd_hybrid_plc.Duplicate.Replay.{first_message_twice}
use olsrd_hybrid_plc.Duplicate.Again.{message_again}
use olsrd_hybrid_plc.Clock.{get_timestamp, is_timed_out}
use olsrd_hybrid_plc.Duplicate.Restart.{judge_all, answers, restart_after}

-- An originator at 0x0a000001 whose newest number is 5, with 3 and 5 seen.
abbrev known_entry : DupEntry
known_entry = record {
  ip = 0x0a000001;
  seqnr = 5;
  too_low_counter = 0;
  array = 5;
  valid_until = 120000;
}

abbrev known_set : DupSet
known_set = (0x0a000001, known_entry) ∷ []

across_zero : seqno_diff 3 65534 ≡ pos 5
unfolding seqno_diff
across_zero = refl

new_number : (message_is_duplicate 7 known_set 0x0a000001 4).0 ≡ false
unfolding message_is_duplicate
new_number = refl

old_number : (message_is_duplicate 7 known_set 0x0a000001 3).0 ≡ true
unfolding message_is_duplicate
old_number = refl

judge-seen_example :
    ((judge known_entry 4).0 ≡ seen known_entry 4)
    × (seen (judge known_entry 4).1 3 ≡ (3 == 4 || seen known_entry 3))
unfolding seqno_diff judge
judge-seen_example =
    judge-seen known_entry 4 3 (omega arith) (omega arith) (omega arith) refl (omega arith)

-- A clean-up two minutes after the message removes the entry, and one before that does not.
abbrev answer_after : ℕ → Bool
answer_after cleaned =
    (message_is_duplicate 120010
      (cleanup_duplicate_entry cleaned (message_is_duplicate 7 known_set 0x0a000001 4).1) 0x0a000001
      4).0

in_time : (answer_after 120006 ≡ true) × (answer_after 120007 ≡ false)
unfolding message_is_duplicate cleanup_duplicate_entry
in_time = (refl, refl)

message_again_example : answer_after 120006 ≡ (
    if is_timed_out 120006 (max (known_entry.valid_until) (get_timestamp 7 duplicate_vtime))
    then false
    else true)
unfolding find message_is_duplicate
message_again_example =
    message_again 7 120006 120010 known_set 0x0a000001 4 known_entry refl (refl, tt) (omega arith)
      (omega arith) refl

first_message_twice_example :
    ((message_is_duplicate 1 [] 0x0a000002 8).0 ≡ false)
    × ((message_is_duplicate 2 (message_is_duplicate 1 [] 0x0a000002 8).1 0x0a000002 8).0 ≡ false)
    × ((message_is_duplicate 3
          (message_is_duplicate 2 (message_is_duplicate 1 [] 0x0a000002 8).1 0x0a000002 8).1
          0x0a000002
          8).0
        ≡ true)
unfolding find
first_message_twice_example = first_message_twice 1 2 3 [] 0x0a000002 8 refl (omega arith)

abbrev far_entry : DupEntry
far_entry = record known_entry { seqnr = 1000; too_low_counter = 14 }

restart_after_example :
    (answers far_entry (1 ∷ 2 ∷ []) ≡ true ∷ true ∷ [])
    × (judge (judge_all far_entry (1 ∷ 2 ∷ [])) 3
        ≡ (false, record far_entry { too_low_counter = 0; seqnr = 3; array = 1 }))
unfolding seqno_diff
restart_after_example = restart_after far_entry (1 ∷ 2 ∷ []) 3 (refl, (refl, (refl, tt))) refl
