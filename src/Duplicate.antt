-- ===== src/Duplicate.antt =====
-- src/duplicate_set.c: which messages have been processed already.
pub mod Seqno
pub mod Window
pub mod Replay
pub mod Again
pub mod Restart
use olsrd_hybrid_plc.Prelude.{
  ℕ, zero, suc, ◌+◌, ◌-◌, ◌*◌, ◌%◌, ◌^◌, Bool, true, false, Option, none, some, List, [], ◌∷◌,
  bit_and, bit_or, ltb, leb, ◌==◌, if◌then◌else◌, find, put,
}
use olsrd_hybrid_plc.Prelude.Int.{ℤ, pos, negsuc, neg_part, pos_part, ltb_ℤ, ◌-ℤ◌, ◌+ℤ◌}
use olsrd_hybrid_plc.Clock.{get_timestamp, is_timed_out}

abbrev pub dup_max_too_low : ℕ
dup_max_too_low = 16

abbrev pub duplicate_vtime : ℕ
duplicate_vtime = 120000

pub record DupEntry : Type 0 where
  pub ip : ℕ
  pub seqnr : ℕ
  pub too_low_counter : ℕ
  pub array : ℕ
  pub valid_until : ℕ

-- The AVL tree of the entries, as a store by originator.
abbrev pub DupSet : Type 0
DupSet = List (ℕ × DupEntry)

unfoldable pub cleanup_duplicates : ℕ → DupSet → DupSet
unfolding find put
cleanup_duplicates orig set = elim (find orig set) [
  | none ↦ set
  | some e ↦ put orig (record e { too_low_counter = dup_max_too_low - 2 }) set
]

-- `valid_until` is set by the caller.
unfoldable pub create_duplicate_entry : ℕ → ℕ → ℕ → DupEntry
create_duplicate_entry ip seqnr valid_until = record {
  ip = ip;
  seqnr = seqnr;
  too_low_counter = 0;
  array = 0;
  valid_until = valid_until;
}

-- The timer's callback.
unfoldable pub cleanup_duplicate_entry : ℕ → DupSet → DupSet
unfolding is_timed_out
cleanup_duplicate_entry now [] = []
cleanup_duplicate_entry now ((k, e) ∷ set) =
    let rest = cleanup_duplicate_entry now set in
    if is_timed_out now e.valid_until then rest else (k, e) ∷ rest

unfoldable pub seqno_diff : ℕ → ℕ → ℤ
unfolding ◌-ℤ◌ ◌+ℤ◌
seqno_diff seqno1 seqno2 =
    let diff = pos seqno1 -ℤ pos seqno2 in
    if ltb_ℤ (pos (2 ^ 15)) diff
    then diff -ℤ pos (2 ^ 16)
    else if ltb_ℤ diff (negsuc (2 ^ 15 - 1))
    then diff +ℤ pos (2 ^ 16)
    else diff

-- A number more than 31 below the newest one: blocked, or the start of a new sequence.
unfoldable pub too_low : DupEntry → ℕ → Bool × DupEntry
too_low e seqnr =
    let counter = (e.too_low_counter + 1) % 2 ^ 16 in
    if ltb dup_max_too_low counter
    then (false, record e { too_low_counter = 0; seqnr = seqnr; array = 1 })
    else (true, record e { too_low_counter = counter })

-- A number at most 31 below the newest one.
unfoldable pub in_window : DupEntry → ℕ → Bool × DupEntry
in_window e below =
    let bitmask = 2 ^ below in
    if bit_and e.array bitmask == 0
    then (false, record e { array = bit_or e.array bitmask })
    else (true, e)

-- A new newest number.
unfoldable pub advance : DupEntry → ℕ → ℕ → Bool × DupEntry
advance e seqnr diff =
    let shifted = if ltb diff 32 then (e.array * 2 ^ diff) % 2 ^ 32 else 0 in
    (false, record e { array = bit_or shifted 1; seqnr = seqnr })

unfoldable pub judge_diff : ℤ → DupEntry → ℕ → Bool × DupEntry
unfolding too_low in_window advance
judge_diff diff e seqnr =
    if ltb_ℤ diff (negsuc 30)
    then too_low e seqnr
    else if ltb_ℤ (pos 0) diff
    then advance (record e { too_low_counter = 0 }) seqnr (pos_part diff)
    else in_window (record e { too_low_counter = 0 }) (neg_part diff)

-- Whether a message is a duplicate, for an originator that is known, and the new entry.
unfoldable pub judge : DupEntry → ℕ → Bool × DupEntry
unfolding judge_diff seqno_diff
judge e seqnr = judge_diff (seqno_diff seqnr e.seqnr) e seqnr

-- "update timestamp"
unfoldable pub touch : DupEntry → ℕ → DupEntry
touch e valid_until =
    if ltb e.valid_until valid_until then record e { valid_until = valid_until } else e

-- `olsr_message_is_duplicate`, on the originator and the sequence number of the message's header.
unfoldable pub message_is_duplicate : ℕ → DupSet → ℕ → ℕ → Bool × DupSet
unfolding get_timestamp create_duplicate_entry touch judge find put
message_is_duplicate now set ip seqnr =
    let valid_until = get_timestamp now duplicate_vtime in
    elim (find ip set) [
      | none ↦ (false, put ip (create_duplicate_entry ip seqnr valid_until) set)
      | some e ↦ let (dup, e') = judge (touch e valid_until) seqnr in (dup, put ip e' set)
    ]
