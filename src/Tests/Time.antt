-- ===== src/Tests/Time.antt =====
-- src/mantissa.c and the clock of src/scheduler.c on concrete inputs.
use olsrd_hybrid_plc.Prelude.{
  ◌+◌, ◌-◌, ◌*◌, ◌%◌, ◌^◌, ◌≤◌, ◌≡◌, refl, true, ◌&&◌, ltb, leb, if◌then◌else◌, ◌↔◌, arith,
}
use olsrd_hybrid_plc.Prelude.Int.{pos, negsuc, sub_ℕ}
use olsrd_hybrid_plc.Mantissa.{reltime_to_me, me_to_reltime}
use olsrd_hybrid_plc.Mantissa.Rounding.{reltime_to_me-IsClose}
use olsrd_hybrid_plc.Mantissa.Bytes.{reltime_to_me-me_to_reltime}
use olsrd_hybrid_plc.Clock.{
  get_timestamp, get_time_due, is_timed_out, is_timed_out-get_timestamp, get_time_due-get_timestamp,
}

two_seconds : reltime_to_me 2000 ≡ 0x05
unfolding reltime_to_me
two_seconds = refl

-- 300 s are announced as 288 s.
five_minutes : me_to_reltime (reltime_to_me 300000) ≡ 288000
unfolding reltime_to_me me_to_reltime
five_minutes = refl

reltime_to_me-IsClose_example :
    (me_to_reltime (reltime_to_me 300000) ≤ 300000)
    × (16 * (300000 - me_to_reltime (reltime_to_me 300000)) ≤ 300016)
reltime_to_me-IsClose_example = reltime_to_me-IsClose 300000 (omega arith) (omega arith)

reltime_to_me-me_to_reltime_example : reltime_to_me (me_to_reltime 0x86) ≡ 0x86
reltime_to_me-me_to_reltime_example = reltime_to_me-me_to_reltime 0x86 (omega arith) (omega arith)

-- The clock wraps around 100 ms after the timestamp was taken.
is_timed_out-get_timestamp_example :
    (is_timed_out ((4294967196 + 500) % 2 ^ 32) (get_timestamp 4294967196 300) ≡ true) ↔ (300 ≤ 500)
is_timed_out-get_timestamp_example =
    is_timed_out-get_timestamp 4294967196 300 500 (omega arith) (omega arith) (omega arith)

get_time_due-get_timestamp_example :
    get_time_due ((4294967196 + 50) % 2 ^ 32) (get_timestamp 4294967196 300) ≡ (
      if ltb (4294967196 + 50) (2 ^ 32) && leb (2 ^ 32) (4294967196 + 300)
      then pos (300 - 50 - 1)
      else if ltb (4294967196 + 300) (2 ^ 32) && leb (2 ^ 32) (4294967196 + 50)
      then sub_ℕ 0 (50 - 300 - 1)
      else sub_ℕ 300 50)
get_time_due-get_timestamp_example =
    get_time_due-get_timestamp 4294967196 300 50 (omega arith) (omega arith) (omega arith)

-- The wrap-around costs a millisecond, and the greatest difference changes its sign.
one_less_due : get_time_due (4294967246) 200 ≡ pos 249
unfolding get_time_due
one_less_due = refl

half_the_clock : get_time_due 5 2147483653 ≡ negsuc 2147483647
unfolding get_time_due
half_the_clock = refl
