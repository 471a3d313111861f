-- ===== src/Clock.antt =====
-- The millisecond clock of src/scheduler.c: 32-bit timestamps that wrap around. `now` is the
-- global `now_times`.
use olsrd_hybrid_plc.Prelude.{
  ℕ, ◌+◌, ◌-◌, ◌%◌, ◌^◌, ◌≤◌, ◌<◌, ◌≡◌, Bool, true, false, Bool-cases, ◌∙◌, inl, inr, ◌&&◌, ◌↔◌,
  arith, ltb, leb, if◌then◌else◌,
}
use olsrd_hybrid_plc.Prelude.Int.{ℤ, pos, negsuc, sub_ℕ}

unfoldable pub get_timestamp : ℕ → ℕ → ℕ
get_timestamp now s = (now + s) % 2 ^ 32

-- The conversion of 32 bits to int32_t.
abbrev to_int32 : ℕ → ℤ
to_int32 n = if ltb n (2 ^ 31) then pos n else negsuc (2 ^ 32 - 1 - n)

unfoldable pub get_time_due : ℕ → ℕ → ℤ
get_time_due now s =
    if ltb now s
    then (let diff = s - now in
        if ltb (2 ^ 31) diff then sub_ℕ 0 (2 ^ 32 - 1 - diff) else to_int32 diff)
    else (let diff = now - s in
        if ltb (2 ^ 31) diff then to_int32 (2 ^ 32 - 1 - diff) else sub_ℕ 0 diff)

unfoldable pub is_timed_out : ℕ → ℕ → Bool
is_timed_out now s = if ltb now s then ltb (2 ^ 31) (s - now) else leb (now - s) (2 ^ 31)

-- A timestamp taken `d` ms ahead has expired after `e` ms exactly when `d ≤ e`, for spans below
-- 2 ^ 31 ms and wherever the 32-bit clock wraps around in between.
pub is_timed_out-get_timestamp :
    (now d e : ℕ)
    → now < 2 ^ 32
    → d < 2 ^ 31
    → e < 2 ^ 31
    → (is_timed_out ((now + e) % 2 ^ 32) (get_timestamp now d) ≡ true) ↔ (d ≤ e)
unfolding is_timed_out get_timestamp
is_timed_out-get_timestamp now d e hn hd he = ground arith

-- The time due where the difference `n` of the timestamps, modulo 2 ^ 32, is small.
due_ahead : (now s n : ℕ) → s ≡ now + n → n < 2 ^ 31 → get_time_due now s ≡ pos n
unfolding get_time_due
due_ahead now s n e h = ground arith

due_behind : (now s n : ℕ) → now ≡ s + n → n < 2 ^ 31 → get_time_due now s ≡ sub_ℕ 0 n
unfolding get_time_due
due_behind now s n e h = ground arith

due_ahead_wrapped :
    (now s n : ℕ)
    → now < 2 ^ 32
    → now + n ≡ s + 2 ^ 32
    → n < 2 ^ 31
    → get_time_due now s ≡ pos (n - 1)
unfolding get_time_due
due_ahead_wrapped now s n hn e h = ground arith

due_behind_wrapped :
    (now s n : ℕ)
    → s < 2 ^ 32
    → s + n ≡ now + 2 ^ 32
    → n < 2 ^ 31
    → get_time_due now s ≡ sub_ℕ 0 (n - 1)
unfolding get_time_due
due_behind_wrapped now s n hn e h = ground arith

-- Where the present and the timestamp are on the same side of the wrap-around.
due_together :
    (x y d e : ℕ) → x + d ≡ y + e → d < 2 ^ 31 → e < 2 ^ 31 → get_time_due x y ≡ sub_ℕ d e
due_together x y d e h hd he = elim (Bool-cases (leb e d)) [
  | inl le ↦ rw le (due_ahead x y (d - e) (ground (arith, le, h)) (ground (arith, hd)))
  | inr gt ↦
      let same : sub_ℕ 0 (e - d) ≡ sub_ℕ d e = ground (arith, gt) in
      due_behind x y (e - d) (ground (arith, gt, h)) (ground (arith, he)) ∙ same
]

-- For spans below 2 ^ 31 ms the time due `e` ms after a timestamp `d` ms ahead was taken is exactly
-- d - e, except where the 32-bit clock wraps around between the present and the timestamp: there it is
-- one nearer to zero, before the timestamp and after it.
pub get_time_due-get_timestamp :
    (now d e : ℕ)
    → now < 2 ^ 32
    → d < 2 ^ 31
    → e < 2 ^ 31
    → get_time_due ((now + e) % 2 ^ 32) (get_timestamp now d) ≡ (
        if ltb (now + e) (2 ^ 32) && leb (2 ^ 32) (now + d)
        then pos (d - e - 1)
        else if ltb (now + d) (2 ^ 32) && leb (2 ^ 32) (now + e)
        then sub_ℕ 0 (e - d - 1)
        else sub_ℕ d e)
unfolding get_timestamp
get_time_due-get_timestamp now d e hn hd he =
    let x : ℕ = (now + e) % 2 ^ 32 in
    let y : ℕ = (now + d) % 2 ^ 32 in
    elim (Bool-cases (ltb (now + e) (2 ^ 32))) [
      | inl here ↦ elim (Bool-cases (ltb (now + d) (2 ^ 32))) [
        | inl there ↦
            let a : leb (2 ^ 32) (now + d) ≡ false = ground (arith, there) in
            let b : leb (2 ^ 32) (now + e) ≡ false = ground (arith, here) in
            rw (here, there, a, b) (due_together x y d e (ground (arith, here, there)) hd he)
        | inr there ↦
            let a : leb (2 ^ 32) (now + d) ≡ true = ground (arith, there) in
            rw (here, there, a)
              (due_ahead_wrapped x y (d - e) (omega arith) (ground (arith, here, there))
                (omega arith))
      ]
      | inr here ↦ elim (Bool-cases (ltb (now + d) (2 ^ 32))) [
        | inl there ↦
            let b : leb (2 ^ 32) (now + e) ≡ true = ground (arith, here) in
            rw (here, there, b)
              (due_behind_wrapped x y (e - d) (omega arith) (ground (arith, here, there))
                (omega arith))
        | inr there ↦ rw (here, there) (due_together x y d e (ground (arith, here, there)) hd he)
      ]
    ]
