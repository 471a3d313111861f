-- ===== src/Tc/Seqno.antt =====
-- The windows of sequence numbers that wrap around at 16 bits.
use olsrd_hybrid_plc.Prelude.{
  ℕ, ◌+◌, ◌-◌, ◌%◌, ◌^◌, ◌<◌, ◌≡◌, ◌≢◌, true, false, arith, ltb, leb, if◌then◌else◌,
}
use olsrd_hybrid_plc.Prelude.Int.{pos, sub_ℕ}
use olsrd_hybrid_plc.Tc.{seq_inrange_low, seq_inrange_high, seqno_greater_than}

-- For numbers of 16 bits, the test for the window that ends at `s` is true exactly of the `w` numbers
-- up to and with `s`, counted with the wrap around.
pub seq_inrange_high-past :
    (s w seq : ℕ)
    → s < 2 ^ 16
    → w < 2 ^ 16
    → seq < 2 ^ 16
    → seq_inrange_high (sub_ℕ s w) (pos s) seq ≡ ltb ((s + 2 ^ 16 - seq) % 2 ^ 16) w
unfolding seq_inrange_high
seq_inrange_high-past s w seq hs hw hq = ground arith

-- For numbers of 16 bits, the test for the window that starts at `s` is true exactly of the `w`
-- numbers that follow `s`, counted with the wrap around.
pub seq_inrange_high-future :
    (s w seq : ℕ)
    → s < 2 ^ 16
    → 0 < w
    → w < 2 ^ 16
    → seq < 2 ^ 16
    → seq_inrange_high (pos s) (pos (s + w)) seq
      ≡ (let ahead = (seq + 2 ^ 16 - s) % 2 ^ 16 in if ltb 0 ahead then leb ahead w else false)
unfolding seq_inrange_high
seq_inrange_high-future s w seq hs pos_w hw hq = ground arith

-- The window of `w` numbers from `s` on.
pub seq_inrange_low-future :
    (s w seq : ℕ)
    → s < 2 ^ 16
    → w < 2 ^ 16
    → seq < 2 ^ 16
    → seq_inrange_low (pos s) (pos (s + w)) seq ≡ ltb ((seq + 2 ^ 16 - s) % 2 ^ 16) w
unfolding seq_inrange_low
seq_inrange_low-future s w seq hs hw hq = ground arith

-- Of two different sequence numbers exactly one is greater than the other.
pub seqno_greater_than-flip :
    (s1 s2 : ℕ)
    → s1 < 2 ^ 16
    → s2 < 2 ^ 16
    → s1 ≢ s2
    → seqno_greater_than s1 s2 ≡ (if seqno_greater_than s2 s1 then false else true)
unfolding seqno_greater_than
seqno_greater_than-flip s1 s2 h1 h2 ne = ground arith

-- A sequence number that is counted up by less than half of the range is greater than it was, and not
-- the other way round.
pub seqno_greater_than-ahead :
    (s d : ℕ)
    → s < 2 ^ 16
    → 0 < d
    → d < 2 ^ 15
    → (seqno_greater_than ((s + d) % 2 ^ 16) s ≡ true)
      × (seqno_greater_than s ((s + d) % 2 ^ 16) ≡ false)
unfolding seqno_greater_than
seqno_greater_than-ahead s d h pos_d half = (ground arith, ground arith)
