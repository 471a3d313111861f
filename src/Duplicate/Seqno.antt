-- ===== src/Duplicate/Seqno.antt =====
-- Differences of 16-bit sequence numbers.
use olsrd_hybrid_plc.Prelude.{ℕ, ◌+◌, ◌-◌, ◌%◌, ◌^◌, ◌<◌, ◌≡◌, arith}
use olsrd_hybrid_plc.Prelude.Int.{pos, negsuc, pos_part, neg_part, ◌≤ℤ◌}
use olsrd_hybrid_plc.Duplicate.{seqno_diff}

-- The difference lies between -2 ^ 15 and 2 ^ 15, and leads from the second number to the first
-- modulo 2 ^ 16.
pub seqno_diff_lem :
    (s1 s2 : ℕ)
    → s1 < 2 ^ 16
    → s2 < 2 ^ 16
    → (negsuc (2 ^ 15 - 1) ≤ℤ seqno_diff s1 s2)
      × (seqno_diff s1 s2 ≤ℤ pos (2 ^ 15))
      × ((s2 + pos_part (seqno_diff s1 s2)) % 2 ^ 16 ≡ (s1 + neg_part (seqno_diff s1 s2)) % 2 ^ 16)
unfolding seqno_diff
seqno_diff_lem s1 s2 h1 h2 = ground arith

pub seqno_diff_self : (s : ℕ) → seqno_diff s s ≡ pos 0
unfolding seqno_diff
seqno_diff_self s = ground arith
