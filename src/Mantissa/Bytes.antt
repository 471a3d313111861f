-- ===== src/Mantissa/Bytes.antt =====
-- Which bytes survive decoding and encoding.
use olsrd_hybrid_plc.Prelude.{
  ℕ, ◌%◌, ◌≤◌, ◌<◌, ◌≡◌, refl, Bool, true, ◌||◌, arith, ltb, ◌==◌, every_below, every_below_at,
}
use olsrd_hybrid_plc.Mantissa.{reltime_to_me, me_to_reltime}

survives : ℕ → Bool
survives me = ltb (me % 16) 5 || (reltime_to_me (me_to_reltime me) == me)

table : every_below survives 256 ≡ true
unfolding every_below survives reltime_to_me me_to_reltime
table = refl

-- A byte whose exponent, the low four bits, is at least 5 is what its time is encoded as.
pub reltime_to_me-me_to_reltime :
    (me : ℕ) → me < 256 → 5 ≤ me % 16 → reltime_to_me (me_to_reltime me) ≡ me
reltime_to_me-me_to_reltime me h high =
    unfold survives in ground (arith, every_below_at survives 256 me h table)
