-- ===== src/Duplicate/Window.antt =====
-- The array of an entry, as the set of the numbers that were seen.
use olsrd_hybrid_plc.Prelude.{
  ℕ, zero, suc, ◌+◌, ◌-◌, ◌*◌, ◌%◌, ◌^◌, ◌<◌, ◌≡◌, refl, Bool, true, false, ◌&&◌, ◌||◌, arith, ltb,
  ◌==◌, if◌then◌else◌, bit_or, bit, bit-lt-two, bit-bit_or, bit-shl, bit-shl_low, bit-mod,
  bit-pow_self, bit-pow_ne, bit_and-pow, dec_lt, ℕ_discrete, ap,
}
use olsrd_hybrid_plc.Prelude.Int.{ℤ, pos, negsuc, pos_part, neg_part, ltb_ℤ, ◌≤ℤ◌}
use olsrd_hybrid_plc.Duplicate.Seqno.{seqno_diff_lem}
use olsrd_hybrid_plc.Duplicate.{DupEntry, seqno_diff, in_window, advance, judge, judge_diff}

-- How far `n` lies below the newest number.
abbrev pub offset : ℕ → ℕ → ℕ
offset newest n = (newest + 2 ^ 16 - n) % 2 ^ 16

unfoldable pub seen : DupEntry → ℕ → Bool
seen e n = ltb (offset e.seqnr n) 32 && (bit e.array (offset e.seqnr n) == 1)

bit-set : (a k j : ℕ) → bit (bit_or a (2 ^ k)) j ≡ (if j == k then 1 else bit a j)
bit-set a k j = elim (ℕ_discrete k j) [
  | yes e ↦
      ground (arith, bit-bit_or a (2 ^ k) j, bit-pow_self k, ap (bit (2 ^ k)) e, bit-lt-two a j)
  | no n ↦ ground (arith, bit-bit_or a (2 ^ k) j, bit-pow_ne k j n)
]

in_window_lem :
    (e : DupEntry) (k j : ℕ)
    → ((in_window e k).0 ≡ (bit e.array k == 1))
      × (bit (in_window e k).1.array j ≡ (if j == k then 1 else bit e.array j))
      × ((in_window e k).1.seqnr ≡ e.seqnr)
unfolding in_window
in_window_lem e k j =
    ground (arith, bit_and-pow e.array k, bit-set e.array k j, bit-lt-two e.array k)

shifted_lem :
    (a d j : ℕ) → j < 32 → bit ((a * 2 ^ d) % 2 ^ 32) j ≡ (if ltb j d then 0 else bit a (j - d))
shifted_lem a d j h = elim (dec_lt j d) [
  | yes p ↦ ground (arith, bit-mod (a * 2 ^ d) 32 j h, bit-shl_low a d j p)
  | no p ↦
      let e : d + (j - d) ≡ j = omega arith in
      ground (arith, bit-mod (a * 2 ^ d) 32 j h, bit-shl a d (j - d), ap (bit (a * 2 ^ d)) e)
]

zero_bits : (j : ℕ) → bit 0 j ≡ 0
zero_bits zero = refl
zero_bits (suc j) = zero_bits j

advance_lem :
    (e : DupEntry) (s d j : ℕ)
    → j < 32
    → ((advance e s d).0 ≡ false)
      × (bit (advance e s d).1.array j
          ≡ (if j == 0 then 1 else if ltb j d then 0 else bit e.array (j - d)))
      × ((advance e s d).1.seqnr ≡ s)
unfolding advance
advance_lem e s d j h = ground (
  arith,
  shifted_lem e.array d j h,
  bit-set ((e.array * 2 ^ d) % 2 ^ 32) 0 j,
  bit-set 0 0 j,
  zero_bits j,
)

-- A number `k` below the newest one.
back :
    (e : DupEntry) (s n k : ℕ)
    → e.seqnr < 2 ^ 16
    → s < 2 ^ 16
    → n < 2 ^ 16
    → offset e.seqnr s ≡ k
    → k < 32
    → offset (in_window e k).1.seqnr n < 32
    → ((in_window e k).0 ≡ seen e s) × (seen (in_window e k).1 n ≡ (n == s || seen e n))
unfolding seen
back e s n k he hs hn at low window =
    let (answer, digits, newest) = in_window_lem e k (offset e.seqnr n) in
    let near : offset e.seqnr n < 32 = rw newest at window in
    (ground arith, rw newest (rw digits (ground arith)))

-- A number `d` above the newest one.
ahead :
    (e : DupEntry) (s n d : ℕ)
    → e.seqnr < 2 ^ 16
    → s < 2 ^ 16
    → n < 2 ^ 16
    → s ≡ (e.seqnr + d) % 2 ^ 16
    → 0 < d
    → d < 2 ^ 15 + 1
    → offset s n < 32
    → ((advance e s d).0 ≡ seen e s) × (seen (advance e s d).1 n ≡ (n == s || seen e n))
unfolding seen
ahead e s n d he hs hn above pos_d bound window =
    let (answer, digits, newest) = advance_lem e s d (offset s n) window in
    (rw answer (ground arith), rw newest (rw digits (ground arith)))

judge_diff-seen :
    (e : DupEntry) (s n : ℕ) (d : ℤ)
    → e.seqnr < 2 ^ 16
    → s < 2 ^ 16
    → n < 2 ^ 16
    → ltb_ℤ d (negsuc 30) ≡ false
    → d ≤ℤ pos (2 ^ 15)
    → (e.seqnr + pos_part d) % 2 ^ 16 ≡ (s + neg_part d) % 2 ^ 16
    → offset (judge_diff d e s).1.seqnr n < 32
    → ((judge_diff d e s).0 ≡ seen e s) × (seen (judge_diff d e s).1 n ≡ (n == s || seen e n))
unfolding judge_diff seen
judge_diff-seen e s n (pos zero) he hs hn near high same =
    back (record e { too_low_counter = 0 }) s n 0 he hs hn (omega arith) (omega arith)
judge_diff-seen e s n (pos (suc p)) he hs hn near high same =
    let above : ltb_ℤ (pos 0) (pos (suc p)) ≡ true = ground arith in
    rw (near, above)
      (ahead (record e { too_low_counter = 0 }) s n (suc p) he hs hn (omega arith) (omega arith)
        (omega arith))
judge_diff-seen e s n (negsuc m) he hs hn near high same =
    let below : ltb_ℤ (pos 0) (negsuc m) ≡ false = ground arith in
    let low : m < 31 = ground arith in
    rw (near, below)
      (back (record e { too_low_counter = 0 }) s n (suc m) he hs hn (omega arith) (omega arith))

-- For a number that is at most 31 below the newest one, `judge` is membership and insertion in the
-- set of seen numbers: a message is a duplicate exactly when its number was seen, and afterwards the
-- numbers seen, within 32 of the newest one, are those before and the message's own.
pub judge-seen :
    (e : DupEntry) (s n : ℕ)
    → e.seqnr < 2 ^ 16
    → s < 2 ^ 16
    → n < 2 ^ 16
    → ltb_ℤ (seqno_diff s e.seqnr) (negsuc 30) ≡ false
    → offset (judge e s).1.seqnr n < 32
    → ((judge e s).0 ≡ seen e s) × (seen (judge e s).1 n ≡ (n == s || seen e n))
unfolding judge
judge-seen e s n he hs hn near window =
    let (_, high, same) = seqno_diff_lem s e.seqnr hs he in
    judge_diff-seen e s n (seqno_diff s e.seqnr) he hs hn near high same window
