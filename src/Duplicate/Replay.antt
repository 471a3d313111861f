-- ===== src/Duplicate/Replay.antt =====
-- A message that arrives twice.
use olsrd_hybrid_plc.Prelude.{
  ℕ, ◌^◌, ◌<◌, ◌≡◌, refl, ◌∙◌, ◌⊎◌, inl, inr, true, false, none, some, arith, ltb, find, put,
  find-put, Bool-cases, ==_refl,
}
use olsrd_hybrid_plc.Prelude.Int.{negsuc, ltb_ℤ}
use olsrd_hybrid_plc.Clock.{get_timestamp}
use olsrd_hybrid_plc.Duplicate.{
  DupEntry, DupSet, seqno_diff, judge_diff, judge, too_low, create_duplicate_entry,
  message_is_duplicate, duplicate_vtime, touch,
}
use olsrd_hybrid_plc.Duplicate.Seqno.{seqno_diff_lem}
use olsrd_hybrid_plc.Duplicate.Window.{offset, seen, judge-seen}

pub judge-seqnr :
    (e : DupEntry) (s : ℕ) → ((judge e s).1.seqnr ≡ e.seqnr) ⊎ ((judge e s).1.seqnr ≡ s)
unfolding judge_diff judge
judge-seqnr e s = ground arith

offset_self : (n : ℕ) → offset n n < 32
offset_self n = omega arith

near-of-offset :
    (n s : ℕ)
    → n < 2 ^ 16
    → s < 2 ^ 16
    → offset n s < 32
    → ltb_ℤ (seqno_diff s n) (negsuc 30) ≡ false
unfolding seqno_diff
near-of-offset n s hn hs h = ground arith

judge-window :
    (e : DupEntry) (s : ℕ)
    → e.seqnr < 2 ^ 16
    → s < 2 ^ 16
    → ltb_ℤ (seqno_diff s e.seqnr) (negsuc 30) ≡ false
    → offset (judge e s).1.seqnr s < 32
unfolding judge_diff judge
judge-window e s he hs near = ground (arith, seqno_diff_lem s e.seqnr hs he)

seen-window : (e : DupEntry) (s : ℕ) → seen e s ≡ true → offset e.seqnr s < 32
unfolding seen
seen-window e s h = ground arith

-- A number that was seen is a duplicate.
pub judge-of-seen :
    (e : DupEntry) (s : ℕ) → e.seqnr < 2 ^ 16 → s < 2 ^ 16 → seen e s ≡ true → (judge e s).0 ≡ true
judge-of-seen e s he hs h =
    let near = near-of-offset e.seqnr s he hs (seen-window e s h) in
    let newest : (judge e s).1.seqnr < 2 ^ 16 = ground (arith, judge-seqnr e s) in
    (judge-seen e s (judge e s).1.seqnr he hs newest near (offset_self _)).0 ∙ h

pub judge-low :
    (e : DupEntry) (s : ℕ)
    → ltb_ℤ (seqno_diff s e.seqnr) (negsuc 30) ≡ true
    → judge e s ≡ too_low e s
unfolding judge
judge-low e s low = rw low

too_low-restart :
    (e : DupEntry) (s : ℕ)
    → (too_low e s).0 ≡ false
    → ((too_low e s).1.seqnr ≡ s) × ((too_low e s).1.array ≡ 1)
unfolding too_low
too_low-restart e s h = ground arith

seen_newest : (e : DupEntry) (s : ℕ) → e.seqnr ≡ s → e.array ≡ 1 → seen e s ≡ true
unfolding seen
seen_newest e s p q = let z : offset s s ≡ 0 = omega arith in rw (p, q, z) refl

restart-seen :
    (e : DupEntry) (s : ℕ)
    → s < 2 ^ 16
    → ltb_ℤ (seqno_diff s e.seqnr) (negsuc 30) ≡ true
    → (judge e s).0 ≡ false
    → seen (judge e s).1 s ≡ true
restart-seen e s hs low h =
    let eq = judge-low e s low in
    let (p, q) = too_low-restart e s (rw eq at h) in rw eq (seen_newest (too_low e s).1 s p q)

-- A number that was accepted is seen.
pub seen-judge :
    (e : DupEntry) (s : ℕ)
    → e.seqnr < 2 ^ 16
    → s < 2 ^ 16
    → (judge e s).0 ≡ false
    → seen (judge e s).1 s ≡ true
seen-judge e s he hs h = elim (Bool-cases (ltb_ℤ (seqno_diff s e.seqnr) (negsuc 30))) [
  | inl low ↦ restart-seen e s hs low h
  | inr near ↦ ground (arith, judge-seen e s s he hs hs near (judge-window e s he hs near))
]

-- Whatever an entry accepts, it blocks when it arrives again.
judge_twice :
    (e : DupEntry) (s : ℕ)
    → e.seqnr < 2 ^ 16
    → s < 2 ^ 16
    → (judge e s).0 ≡ false
    → (judge (judge e s).1 s).0 ≡ true
judge_twice e s he hs h =
    judge-of-seen (judge e s).1 s (ground (arith, judge-seqnr e s)) hs (seen-judge e s he hs h)

pub touch-seqnr : (e : DupEntry) (v : ℕ) → (touch e v).seqnr ≡ e.seqnr
unfolding touch
touch-seqnr e v = ground arith

pub seen-touch : (e : DupEntry) (v s : ℕ) → seen (touch e v) s ≡ seen e s
unfolding touch seen
seen-touch e v s = elim (Bool-cases (ltb e.valid_until v)) [
  | inl later ↦ rw later
  | inr not_later ↦ rw not_later
]

-- What the call does for an originator that is in the set, and for one that is not.
pub message_known :
    (now : ℕ) (set : DupSet) (ip s : ℕ) {e : DupEntry}
    → find ip set ≡ some e
    → let r = judge (touch e (get_timestamp now duplicate_vtime)) s in
      message_is_duplicate now set ip s ≡ (r.0, put ip r.1 set)
unfolding message_is_duplicate
message_known now set ip s known = rw (known, message_is_duplicate)

pub message_new :
    (now : ℕ) (set : DupSet) (ip s : ℕ)
    → find ip set ≡ none
    → message_is_duplicate now set ip s
      ≡ (false, put ip (create_duplicate_entry ip s (get_timestamp now duplicate_vtime)) set)
unfolding message_is_duplicate
message_new now set ip s new = rw (new, message_is_duplicate)

-- For an originator that is in the set: a message that was accepted is a duplicate when the next call
-- is for it again.
message_twice :
    (now later : ℕ) (set : DupSet) (ip s : ℕ) (e : DupEntry)
    → find ip set ≡ some e
    → e.seqnr < 2 ^ 16
    → s < 2 ^ 16
    → (message_is_duplicate now set ip s).0 ≡ false
    → (message_is_duplicate later (message_is_duplicate now set ip s).1 ip s).0 ≡ true
message_twice now later set ip s e known he hs accepted =
    let t = touch e (get_timestamp now duplicate_vtime) in
    let v = get_timestamp later duplicate_vtime in
    let e' = (judge t s).1 in
    let first = message_known now set ip s known in
    let ht : t.seqnr < 2 ^ 16 = rw touch-seqnr he in
    let free : (judge t s).0 ≡ false = rw first at accepted in
    let he' : (touch e' v).seqnr < 2 ^ 16 = rw touch-seqnr (ground (arith, judge-seqnr t s)) in
    let stored : find ip (put ip e' set) ≡ some e' = rw (find-put, ==_refl) in
    rw (first, message_known later (put ip e' set) ip s stored)
      (judge-of-seen (touch e' v) s he' hs (seen-touch e' v s ∙ seen-judge t s ht hs free))

seen-create : (ip s v : ℕ) → seen (create_duplicate_entry ip s v) s ≡ false
unfolding create_duplicate_entry seen
seen-create ip s v = let z : offset s s ≡ 0 = omega arith in rw z

-- The first message of an originator that is not in the set is accepted, and accepted once more when
-- it arrives again, since the new entry does not record its number; the third time it is a duplicate.
pub first_message_twice :
    (now later last : ℕ) (set : DupSet) (ip s : ℕ)
    → find ip set ≡ none
    → s < 2 ^ 16
    → let one = message_is_duplicate now set ip s in
      let two = message_is_duplicate later one.1 ip s in
      let three = message_is_duplicate last two.1 ip s in
      (one.0 ≡ false) × (two.0 ≡ false) × (three.0 ≡ true)
unfolding create_duplicate_entry
first_message_twice now later last set ip s new hs =
    let v = get_timestamp now duplicate_vtime in
    let c = create_duplicate_entry ip s v in
    let first = message_new now set ip s new in
    let stored : find ip (put ip c set) ≡ some c = rw (find-put, ==_refl) in
    let t = touch c (get_timestamp later duplicate_vtime) in
    let ht : t.seqnr < 2 ^ 16 = rw touch-seqnr hs in
    let newest : (judge t s).1.seqnr < 2 ^ 16 = ground (arith, judge-seqnr t s) in
    let near = near-of-offset t.seqnr s ht hs (rw touch-seqnr (offset_self s)) in
    let second : (message_is_duplicate later (put ip c set) ip s).0 ≡ false =
      rw (message_known later (put ip c set) ip s stored) (
        (judge-seen t s (judge t s).1.seqnr ht hs newest near (offset_self _)).0
        ∙ seen-touch c _ s
        ∙ seen-create ip s v) in
    rw first (refl, second, message_twice later last (put ip c set) ip s c stored hs hs second)
