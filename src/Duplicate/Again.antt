-- ===== src/Duplicate/Again.antt =====
-- A message that arrives again after the clean-up of src/duplicate_set.c.
use olsrd_hybrid_plc.Prelude.{
  ℕ, max, ◌^◌, ◌<◌, ◌≡◌, refl, sym, ap, ◌∙◌, true, false, none, some, Option, arith, find, put,
  find-put, inl, inr, Bool-cases, ==_refl, [], ◌∷◌, Apart, put-Apart, if◌then◌else◌, ◌==◌,
}
use olsrd_hybrid_plc.Clock.{get_timestamp, is_timed_out}
use olsrd_hybrid_plc.Duplicate.{
  DupEntry, DupSet, judge_diff, judge, cleanup_duplicate_entry, message_is_duplicate,
  duplicate_vtime, touch,
}
use olsrd_hybrid_plc.Duplicate.Replay.{
  judge-seqnr, judge-of-seen, seen-judge, seen-touch, touch-seqnr, message_known, message_new,
}

judge-valid_until : (e : DupEntry) (s : ℕ) → (judge e s).1.valid_until ≡ e.valid_until
unfolding judge_diff judge
judge-valid_until e s = ground arith

touch-max : (e : DupEntry) (v : ℕ) → (touch e v).valid_until ≡ max e.valid_until v
unfolding touch
touch-max e v = ground arith

-- What the clean-up leaves of an entry.
abbrev left_of : ℕ → Option DupEntry → Option DupEntry
left_of now none = none
left_of now (some e) = if is_timed_out now e.valid_until then none else some e

cleanup-none :
    (now ip : ℕ) (set : DupSet)
    → find ip set ≡ none
    → find ip (cleanup_duplicate_entry now set) ≡ none
unfolding cleanup_duplicate_entry find
cleanup-none now ip [] new = refl
cleanup-none now ip ((k, e) ∷ set) new = elim (Bool-cases (k == ip)) [
  | inl t ↦ absurd (ground (arith, rw t at new))
  | inr t ↦ elim (Bool-cases (is_timed_out now e.valid_until)) [
    | inl old ↦ rw old (cleanup-none now ip set (rw t at new))
    | inr young ↦ rw young (rw t (cleanup-none now ip set (rw t at new)))
  ]
]

find-cleanup :
    (now ip : ℕ) (set : DupSet)
    → Apart set
    → find ip (cleanup_duplicate_entry now set) ≡ left_of now (find ip set)
unfolding cleanup_duplicate_entry find
find-cleanup now ip [] a = refl
find-cleanup now ip ((k, e) ∷ set) (new, a) = elim (Bool-cases (k == ip)) [
  | inl t ↦
      let here : k ≡ ip = ground (arith, t) in
      let gone : find ip (cleanup_duplicate_entry now set) ≡ none =
        cleanup-none now ip set (ap (λ i. find i set) (sym here) ∙ new) in
      elim (Bool-cases (is_timed_out now e.valid_until)) [
        | inl old ↦ rw (old, t) (gone ∙ (rw old refl))
        | inr young ↦ rw (young, t) (rw young refl)
      ]
  | inr t ↦ elim (Bool-cases (is_timed_out now e.valid_until)) [
    | inl old ↦ rw (old, t) (find-cleanup now ip set a)
    | inr young ↦ rw (young, t) (find-cleanup now ip set a)
  ]
]

gone_lem :
    (now : ℕ) (e : DupEntry) (v : ℕ)
    → e.valid_until ≡ v
    → is_timed_out now v ≡ true
    → left_of now (some e) ≡ none
gone_lem now e v same old = rw (same, old) refl

kept_lem :
    (now : ℕ) (e : DupEntry) (v : ℕ)
    → e.valid_until ≡ v
    → is_timed_out now v ≡ false
    → left_of now (some e) ≡ some e
kept_lem now e v same young =
    let test : is_timed_out now e.valid_until ≡ false = ap (is_timed_out now) same ∙ young in
    ap (λ b. if b then none else some e) test

-- For an originator that is in a set with one entry for each: a message that was accepted, and that the
-- next call is for again after one clean-up in between, at any time, is a duplicate exactly if the
-- clean-up leaves the entry: the time it is valid until, which is the greater, as numbers, of its
-- former one and of the time of the first call with 120 s added, has not passed then. Else the message
-- is accepted again.
pub message_again :
    (now cleaned later : ℕ) (set : DupSet) (ip s : ℕ) (e : DupEntry)
    → find ip set ≡ some e
    → Apart set
    → e.seqnr < 2 ^ 16
    → s < 2 ^ 16
    → (message_is_duplicate now set ip s).0 ≡ false
    → (message_is_duplicate later
        (cleanup_duplicate_entry cleaned (message_is_duplicate now set ip s).1)
        ip
        s).0
      ≡ (if is_timed_out cleaned (max e.valid_until (get_timestamp now duplicate_vtime))
          then false
          else true)
message_again now cleaned later set ip s e known apart he hs accepted =
    let t = touch e (get_timestamp now duplicate_vtime) in
    let v = get_timestamp later duplicate_vtime in
    let e' = (judge t s).1 in
    let first = message_known now set ip s known in
    let ht : t.seqnr < 2 ^ 16 = rw touch-seqnr he in
    let free : (judge t s).0 ≡ false = rw first at accepted in
    let he' : (touch e' v).seqnr < 2 ^ 16 = rw touch-seqnr (ground (arith, judge-seqnr t s)) in
    let stored : find ip (put ip e' set) ≡ some e' = rw (find-put, ==_refl) in
    let valid : e'.valid_until ≡ max e.valid_until (get_timestamp now duplicate_vtime) =
      judge-valid_until t s ∙ touch-max e (get_timestamp now duplicate_vtime) in
    let left : find ip (cleanup_duplicate_entry cleaned (put ip e' set))
        ≡ left_of cleaned (some e') =
      find-cleanup cleaned ip (put ip e' set) (put-Apart ip e' set apart)
      ∙ ap (left_of cleaned) stored in
    let clean = cleanup_duplicate_entry cleaned (put ip e' set) in
    elim (Bool-cases
      (is_timed_out cleaned (max e.valid_until (get_timestamp now duplicate_vtime)))) [
        | inl old ↦
            let gone : find ip clean ≡ none = left ∙ gone_lem cleaned e' _ valid old in
            rw (first, message_new later clean ip s gone, old) refl
        | inr young ↦
            let there : find ip clean ≡ some e' = left ∙ kept_lem cleaned e' _ valid young in
            rw (first, message_known later clean ip s there, young)
              (judge-of-seen (touch e' v) s he' hs (seen-touch e' v s ∙ seen-judge t s ht hs free))
      ]
