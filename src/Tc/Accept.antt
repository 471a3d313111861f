-- ===== src/Tc/Accept.antt =====
-- Which TC messages of a node that is known with edges are processed.
use olsrd_hybrid_plc.Prelude.{
  ℕ, ◌+◌, ◌-◌, ◌%◌, ◌^◌, ◌≤◌, ◌<◌, ◌≡◌, ◌≢◌, inl, inr, refl, ◌∙◌, Bool, true, false, Bool-cases,
  ◌&&◌, List, [], ◌∷◌, arith, ltb, leb, ◌==◌, if◌then◌else◌, length, ==_refl,
}
use olsrd_hybrid_plc.Tc.{TcEntry}
use olsrd_hybrid_plc.Tc.Seqno.{
  seq_inrange_high-past, seq_inrange_high-future, seq_inrange_low-future,
}
use olsrd_hybrid_plc.Tc.Message.{check_seq}

-- How far `b` is ahead of `a`, counting up with the wrap around.
abbrev pub ahead : ℕ → ℕ → ℕ
ahead a b = (b + 2 ^ 16 - a) % 2 ^ 16

-- Not newer than the last message, by at most 1023 messages and 255 changes of the neighbours.
abbrev pub is_old : TcEntry → ℕ → ℕ → Bool
is_old tc seq ansn = ltb (ahead seq tc.msg_seq) 1024 && ltb (ahead ansn tc.ansn) 256

-- Newer by 1 to 8192 messages and by at most 1023 changes.
abbrev pub is_fresh : TcEntry → ℕ → ℕ → Bool
is_fresh tc seq ansn =
    (if ltb 0 (ahead tc.msg_seq seq) then leb (ahead tc.msg_seq seq) 8192 else false)
    && ltb (ahead tc.ansn ansn) 1024

abbrev pub InRange : TcEntry → ℕ → ℕ → Type 0
InRange tc seq ansn = (tc.msg_seq < 2 ^ 16) × (tc.ansn < 2 ^ 16) × (seq < 2 ^ 16) × (ansn < 2 ^ 16)

-- The check by these two tests.
abbrev pub judged : Bool → Bool → TcEntry → ℕ → Bool × TcEntry
judged old fresh tc seq =
    if old
    then (if tc.msg_seq == seq
        then (false, tc)
        else (leb 32 tc.ignored, record tc { ignored = (tc.ignored + 1) % 2 ^ 16 }))
    else if fresh
    then (true, tc)
    else (let tc' =
          if tc.err_seq_valid then tc else record tc { err_seq = seq; err_seq_valid = true } in
        (if tc'.err_seq == seq then false else true, tc'))

pub check_seq-judged :
    (tc : TcEntry) (seq ansn : ℕ)
    → InRange tc seq ansn
    → check_seq tc seq ansn ≡ judged (is_old tc seq ansn) (is_fresh tc seq ansn) tc seq
unfolding check_seq
check_seq-judged tc seq ansn (hs, ha, qs, qa) =
    rw
      (
        seq_inrange_high-past tc.msg_seq 1024 seq hs (omega arith) qs,
        seq_inrange_high-past tc.ansn 256 ansn ha (omega arith) qa,
        seq_inrange_high-future tc.msg_seq 8192 seq hs (omega arith) (omega arith) qs,
        seq_inrange_low-future tc.ansn 1024 ansn ha (omega arith) qa,
      )
      refl

abbrev pub passes : Bool → Bool → TcEntry → ℕ → Bool
passes old fresh tc seq =
    if old
    then (if tc.msg_seq == seq then false else leb 32 tc.ignored)
    else if fresh
    then true
    else if tc.err_seq_valid
    then (if tc.err_seq == seq then false else true)
    else false

judged-passes :
    (old fresh : Bool) (tc : TcEntry) (seq : ℕ)
    → (judged old fresh tc seq).0 ≡ passes old fresh tc seq
judged-passes true fresh tc seq = ground arith
judged-passes false true tc seq = refl
judged-passes false false tc seq = elim (Bool-cases tc.err_seq_valid) [
  | inl valid ↦ rw valid
  | inr first ↦ rw (first, ==_refl seq) refl
]

-- An old message passes if it is not the last one again and 32 were ignored before; a fresh one
-- passes; any other passes if there was another of that kind before, with a different number.
pub check_seq-passes :
    (tc : TcEntry) (seq ansn : ℕ)
    → InRange tc seq ansn
    → (check_seq tc seq ansn).0 ≡ passes (is_old tc seq ansn) (is_fresh tc seq ansn) tc seq
check_seq-passes tc seq ansn ranges =
    rw (check_seq-judged tc seq ansn ranges)
      (judged-passes (is_old tc seq ansn) (is_fresh tc seq ansn) tc seq)

-- Of two messages that are neither old nor fresh and have different numbers, where none of that kind
-- was noted before, the first is refused and the second passes.
pub check_seq-restart :
    (tc : TcEntry) (seq ansn seq' ansn' : ℕ)
    → InRange tc seq ansn
    → InRange tc seq' ansn'
    → is_old tc seq ansn ≡ false
    → is_fresh tc seq ansn ≡ false
    → is_old tc seq' ansn' ≡ false
    → is_fresh tc seq' ansn' ≡ false
    → tc.err_seq_valid ≡ false
    → seq ≢ seq'
    → let (pass, tc') = check_seq tc seq ansn in
      (pass ≡ false) × ((check_seq tc' seq' ansn').0 ≡ true)
check_seq-restart tc seq ansn seq' ansn' r r' o f o' f' fresh_err ne =
    let tc1 : TcEntry = record tc { err_seq = seq; err_seq_valid = true } in
    let first : check_seq tc seq ansn ≡ (false, tc1) =
      check_seq-judged tc seq ansn r ∙ rw (o, f, fresh_err, ==_refl seq) refl in
    let different : (seq == seq') ≡ false = ground arith in
    let second : (check_seq tc1 seq' ansn').0 ≡ true =
      check_seq-passes tc1 seq' ansn' r' ∙ rw (o', f', different) refl in
    rw first (refl, second)

-- Old messages, in the order of their arrival, of which none is the last accepted one.
abbrev pub Stale : TcEntry → List (ℕ × ℕ) → Type 0
Stale tc [] = Unit {0}
Stale tc ((seq, ansn) ∷ ms) =
    InRange tc seq ansn × (is_old tc seq ansn ≡ true) × (tc.msg_seq ≢ seq) × Stale tc ms

-- Whether all are refused, one after the other.
abbrev pub all_refused : TcEntry → List (ℕ × ℕ) → Bool
all_refused tc [] = true
all_refused tc ((seq, ansn) ∷ ms) =
    let (pass, tc') = check_seq tc seq ansn in if pass then false else all_refused tc' ms

same_window :
    (tc tc' : TcEntry) (ms : List (ℕ × ℕ))
    → tc.msg_seq ≡ tc'.msg_seq
    → tc.ansn ≡ tc'.ansn
    → Stale tc ms
    → Stale tc' ms
same_window tc tc' [] e f h = h
same_window tc tc' (m ∷ ms) e f (r, o, n, more) =
    (rw (← e, ← f) r, rw (← e, ← f) o, rw (← e) n, same_window tc tc' ms e f more)

-- Of old messages other than the last one at most 32 in a row are ignored, less the number of those
-- that were ignored before.
pub all_refused-bound :
    (tc : TcEntry) (ms : List (ℕ × ℕ))
    → Stale tc ms
    → tc.ignored ≤ 32
    → all_refused tc ms ≡ true
    → tc.ignored + length ms ≤ 32
all_refused-bound tc [] stale few all = omega arith
all_refused-bound tc ((seq, ansn) ∷ ms) (r, o, n, more) few all =
    let tc' : TcEntry = record tc { ignored = (tc.ignored + 1) % 2 ^ 16 } in
    let other : (tc.msg_seq == seq) ≡ false = ground arith in
    let step : check_seq tc seq ansn ≡ (leb 32 tc.ignored, tc') =
      check_seq-judged tc seq ansn r ∙ rw (o, other) refl in
    let rest : (if leb 32 tc.ignored then false else all_refused tc' ms) ≡ true = rw step at all in
    let below : tc.ignored < 32 = ground arith in
    let all' : all_refused tc' ms ≡ true = ground arith in
    let bound =
      all_refused-bound tc' ms (same_window tc tc' ms refl refl more) (omega arith) all' in
    omega arith
