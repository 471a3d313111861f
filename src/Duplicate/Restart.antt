-- ===== src/Duplicate/Restart.antt =====
-- Numbers that are too low, and the originator that starts over.
use olsrd_hybrid_plc.Prelude.{
  ℕ, suc, ◌+◌, ◌≤◌, ◌<◌, ◌≡◌, refl, ◌∙◌, Bool, true, false, ap, some, List, [], ◌∷◌, arith, length,
  replicate, find, find-put, ==_refl,
}
use olsrd_hybrid_plc.Prelude.Int.{negsuc, ltb_ℤ}
use olsrd_hybrid_plc.Duplicate.{
  DupEntry, DupSet, seqno_diff, judge, too_low, dup_max_too_low, cleanup_duplicates,
}
use olsrd_hybrid_plc.Duplicate.Replay.{judge-low}

-- The entry after a run of messages, and the answers.
abbrev pub judge_all : DupEntry → List ℕ → DupEntry
judge_all e [] = e
judge_all e (s ∷ ss) = judge_all (judge e s).1 ss

abbrev pub answers : DupEntry → List ℕ → List Bool
answers e [] = []
answers e (s ∷ ss) = (judge e s).0 ∷ answers (judge e s).1 ss

-- More than 31 below the number `newest`.
abbrev pub AllLow : ℕ → List ℕ → Type 0
AllLow newest [] = Unit {0}
AllLow newest (s ∷ ss) = (ltb_ℤ (seqno_diff s newest) (negsuc 30) ≡ true) × AllLow newest ss

judge_blocked :
    (e : DupEntry) (s : ℕ)
    → ltb_ℤ (seqno_diff s e.seqnr) (negsuc 30) ≡ true
    → e.too_low_counter < 16
    → judge e s ≡ (true, record e { too_low_counter = e.too_low_counter + 1 })
judge_blocked e s low few = judge-low e s low ∙ counted
  where
    counted : too_low e s ≡ (true, record e { too_low_counter = e.too_low_counter + 1 })
    counted = unfold too_low in ground arith

blocked_run :
    (e : DupEntry) (ss : List ℕ)
    → AllLow e.seqnr ss
    → e.too_low_counter + length ss ≤ 16
    → (answers e ss ≡ replicate (length ss) true)
      × (judge_all e ss ≡ record e { too_low_counter = e.too_low_counter + length ss })
blocked_run e [] low few =
    (refl, let z : e.too_low_counter + 0 ≡ e.too_low_counter = omega arith in rw z)
blocked_run e (s ∷ ss) low few =
    let step = judge_blocked e s low.0 (omega arith) in
    let rest =
      blocked_run (record e { too_low_counter = e.too_low_counter + 1 }) ss low.1 (omega arith) in
    let n : e.too_low_counter + 1 + length ss ≡ e.too_low_counter + suc (length ss) = omega arith in
    rw step (ap (◌∷◌ true) rest.0, rw n at rest.1)

judge_restart :
    (e : DupEntry) (s : ℕ)
    → ltb_ℤ (seqno_diff s e.seqnr) (negsuc 30) ≡ true
    → e.too_low_counter ≡ 16
    → judge e s ≡ (false, record e { too_low_counter = 0; seqnr = s; array = 1 })
judge_restart e s low full = judge-low e s low ∙ restarted
  where
    restarted : too_low e s ≡ (false, record e { too_low_counter = 0; seqnr = s; array = 1 })
    restarted = unfold too_low in ground arith

-- Numbers that are too low are blocked until the counter of them is at 16; the next one that is too
-- low is accepted and starts a new sequence.
pub restart_after :
    (e : DupEntry) (ss : List ℕ) (s : ℕ)
    → AllLow e.seqnr (s ∷ ss)
    → e.too_low_counter + length ss ≡ dup_max_too_low
    → (answers e ss ≡ replicate (length ss) true)
      × (judge (judge_all e ss) s ≡ (false, record e { too_low_counter = 0; seqnr = s; array = 1 }))
restart_after e ss s low full =
    let (blocked, state) = blocked_run e ss low.1 (omega arith) in
    (
      blocked,
      rw state (
          judge_restart (record e { too_low_counter = e.too_low_counter + length ss }) s low.0
            full),
    )

-- After `olsr_cleanup_duplicates` two messages with too low numbers are blocked, and the third one
-- starts a new sequence.
pub cleanup_restart :
    (set : DupSet) (ip s1 s2 s3 : ℕ) (e : DupEntry)
    → find ip set ≡ some e
    → AllLow e.seqnr (s3 ∷ s1 ∷ s2 ∷ [])
    → (d : DupEntry) × (find ip (cleanup_duplicates ip set) ≡ some d)
      × (answers d (s1 ∷ s2 ∷ s3 ∷ []) ≡ true ∷ true ∷ false ∷ [])
unfolding cleanup_duplicates
cleanup_restart set ip s1 s2 s3 e known low =
    let d : DupEntry = record e { too_low_counter = 14 } in
    let (blocked, accepted) = restart_after d (s1 ∷ s2 ∷ []) s3 low refl in
    (d, rw (known, cleanup_duplicates, find-put, ==_refl), ground (arith, blocked, accepted))
