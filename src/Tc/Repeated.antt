-- ===== src/Tc/Repeated.antt =====
-- A TC message that arrives once more.
use olsrd_hybrid_plc.Prelude.{
  ℕ, ◌+◌, ◌%◌, ◌^◌, ◌<◌, ◌≡◌, ◌⊎◌, ◌-◌, inl, inr, refl, sym, ap, ◌∙◌, Bool, true, false, Bool-cases,
  ◌&&◌, ◌||◌, Option, none, some, Option-cases, List, [], ◌∷◌, arith, leb, ◌==◌, ==_refl,
  if◌then◌else◌, find, put, delete, find-put, find-delete,
}
use olsrd_hybrid_plc.Hashing.{ipsize}
use olsrd_hybrid_plc.Tc.{TcEdge, TcEntry, Conf}
use olsrd_hybrid_plc.Tc.Message.{
  check_known, check_seq, update_edges, borders, process_edges, note_message, accept_message,
  input_tc, originator_of, seq_of, ansn_of, size_of, vtime_of, lq_tc_message, tc_message,
  add_tc_entry, read_number, TcSet, Effect, insert_routing_table,
}
use olsrd_hybrid_plc.Tc.Accept.{check_seq-judged}

abbrev numbers : TcEntry → ℕ × ℕ
numbers tc = (tc.msg_seq, tc.ansn)

abbrev processed : Option (Bool × Bool × TcEntry) → ℕ × ℕ
processed none = (0, 0)
processed (some (_, _, tc)) = numbers tc

abbrev tree_of : Option (Bool × TcSet × List Effect) → List (ℕ × TcEntry)
tree_of none = []
tree_of (some (_, t, _)) = t.tc_tree

abbrev found : Option TcEntry → ℕ × ℕ
found none = (0, 0)
found (some tc) = numbers tc

process_edges-numbers :
    (c : Conf) (mem : ℕ → ℕ) (size vtime : ℕ) (tc : TcEntry)
    → (process_edges c mem size vtime tc ≡ none)
      ⊎ (processed (process_edges c mem size vtime tc) ≡ numbers tc)
unfolding process_edges
process_edges-numbers c mem size vtime tc =
    let n : ℕ = ipsize c.ip_version in
    elim (Option-cases
      (update_edges (size - (12 + n)) c tc.ansn mem (12 + n) size none tc.edge_tree)) [
        | inl stuck ↦ inl (rw (stuck, process_edges) refl)
        | inr ((changed, seen, edges), walked) ↦
            elim (Option-cases (borders c (leb size (12 + n)) (mem (10 + n)) (mem (11 + n)) seen)) [
              | inl stuck ↦ inl (rw (walked, stuck, process_edges) refl)
              | inr ((set, l, u), limits) ↦ inr (elim (Bool-cases set) [
                | inl on ↦ rw (walked, limits, on, process_edges) refl
                | inr off ↦ rw (walked, limits, off, process_edges) refl
              ])
            ]
      ]

deleted : (o : ℕ) (m : List (ℕ × TcEntry)) → find o (delete o m) ≡ none
deleted o m = find-delete o o m ∙ rw (==_refl o) refl

stored : (o : ℕ) (tc : TcEntry) (m : List (ℕ × TcEntry)) → find o (put o tc m) ≡ some tc
stored o tc m = find-put o o tc m ∙ rw (==_refl o) refl

numbers-processed :
    {x : Option (Bool × Bool × TcEntry)} {changed erased : Bool} {tc1 : TcEntry} (tc : TcEntry)
    → (x ≡ none) ⊎ (processed x ≡ numbers tc)
    → x ≡ some (changed, erased, tc1)
    → numbers tc1 ≡ numbers tc
numbers-processed tc (inl stuck) done = absurd (ground (arith, stuck, done))
numbers-processed tc (inr same) done = sym (ap processed done) ∙ same

-- The entry of the originator, where it is still there, has the numbers of the message.
accept_message-numbers :
    (c : Conf) (mem : ℕ → ℕ) (t t' : TcSet) (tc tc' : TcEntry) (effects effects' : List Effect)
    → accept_message c mem t tc effects ≡ some (true, t', effects')
    → find (originator_of c mem) t'.tc_tree ≡ some tc'
    → numbers tc' ≡ (seq_of c mem, ansn_of c mem)
unfolding accept_message note_message
accept_message-numbers c mem t t' tc tc' effects effects' ran there =
    let o : ℕ = originator_of c mem in
    let noted = note_message (mem (5 + ipsize c.ip_version)) (seq_of c mem) (ansn_of c mem) tc in
    elim (Option-cases (process_edges c mem (size_of mem) (vtime_of c mem) noted)) [
      | inl stuck ↦ absurd (ground (arith, rw (stuck, accept_message) at ran))
      | inr ((changed, erased, tc1), done) ↦ elim (Bool-cases erased) [
        | inl empty ↦
            let tree : delete o t.tc_tree ≡ t'.tc_tree =
              ap tree_of (rw (done, empty, accept_message) at ran) in
            let gone : find o t'.tc_tree ≡ none = rw (← tree) (deleted o t.tc_tree) in
            absurd (ground (arith, gone, there))
        | inr full ↦
            let tree : put o tc1 t.tc_tree ≡ t'.tc_tree =
              ap tree_of (rw (done, full, accept_message) at ran) in
            let kept : find o t'.tc_tree ≡ some tc1 = rw (← tree) (stored o tc1 t.tc_tree) in
            let same : numbers tc1 ≡ numbers tc' = ap found (sym kept ∙ there) in
            let noted_numbers : numbers tc1 ≡ numbers noted =
              numbers-processed noted
                (process_edges-numbers c mem (size_of mem) (vtime_of c mem) noted) done in
            sym same ∙ noted_numbers
      ]
    ]

-- The last accepted message is refused, and the entry stays as it is.
check_seq-last :
    (tc : TcEntry) (seq ansn : ℕ)
    → seq < 2 ^ 16
    → ansn < 2 ^ 16
    → numbers tc ≡ (seq, ansn)
    → check_seq tc seq ansn ≡ (false, tc)
check_seq-last tc seq ansn hs ha same =
    let s : tc.msg_seq ≡ seq = ap (λ (x : ℕ × ℕ). x.0) same in
    let a : tc.ansn ≡ ansn = ap (λ (x : ℕ × ℕ). x.1) same in
    let z : (seq + 2 ^ 16 - seq) % 2 ^ 16 ≡ 0 = omega arith in
    let y : (ansn + 2 ^ 16 - ansn) % 2 ^ 16 ≡ 0 = omega arith in
    check_seq-judged tc seq ansn (omega arith, omega arith, hs, ha)
    ∙ rw (s, a, z, y, ==_refl seq) refl

read_two-lt : (mem : ℕ → ℕ) (curr : ℕ) → ((i : ℕ) → mem i < 256) → read_number 2 mem curr < 2 ^ 16
unfolding read_number
read_two-lt mem curr bytes = omega (arith, bytes curr, bytes (curr + 1))

abbrev forwarded : Option (Bool × TcSet × List Effect) → Bool
forwarded none = false
forwarded (some (b, _, _)) = b

abbrev heard : Bool → (ℕ → ℕ) → Bool
heard sym_link mem = ((mem 0 == lq_tc_message) || (mem 0 == tc_message)) && sym_link

-- A message that is forwarded was of the right type, and its entry has its numbers afterwards.
input_tc-numbers :
    (c : Conf) (sym_link : Bool) (mem : ℕ → ℕ) (t t' : TcSet) (tc' : TcEntry)
    (effects : List Effect)
    → input_tc c sym_link mem t ≡ some (true, t', effects)
    → find (originator_of c mem) t'.tc_tree ≡ some tc'
    → (heard sym_link mem ≡ true) × (numbers tc' ≡ (seq_of c mem, ansn_of c mem))
unfolding input_tc
input_tc-numbers c sym_link mem t t' tc' effects ran there =
    let o : ℕ = originator_of c mem in
    elim (Bool-cases (heard sym_link mem)) [
      | inr refused ↦ absurd (ground (arith, ap forwarded (rw (refused, input_tc) at ran)))
      | inl of_type ↦ elim (Option-cases (find o t.tc_tree)) [
        | inl new ↦ elim (Option-cases (add_tc_entry c.main_addr o)) [
          | inl failed ↦ absurd (ground (arith, rw (of_type, new, failed, input_tc) at ran))
          | inr (tc, made) ↦ (
            of_type,
            accept_message-numbers c mem t t' tc tc' (insert_routing_table o ∷ []) effects
                (rw (of_type, new, made, input_tc) at ran) there,
          )
        ]
        | inr (tc, known) ↦ elim (Bool-cases (check_known tc (seq_of c mem) (ansn_of c mem)).0) [
          | inl pass ↦ (
            of_type,
            accept_message-numbers c mem t t' (check_known tc (seq_of c mem) (ansn_of c mem)).1 tc'
                [] effects (rw (of_type, known, pass, input_tc) at ran) there,
          )
          | inr ignored ↦
              absurd (ground (arith, ap forwarded (rw (of_type, known, ignored, input_tc) at ran)))
        ]
      ]
    ]

nonempty :
    (l : List TcEdge) (e : TcEdge) (es : List TcEdge) (x y : Bool × TcEntry)
    → l ≡ e ∷ es
    → (elim l as (λ m. Bool × TcEntry) [ [] ↦ x | _ ∷ _ ↦ y ]) ≡ y
nonempty l e es x y h = rw h refl

check_known-edges :
    (tc : TcEntry) (seq ansn : ℕ) (e : TcEdge) (es : List TcEdge)
    → tc.edge_tree ≡ e ∷ es
    → check_known tc seq ansn ≡ check_seq tc seq ansn
unfolding check_known
check_known-edges tc seq ansn e es h =
    nonempty tc.edge_tree e es (true, tc) (check_seq tc seq ansn) h

-- A message that was accepted is refused when it arrives once more, as long as its originator has
-- edges: the second one is not forwarded, makes no other part do anything, and leaves every entry.
pub input_tc-repeated :
    (c : Conf) (sym_link : Bool) (mem : ℕ → ℕ) (t t' : TcSet) (tc' : TcEntry) (e : TcEdge)
    (es : List TcEdge) (effects : List Effect)
    → ((i : ℕ) → mem i < 256)
    → input_tc c sym_link mem t ≡ some (true, t', effects)
    → find (originator_of c mem) t'.tc_tree ≡ some tc'
    → tc'.edge_tree ≡ e ∷ es
    → (t'' : TcSet) × (input_tc c sym_link mem t' ≡ some (false, t'', []))
      × ((o : ℕ) → find o t''.tc_tree ≡ find o t'.tc_tree)
unfolding input_tc
input_tc-repeated c sym_link mem t t' tc' e es effects bytes ran there edges =
    let o : ℕ = originator_of c mem in
    let (of_type, same) = input_tc-numbers c sym_link mem t t' tc' effects ran there in
    let last : check_known tc' (seq_of c mem) (ansn_of c mem) ≡ (false, tc') =
      check_known-edges tc' (seq_of c mem) (ansn_of c mem) e es edges
      ∙ check_seq-last tc' (seq_of c mem) (ansn_of c mem)
          (read_two-lt mem (6 + ipsize c.ip_version) bytes)
          (read_two-lt mem (8 + ipsize c.ip_version) bytes) same in
    rw (of_type, there, last, input_tc)
      (_, refl, λ (j : ℕ). find-put o j tc' t'.tc_tree ∙ unchanged o j tc' t'.tc_tree there)
  where
    unchanged :
        (o j : ℕ) (tc : TcEntry) (m : List (ℕ × TcEntry))
        → find o m ≡ some tc
        → (if o == j then some tc else find j m) ≡ find j m
    unchanged o j tc m h = elim (Bool-cases (o == j)) [
      | inl eq ↦ let p : o ≡ j = ground arith in rw eq (rw (← p, h) refl)
      | inr ne ↦ rw ne refl
    ]
