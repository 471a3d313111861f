-- ===== src/Tc/Input.antt =====
-- What holds of a whole TC message.
use olsrd_hybrid_plc.Prelude.{
  ℕ, zero, suc, ◌+◌, ◌-◌, ◌*◌, ◌/◌, ◌%◌, ◌≤◌, ◌<◌, ◌≡◌, ◌≢◌, ◌⊎◌, inl, inr, refl, Bool, true, false,
  Bool-cases, ◌&&◌, ◌||◌, Option, none, some, Option-cases, List, [], ◌∷◌, arith, ltb, leb, ◌==◌,
  find,
}
use olsrd_hybrid_plc.Hashing.{IpVersion, af_inet, af_inet6, ipsize}
use olsrd_hybrid_plc.NetBuffer.{olsr_validate_address}
use olsrd_hybrid_plc.Tc.{lookup_tc_edge, TcEdge, TcEntry, Conf}
use olsrd_hybrid_plc.Tc.Border.{border_bit, calculate_tc_border, one_border}
use olsrd_hybrid_plc.Tc.Message.{
  check_known, update_edges, tc_update_edge, borders, process_edges, note_message, accept_message,
  input_tc, read_number, originator_of, seq_of, ansn_of, size_of, lq_tc_message, tc_message,
  add_tc_entry, vtime_of, TcSet, Effect, insert_routing_table,
}

-- The branch of the code for a flag that is not 255, for any flag.
border_bit-bounds :
    (v : IpVersion) (flag a : ℕ)
    → flag < 256
    → ((0 < flag) × (flag ≤ 8 * ipsize v) × ((b : ℕ) × (border_bit v flag a ≡ some b)))
      ⊎ (((flag ≡ 0) ⊎ (8 * ipsize v < flag)) × (border_bit v flag a ≡ none))
unfolding border_bit
border_bit-bounds v flag a byte =
    let i : ℕ = (flag + 255) % 256 / 8 in
    elim (Bool-cases (ltb i (ipsize v))) [
      | inl inside ↦ inl (low v inside, high v inside, rw inside (_, refl))
      | inr outside ↦ inr (out v outside, rw outside refl)
    ]
  where
    low : (v : IpVersion) → ltb ((flag + 255) % 256 / 8) (ipsize v) ≡ true → 0 < flag
    low af_inet h = ground arith
    low af_inet6 h = ground arith

    high : (v : IpVersion) → ltb ((flag + 255) % 256 / 8) (ipsize v) ≡ true → flag ≤ 8 * ipsize v
    high af_inet h = ground arith
    high af_inet6 h = ground arith

    out :
        (v : IpVersion)
        → ltb ((flag + 255) % 256 / 8) (ipsize v) ≡ false
        → (flag ≡ 0) ⊎ (8 * ipsize v < flag)
    out af_inet h = ground arith
    out af_inet6 h = ground arith

ipsize-ge : (v : IpVersion) → 4 ≤ ipsize v
ipsize-ge af_inet = omega arith
ipsize-ge af_inet6 = omega arith

ipsize-le : (v : IpVersion) → ipsize v ≤ 16
ipsize-le af_inet = omega arith
ipsize-le af_inet6 = omega arith

-- The cursor passes an address at least.
next_lem :
    (c : Conf) (ansn : ℕ) (mem : ℕ → ℕ) (curr : ℕ) (edges : List TcEdge)
    → curr + 4 ≤ (tc_update_edge c ansn mem curr edges).1
unfolding tc_update_edge
next_lem c ansn mem curr edges =
    let four = ipsize-ge c.ip_version in
    let neighbor : ℕ = read_number (ipsize c.ip_version) mem curr in
    elim (Option-cases (lookup_tc_edge neighbor edges)) [
      | inl new ↦ elim (Bool-cases (olsr_validate_address c.deny_entries neighbor)) [
        | inl valid ↦ rw (new, valid, tc_update_edge) (omega arith)
        | inr denied ↦ rw (new, denied, tc_update_edge) (omega arith)
      ]
      | inr (e, known) ↦ elim (Bool-cases (ltb 0 c.lq_level)) [
        | inl read ↦ rw (known, read, tc_update_edge) (omega arith)
        | inr skip ↦ rw (known, skip, tc_update_edge) (omega arith)
      ]
    ]

-- The loop over the edges ends within as many rounds as there are bytes to the end of the message.
pub update_edges-returns :
    (fuel : ℕ) (c : Conf) (ansn : ℕ) (mem : ℕ → ℕ) (curr limit : ℕ) (seen : Option (ℕ × ℕ))
    (edges : List TcEdge)
    → limit - curr ≤ fuel
    → (result : Bool × Option (ℕ × ℕ) × List TcEdge) × (update_edges fuel c ansn mem curr limit seen
          edges
        ≡ some result)
unfolding update_edges
update_edges-returns zero c ansn mem curr limit seen edges enough =
    ((false, seen, edges), ground arith)
update_edges-returns (suc fuel) c ansn mem curr limit seen edges enough =
    elim (Bool-cases (ltb curr limit)) [
      | inl more ↦
          let step = tc_update_edge c ansn mem curr edges in
          let next = next_lem c ansn mem curr edges in
          let first : ℕ = elim seen [ none ↦ step.2 | some (f, _) ↦ f ] in
          let (r, returns) =
            update_edges-returns fuel c ansn mem step.1 limit (some (first, step.2)) step.3
              (ground arith) in
          rw (more, returns) (_, refl)
      | inr over ↦ rw over (_, refl)
    ]

-- The flags for which the two borders can be computed.
abbrev pub FlagOk : IpVersion → ℕ → Type 0
FlagOk v flag = (flag ≡ 0xff) ⊎ ((0 < flag) × (flag ≤ 8 * ipsize v))

abbrev pub FlagsOk : IpVersion → ℕ → ℕ → Type 0
FlagsOk v lower upper = ((lower ≡ 0) × (upper ≡ 0)) ⊎ (FlagOk v lower × FlagOk v upper)

one_border-returns :
    (c : Conf) (v flag a : ℕ)
    → FlagOk c.ip_version flag
    → (b : ℕ) × (one_border c v flag a ≡ some b)
unfolding one_border
one_border-returns c v flag a (inl whole) = rw whole (_, refl)
one_border-returns c v flag a (inr (low, high)) =
    let top = ipsize-le c.ip_version in
    let test : (flag == 0xff) ≡ false = ground arith in
    elim (border_bit-bounds c.ip_version flag a (omega arith)) [
      | inl (_, _, (b, e)) ↦ rw (test, e) (_, refl)
      | inr (out, e) ↦ absurd (ground arith)
    ]

borders-returns :
    (c : Conf) (empty_tc : Bool) (lower upper : ℕ) (seen : Option (ℕ × ℕ))
    → FlagsOk c.ip_version lower upper
    → (r : Bool × ℕ × ℕ) × (borders c empty_tc lower upper seen ≡ some r)
unfolding borders calculate_tc_border
borders-returns c empty_tc lower upper none ok =
    elim (Bool-cases (empty_tc && (lower == 0xff) && (upper == 0xff))) [
      | inl all ↦ rw all (_, refl)
      | inr not_all ↦ rw not_all (_, refl)
    ]
borders-returns c empty_tc lower upper (some (first, last)) ok =
    elim (Bool-cases (empty_tc && (lower == 0xff) && (upper == 0xff))) [
      | inl all ↦ rw all (_, refl)
      | inr not_all ↦ elim ok [
        | inl (l, u) ↦ rw (not_all, l, u) (_, refl)
        | inr (l, u) ↦
            let (lb, le) = one_border-returns c 0 lower first l in
            let (ub, ue) = one_border-returns c 0xff upper last u in
            elim (Bool-cases ((lower == 0) && (upper == 0))) [
              | inl zero_flags ↦ rw (not_all, zero_flags) (_, refl)
              | inr flags ↦ rw (not_all, flags, le, ue) (_, refl)
            ]
      ]
    ]

process_edges-returns :
    (c : Conf) (mem : ℕ → ℕ) (size vtime : ℕ) (tc : TcEntry)
    → FlagsOk c.ip_version (mem (10 + ipsize c.ip_version)) (mem (11 + ipsize c.ip_version))
    → (r : Bool × Bool × TcEntry) × (process_edges c mem size vtime tc ≡ some r)
unfolding process_edges
process_edges-returns c mem size vtime tc ok =
    let n : ℕ = ipsize c.ip_version in
    let ((changed, seen, edges), walked) =
      update_edges-returns (size - (12 + n)) c tc.ansn mem (12 + n) size none tc.edge_tree
        (omega arith) in
    let ((set, l, u), limits) =
      borders-returns c (leb size (12 + n)) (mem (10 + n)) (mem (11 + n)) seen ok in
    elim (Bool-cases set) [
      | inl on ↦ rw (walked, limits, on, process_edges) (_, refl)
      | inr off ↦ rw (walked, limits, off, process_edges) (_, refl)
    ]

accept_message-returns :
    (c : Conf) (mem : ℕ → ℕ) (t : TcSet) (tc : TcEntry) (effects : List Effect)
    → FlagsOk c.ip_version (mem (10 + ipsize c.ip_version)) (mem (11 + ipsize c.ip_version))
    → (t' : TcSet) × (effects' : List Effect) × (accept_message c mem t tc effects
        ≡ some (true, t', effects'))
unfolding accept_message
accept_message-returns c mem t tc effects ok =
    let noted = note_message (mem (5 + ipsize c.ip_version)) (seq_of c mem) (ansn_of c mem) tc in
    let ((changed, erased, tc'), done) =
      process_edges-returns c mem (size_of mem) (vtime_of c mem) noted ok in
    elim (Bool-cases erased) [
      | inl empty ↦ rw (done, empty, accept_message) (_, _, refl)
      | inr full ↦ rw (done, full, accept_message) (_, _, refl)
    ]

add_tc_entry-returns :
    (main_addr adr : ℕ) → main_addr ≢ 0 → (tc : TcEntry) × (add_tc_entry main_addr adr ≡ some tc)
unfolding add_tc_entry
add_tc_entry-returns main_addr adr h =
    let test : (main_addr == 0) ≡ false = ground arith in rw test (_, refl)

-- With a main address and flags for which the borders can be computed, every message is handled to
-- its end: nothing is written out of bounds, and no loop needs more than its rounds.
pub input_tc-returns :
    (c : Conf) (sym_link : Bool) (mem : ℕ → ℕ) (t : TcSet)
    → c.main_addr ≢ 0
    → FlagsOk c.ip_version (mem (10 + ipsize c.ip_version)) (mem (11 + ipsize c.ip_version))
    → (result : Bool × TcSet × List Effect) × (input_tc c sym_link mem t ≡ some result)
unfolding input_tc
input_tc-returns c sym_link mem t addr ok =
    elim (Bool-cases (((mem 0 == lq_tc_message) || (mem 0 == tc_message)) && sym_link)) [
      | inr refused ↦ rw refused (_, refl)
      | inl heard ↦ elim (Option-cases (find (originator_of c mem) t.tc_tree)) [
        | inl new ↦
            let (tc, made) = add_tc_entry-returns c.main_addr (originator_of c mem) addr in
            let (t', effects, done) =
              accept_message-returns c mem t tc (insert_routing_table (originator_of c mem) ∷ [])
                ok in
            rw (heard, new, made, done, input_tc) (_, refl)
        | inr (tc, known) ↦ elim (Bool-cases (check_known tc (seq_of c mem) (ansn_of c mem)).0) [
          | inl pass ↦
              let (t', effects, done) =
                accept_message-returns c mem t (check_known tc (seq_of c mem) (ansn_of c mem)).1 []
                  ok in
              rw (heard, known, pass, done, input_tc) (_, refl)
          | inr ignored ↦ rw (heard, known, ignored, input_tc) (_, refl)
        ]
      ]
    ]
