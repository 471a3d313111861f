-- ===== src/Tc/Message.antt =====
-- `olsr_input_tc` of src/tc_set.c, with the walk through the edges of a message. A message is its
-- memory, as a function from the offset to the byte.
use olsrd_hybrid_plc.Prelude.{
  ℕ, zero, suc, ◌+◌, ◌-◌, ◌*◌, ◌%◌, ◌^◌, Bool, true, false, ◌&&◌, ◌||◌, Option, none, some, List,
  [], ◌∷◌, ◌++◌, leb, ltb, ◌==◌, if◌then◌else◌, find, put, delete,
}
use olsrd_hybrid_plc.Prelude.Int.{pos, sub_ℕ}
use olsrd_hybrid_plc.Hashing.{ipsize}
use olsrd_hybrid_plc.Mantissa.{me_to_reltime}
use olsrd_hybrid_plc.NetBuffer.{olsr_validate_address}
use olsrd_hybrid_plc.Tc.{
  TcEdge, TcEntry, Conf, lookup_tc_edge, write_edge, add_tc_edge_entry, calc_tc_edge_entry_etx,
  seq_inrange_low, seq_inrange_high, delete_revoked_tc_edges,
}
use olsrd_hybrid_plc.Tc.Border.{calculate_tc_border}

abbrev pub tc_message : ℕ
tc_message = 2

abbrev pub lq_tc_message : ℕ
lq_tc_message = 202

-- Whether the message is to be processed, and the entry of its originator.
unfoldable pub check_seq : TcEntry → ℕ → ℕ → Bool × TcEntry
unfolding seq_inrange_low seq_inrange_high
check_seq tc msg_seq ansn =
    if seq_inrange_high (sub_ℕ tc.msg_seq 1024) (pos tc.msg_seq) msg_seq
      && seq_inrange_high (sub_ℕ tc.ansn 256) (pos tc.ansn) ansn
    then (if tc.msg_seq == msg_seq
        then (false, tc)
        else (leb 32 tc.ignored, record tc { ignored = (tc.ignored + 1) % 2 ^ 16 }))
    else if seq_inrange_high (pos tc.msg_seq) (pos (tc.msg_seq + 1024 * 8)) msg_seq
        && seq_inrange_low (pos tc.ansn) (pos (tc.ansn + 256 * 4)) ansn
    then (true, tc)
    else (let tc' =
          if tc.err_seq_valid then tc else record tc { err_seq = msg_seq; err_seq_valid = true } in
        (if tc'.err_seq == msg_seq then false else true, tc'))

-- An entry without edges is not checked.
unfoldable pub check_known : TcEntry → ℕ → ℕ → Bool × TcEntry
unfolding check_seq
check_known tc msg_seq ansn = elim tc.edge_tree [
  | [] ↦ (true, tc)
  | _ ∷ _ ↦ check_seq tc msg_seq ansn
]

unfoldable pub read_number : ℕ → (ℕ → ℕ) → ℕ → ℕ
read_number zero mem curr = 0
read_number (suc n) mem curr = mem curr * 256 ^ n + read_number n mem (curr + 1)

-- Whether the edge changed, where the next one starts, the neighbour that was read, and the edges.
unfoldable pub tc_update_edge : Conf → ℕ → (ℕ → ℕ) → ℕ → List TcEdge → Bool × ℕ × ℕ × List TcEdge
unfolding read_number lookup_tc_edge write_edge add_tc_edge_entry calc_tc_edge_entry_etx
tc_update_edge c ansn mem curr edges =
    let neighbor = read_number (ipsize c.ip_version) mem curr in
    let at_lq = curr + ipsize c.ip_version in
    let lq = c.deserialize_tc_lq mem at_lq in
    elim (lookup_tc_edge neighbor edges) [
      | none ↦
          if olsr_validate_address c.deny_entries neighbor
          then (let added = add_tc_edge_entry c edges neighbor ansn in
              (
                true,
                at_lq + c.lq_size,
                neighbor,
                elim (lookup_tc_edge neighbor added) [
                  | none ↦ added
                  | some e ↦ write_edge (record e { linkquality = lq }) added
                ],
              ))
          else (false, at_lq, neighbor, edges)
      | some e ↦
          let read = ltb 0 c.lq_level in
          let e' =
            if read then record e { ansn = ansn; linkquality = lq } else record e { ansn = ansn } in
          let (changed, e'') = calc_tc_edge_entry_etx c e' in
          (changed, if read then at_lq + c.lq_size else at_lq, neighbor, write_edge e'' edges)
    ]

-- The loop over the edges, on fuel: an address has 4 bytes at least, so `limit - curr` is enough. The
-- result is whether anything changed, the first neighbour and the last one, and the edges.
unfoldable pub update_edges :
    ℕ
    → Conf
    → ℕ
    → (ℕ → ℕ)
    → ℕ
    → ℕ
    → Option (ℕ × ℕ)
    → List TcEdge
    → Option (Bool × Option (ℕ × ℕ) × List TcEdge)
unfolding tc_update_edge
update_edges zero c ansn mem curr limit seen edges =
    if ltb curr limit then none else some (false, seen, edges)
update_edges (suc fuel) c ansn mem curr limit seen edges =
    let (changed, next, neighbor, edges') = tc_update_edge c ansn mem curr edges in
    let first : ℕ = elim seen [ none ↦ neighbor | some (f, _) ↦ f ] in
    let rest = update_edges fuel c ansn mem next limit (some (first, neighbor)) edges' in
    if ltb curr limit
    then (elim rest [
      | none ↦ none
      | some (changed', seen', edges'') ↦ some (changed || changed', seen', edges'')
    ])
    else some (false, seen, edges)

-- What a message makes other parts of the daemon do.
pub data Effect : Type 0 where
  insert_routing_table delete_gateway_entry delete_routing_table cleanup_mid cleanup_hna :
      ℕ → Effect
  cleanup_duplicates : ℕ → Effect

pub record TcSet : Type 0 where
  pub tc_tree : List (ℕ × TcEntry)
  pub changes_topology : Bool

-- The memory of a new entry is cleared; without a main address there is none.
unfoldable pub add_tc_entry : ℕ → ℕ → Option TcEntry
add_tc_entry main_addr adr =
    if main_addr == 0
    then none
    else some (record {
      addr = adr;
      edge_tree = [];
      edge_gc_timer = none;
      validity_timer = none;
      msg_seq = 0;
      msg_hops = 0;
      ansn = 0;
      ignored = 0;
      err_seq = 0;
      err_seq_valid = false;
    })

-- `tc` after its sequence numbers were accepted.
unfoldable pub note_message : ℕ → ℕ → ℕ → TcEntry → TcEntry
note_message msg_hops msg_seq ansn tc = record tc {
  msg_hops = msg_hops;
  msg_seq = msg_seq;
  ansn = ansn;
  ignored = 0;
  err_seq_valid = false;
}

-- The borders of the message: whether they are set, and the two addresses.
unfoldable pub borders : Conf → Bool → ℕ → ℕ → Option (ℕ × ℕ) → Option (Bool × ℕ × ℕ)
unfolding calculate_tc_border
borders c empty_tc lower upper seen =
    let set : Option (Bool × ℕ × ℕ) = elim seen [
      | none ↦ some (false, 0, 0)
      | some (first, last) ↦ calculate_tc_border c lower first upper last
    ] in
    if empty_tc && (lower == 0xff) && (upper == 0xff)
    then some (true, 0, 256 ^ ipsize c.ip_version - 1)
    else set

-- What is done with the accepted message of the entry: the edges, the timers, and the revoked edges.
-- `none` stands for a write out of bounds.
unfoldable pub process_edges : Conf → (ℕ → ℕ) → ℕ → ℕ → TcEntry → Option (Bool × Bool × TcEntry)
unfolding update_edges borders delete_revoked_tc_edges
process_edges c mem size vtime tc =
    let n = ipsize c.ip_version in
    let curr = 12 + n in
    let lower = mem (10 + n) in
    let upper = mem (11 + n) in
    let empty_tc = leb size curr in
    elim (update_edges (size - curr) c tc.ansn mem curr size none tc.edge_tree) [
      | none ↦ none
      | some (changed, seen, edges) ↦ elim (borders c empty_tc lower upper seen) [
        | none ↦ none
        | some (border_set, l, u) ↦
            let (revoked, left) = delete_revoked_tc_edges c.order tc.ansn l u false edges in
            let tc' = record tc { edge_tree = edges; validity_timer = some vtime } in
            if border_set
            then some (changed || revoked, empty_tc, record tc' { edge_tree = left })
            else some (changed, false, record tc' { edge_gc_timer = some 2000 })
      ]
    ]

-- The fields of the message's header.
abbrev pub size_of : (ℕ → ℕ) → ℕ
size_of mem = read_number 2 mem 2

abbrev pub originator_of : Conf → (ℕ → ℕ) → ℕ
originator_of c mem = read_number (ipsize c.ip_version) mem 4

abbrev pub seq_of : Conf → (ℕ → ℕ) → ℕ
seq_of c mem = read_number 2 mem (6 + ipsize c.ip_version)

abbrev pub ansn_of : Conf → (ℕ → ℕ) → ℕ
ansn_of c mem = read_number 2 mem (8 + ipsize c.ip_version)

abbrev pub vtime_of : Conf → (ℕ → ℕ) → ℕ
vtime_of c mem =
    let vtime = me_to_reltime (mem 1) in
    if ltb vtime (c.min_tc_vtime * 1000) then c.min_tc_vtime * 1000 else vtime

-- What an accepted message does to the entry of its originator. An entry that an empty message for
-- all addresses leaves without edges is deleted.
unfoldable pub accept_message :
    Conf → (ℕ → ℕ) → TcSet → TcEntry → List Effect → Option (Bool × TcSet × List Effect)
unfolding read_number note_message process_edges put delete
accept_message c mem t tc effects =
    let originator = originator_of c mem in
    let noted = note_message (mem (5 + ipsize c.ip_version)) (seq_of c mem) (ansn_of c mem) tc in
    elim (process_edges c mem (size_of mem) (vtime_of c mem) noted) [
      | none ↦ none
      | some (changed, erased, tc') ↦
          let changes = t.changes_topology || changed in
          if erased
          then some (
            true,
            record { tc_tree = delete originator t.tc_tree; changes_topology = changes },
            effects
                ++ (cleanup_mid originator
                    ∷ cleanup_hna originator
                    ∷ cleanup_duplicates originator
                    ∷ delete_gateway_entry originator
                    ∷ delete_routing_table originator
                    ∷ []),
          )
          else some (
            true,
            record { tc_tree = put originator tc' t.tc_tree; changes_topology = changes },
            effects,
          )
    ]

-- `sym_link` is whether `check_neighbor_link` finds a symmetric link to the sender. The result is
-- whether to forward the message, the new state and what other parts do; `none` is a null pointer or
-- a write out of bounds.
unfoldable pub input_tc : Conf → Bool → (ℕ → ℕ) → TcSet → Option (Bool × TcSet × List Effect)
unfolding read_number check_known add_tc_entry accept_message find put
input_tc c sym_link mem t =
    let originator = originator_of c mem in
    if ((mem 0 == lq_tc_message) || (mem 0 == tc_message)) && sym_link
    then (elim (find originator t.tc_tree) [
      | some tc ↦
          let (pass, tc') = check_known tc (seq_of c mem) (ansn_of c mem) in
          if pass
          then accept_message c mem t tc' []
          else some (false, record t { tc_tree = put originator tc' t.tc_tree }, [])
      | none ↦ elim (add_tc_entry c.main_addr originator) [
        | none ↦ none
        | some tc ↦ accept_message c mem t tc (insert_routing_table originator ∷ [])
      ]
    ])
    else some (false, t, [])

-- All definitions at once, for runs.
unfoldable pub program : Unit {0}
unfolding input_tc check_seq
program = tt
