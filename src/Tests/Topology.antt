-- ===== src/Tests/Topology.antt =====
-- src/tc_set.c on concrete inputs.
use olsrd_hybrid_plc.Prelude.{
  ℕ, zero, suc, ◌&&◌, ◌+◌, ◌*◌, ◌/◌, ◌-◌, ◌^◌, ◌≤◌, ◌<◌, ◌≡◌, ◌⊎◌, inl, refl, true, false, Bool,
  some, none, List, [], ◌∷◌, arith, ltb, find, get_or,
}
use olsrd_hybrid_plc.Mantissa.{me_to_reltime}
use olsrd_hybrid_plc.Hashing.{af_inet, ipsize}
use olsrd_hybrid_plc.Tc.{Conf, TcEdge, TcEntry, delete_revoked_tc_edges}
use olsrd_hybrid_plc.Tc.Edges.{Ordered, drop_if, is_revoked, delete_revoked-drop_if}
use olsrd_hybrid_plc.Tc.Border.{one_border}
use olsrd_hybrid_plc.Tc.Border.Value.{one_border-with_bit}
use olsrd_hybrid_plc.Tc.Message.{check_seq, input_tc, TcSet, Effect, program}
use olsrd_hybrid_plc.Tc.Accept.{is_old, is_fresh, passes, check_seq-passes}
use olsrd_hybrid_plc.Tc.Input.{input_tc-returns}
use olsrd_hybrid_plc.Tc.Repeated.{input_tc-repeated}

abbrev same_order : ℕ → ℕ
same_order a = a

abbrev edge : ℕ → ℕ → TcEdge
edge addr ansn = record { t_dest_addr = addr; cost = 1; ansn = ansn; linkquality = 1 }

abbrev two_edges : List TcEdge
two_edges = edge 3 7 ∷ edge 5 8 ∷ []

two_edges-Ordered : Ordered same_order two_edges
two_edges-Ordered = ((omega arith, tt), (tt, tt))

delete_revoked-drop_if_example :
    delete_revoked_tc_edges same_order 8 2 6 false two_edges
    ≡ drop_if (is_revoked same_order 8 2 6) two_edges
delete_revoked-drop_if_example = delete_revoked-drop_if same_order 8 2 6 two_edges two_edges-Ordered

-- A node that was heard with the sequence number 100.
abbrev known_node : TcEntry
known_node = record {
  addr = 2;
  edge_tree = two_edges;
  edge_gc_timer = none;
  validity_timer = none;
  msg_seq = 100;
  msg_hops = 1;
  ansn = 8;
  ignored = 0;
  err_seq = 0;
  err_seq_valid = false;
}

check_seq-passes_example :
    (check_seq known_node 101 8).0
    ≡ passes (is_old known_node 101 8) (is_fresh known_node 101 8) known_node 101
check_seq-passes_example =
    check_seq-passes known_node 101 8 (omega arith, omega arith, omega arith, omega arith)

abbrev old_numbers : List (ℕ × ℕ)
old_numbers = (99, 8) ∷ (98, 7) ∷ []

abbrev conf : Conf
conf = record {
  ip_version = af_inet;
  main_addr = 1;
  deny_entries = 0 ∷ [];
  lq_level = 2;
  min_tc_vtime = 0;
  sizeof_ptr = 8;
  order = same_order;
  lq_size = 4;
  deserialize_tc_lq = λ mem curr. mem curr;
  calc_tc_cost = λ lq. lq + 1;
}

-- A border at the ninth bit.
abbrev flag : ℕ
flag = 9

one_border-with_bit_example :
    ((0 < flag)
      × (flag ≤ 8 * ipsize conf.ip_version)
      × (one_border conf 0 flag 0x0a0001fe
          ≡ some (0x0a0001fe / 2 ^ flag * 2 ^ flag + 2 ^ (flag - 1))))
    ⊎ (((flag ≡ 0) ⊎ (8 * ipsize conf.ip_version < flag))
        × (one_border conf 0 flag 0x0a0001fe ≡ none))
one_border-with_bit_example = one_border-with_bit conf 0 flag 0x0a0001fe (omega arith)

one_border_test : one_border conf 0 9 0x0a0001fe ≡ some 0x0a000100
unfolding one_border
one_border_test = refl

-- A TC message of the node 2 with the number 101, for one neighbour 3, without borders.
abbrev message_bytes : List ℕ
message_bytes =
    202 ∷ 0x86 ∷ 0 ∷ 24 ∷ 0 ∷ 0 ∷ 0 ∷ 2 ∷ 9 ∷ 1 ∷ 0 ∷ 101 ∷ 0 ∷ 9 ∷ 0 ∷ 0 ∷ 0 ∷ 0 ∷ 0 ∷ 3 ∷ 250
    ∷ 250 ∷ 0 ∷ 0 ∷ []

abbrev message : ℕ → ℕ
message i = get_or message_bytes i 0

abbrev net : TcSet
net = record { tc_tree = (2, known_node) ∷ []; changes_topology = false }

input_tc-returns_example :
    (result : Bool × TcSet × List Effect) × (input_tc conf true message net ≡ some result)
input_tc-returns_example = input_tc-returns conf true message net (ground arith) (inl (refl, refl))

-- The entry and the state that the message leaves.
abbrev new_edge_3 : TcEdge
new_edge_3 = record { t_dest_addr = 3; cost = 251; ansn = 9; linkquality = 250 }

abbrev heard_node : TcEntry
heard_node = record {
  addr = 2;
  edge_tree = new_edge_3 ∷ edge 5 8 ∷ [];
  edge_gc_timer = some 2000;
  validity_timer = some 6000;
  msg_seq = 101;
  msg_hops = 1;
  ansn = 9;
  ignored = 0;
  err_seq = 0;
  err_seq_valid = false;
}

abbrev heard_net : TcSet
heard_net = record { tc_tree = (2, heard_node) ∷ []; changes_topology = true }

all_bytes : List ℕ → Bool
all_bytes [] = true
all_bytes (b ∷ bs) = ltb b 256 && all_bytes bs

get_or-lt : (bs : List ℕ) (i : ℕ) → all_bytes bs ≡ true → get_or bs i 0 < 256
unfolding all_bytes
get_or-lt [] i h = omega arith
get_or-lt (b ∷ bs) zero h = ground arith
get_or-lt (b ∷ bs) (suc i) h = get_or-lt bs i (ground arith)

is_byte : (i : ℕ) → message i < 256
unfolding all_bytes
is_byte i = get_or-lt message_bytes i refl

first_time : input_tc conf true message net ≡ some (true, heard_net, [])
unfolding program me_to_reltime
first_time = refl

input_tc-repeated_example :
    (t'' : TcSet) × (input_tc conf true message heard_net ≡ some (false, t'', []))
    × ((o : ℕ) → find o t''.tc_tree ≡ find o heard_net.tc_tree)
unfolding program find
input_tc-repeated_example =
    input_tc-repeated conf true message net heard_net heard_node new_edge_3 (edge 5 8 ∷ []) []
      is_byte first_time refl refl
