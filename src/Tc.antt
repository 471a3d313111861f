-- ===== src/Tc.antt =====
-- The link-state database: src/tc_set.c. This file has its data, the sequence number windows, and the
-- edges of one node; Tc/Message.antt has the handler of the messages.
pub mod Seqno
pub mod Edges
pub mod Border
pub mod Message
pub mod Accept
pub mod Input
pub mod Repeated
use olsrd_hybrid_plc.Prelude.{
  ℕ, zero, suc, ◌+◌, ◌-◌, ◌*◌, ◌/◌, ◌%◌, ◌^◌, Bool, true, false, ◌&&◌, ◌||◌, Option, none, some,
  List, [], ◌∷◌, leb, ltb, ◌==◌, if◌then◌else◌,
}
use olsrd_hybrid_plc.Prelude.Int.{ℤ, pos, negsuc, ltb_ℤ}
use olsrd_hybrid_plc.Hashing.{IpVersion}

-- The cast to `uint16_t`.
abbrev pub to_u16 : ℤ → ℕ
to_u16 (pos n) = n % 2 ^ 16
to_u16 (negsuc n) = 2 ^ 16 - 1 - n % 2 ^ 16

unfoldable pub seq_inrange_low : ℤ → ℤ → ℕ → Bool
seq_inrange_low beg end seq =
    if ltb_ℤ beg (pos 0)
    then leb (to_u16 beg) seq || ltb_ℤ (pos seq) end
    else if ltb_ℤ end (pos 0x10000)
    then ((if ltb_ℤ (pos seq) beg then false else true) && ltb_ℤ (pos seq) end)
    else ((if ltb_ℤ (pos seq) beg then false else true) || ltb seq (to_u16 end))

unfoldable pub seq_inrange_high : ℤ → ℤ → ℕ → Bool
seq_inrange_high beg end seq =
    if ltb_ℤ beg (pos 0)
    then ltb (to_u16 beg) seq || (if ltb_ℤ end (pos seq) then false else true)
    else if ltb_ℤ end (pos 0x10000)
    then (ltb_ℤ beg (pos seq) && (if ltb_ℤ end (pos seq) then false else true))
    else (ltb_ℤ beg (pos seq) || leb seq (to_u16 end))

-- `SEQNO_GREATER_THAN` of src/olsr_protocol.h.
unfoldable pub seqno_greater_than : ℕ → ℕ → Bool
seqno_greater_than s1 s2 =
    (ltb s2 s1 && leb (s1 - s2) 0x7fff) || (ltb s1 s2 && ltb 0x7fff (s2 - s1))

-- `edge_inv`, a short cut of the SPF calculation, and the pointers of the tree are left out.
pub record TcEdge : Type 0 where
  pub t_dest_addr : ℕ
  pub cost : ℕ
  pub ansn : ℕ
  pub linkquality : ℕ

-- A timer is the time that it was set to. The edges stand in the order of their tree.
pub record TcEntry : Type 0 where
  pub addr : ℕ
  pub edge_tree : List TcEdge
  pub edge_gc_timer : Option ℕ
  pub validity_timer : Option ℕ
  pub msg_seq : ℕ
  pub msg_hops : ℕ
  pub ansn : ℕ
  pub ignored : ℕ
  pub err_seq : ℕ
  pub err_seq_valid : Bool

-- The configuration, and the functions of the link quality plugin: what it reads at an offset of the
-- memory, how many bytes these are, and the cost of an edge. `order` is the number by which
-- `avl_comp_default` compares addresses: for IPv4 it hangs on the byte order of the machine.
pub record Conf : Type 0 where
  pub ip_version : IpVersion
  pub main_addr : ℕ
  pub deny_entries : List ℕ
  pub lq_level : ℕ
  pub min_tc_vtime : ℕ
  pub sizeof_ptr : ℕ
  pub order : ℕ → ℕ
  pub lq_size : ℕ
  pub deserialize_tc_lq : (ℕ → ℕ) → ℕ → ℕ
  pub calc_tc_cost : ℕ → ℕ

unfoldable pub lookup_tc_edge : ℕ → List TcEdge → Option TcEdge
lookup_tc_edge edge_addr [] = none
lookup_tc_edge edge_addr (e ∷ edges) =
    if e.t_dest_addr == edge_addr then some e else lookup_tc_edge edge_addr edges

-- A write through the pointer that the lookup returned.
unfoldable pub write_edge : TcEdge → List TcEdge → List TcEdge
write_edge e' [] = []
write_edge e' (e ∷ edges) =
    if e.t_dest_addr == e'.t_dest_addr then e' ∷ edges else e ∷ write_edge e' edges

-- The place of a new edge in the order of the tree.
unfoldable pub avl_insert : (ℕ → ℕ) → TcEdge → List TcEdge → List TcEdge
avl_insert order e' [] = e' ∷ []
avl_insert order e' (e ∷ edges) =
    let rest = avl_insert order e' edges in
    if ltb (order e'.t_dest_addr) (order e.t_dest_addr) then e' ∷ e ∷ edges else e ∷ rest

unfoldable pub calc_tc_edge_entry_etx : Conf → TcEdge → Bool × TcEdge
calc_tc_edge_entry_etx c e =
    if ltb c.lq_level 1
    then (false, e)
    else (true, record e { cost = c.calc_tc_cost e.linkquality })

-- The memory of a new edge is cleared.
unfoldable pub new_edge : Conf → ℕ → ℕ → TcEdge
unfolding calc_tc_edge_entry_etx
new_edge c addr ansn =
    (calc_tc_edge_entry_etx c
      (record { t_dest_addr = addr; cost = 0; ansn = ansn; linkquality = 0 })).1

unfoldable pub add_tc_edge_entry : Conf → List TcEdge → ℕ → ℕ → List TcEdge
unfolding avl_insert new_edge
add_tc_edge_entry c edges addr ansn = avl_insert c.order (new_edge c addr ansn) edges

unfoldable pub delete_outdated_tc_edges : ℕ → List TcEdge → Bool × List TcEdge
unfolding seqno_greater_than
delete_outdated_tc_edges ansn [] = (false, [])
delete_outdated_tc_edges ansn (e ∷ edges) =
    let (deleted, rest) = delete_outdated_tc_edges ansn edges in
    if seqno_greater_than ansn e.ansn then (true, rest) else (deleted, e ∷ rest)

-- `passed` is `passedLowerBorder`.
unfoldable pub delete_revoked_tc_edges :
    (ℕ → ℕ) → ℕ → ℕ → ℕ → Bool → List TcEdge → Bool × List TcEdge
unfolding seqno_greater_than
delete_revoked_tc_edges order ansn lower upper passed [] = (false, [])
delete_revoked_tc_edges order ansn lower upper passed (e ∷ edges) =
    let reached = passed || leb (order lower) (order e.t_dest_addr) in
    let (deleted, rest) = delete_revoked_tc_edges order ansn lower upper reached edges in
    if reached
    then (if leb (order upper) (order e.t_dest_addr)
        then (false, e ∷ edges)
        else if seqno_greater_than ansn e.ansn
        then (true, rest)
        else (deleted, e ∷ rest))
    else (deleted, e ∷ rest)
