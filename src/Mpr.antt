-- ===== src/Mpr.antt =====
-- The tables that src/mpr.c reads and writes, with the neighbour lookups of src/neighbor_table.c
-- and src/mid_set.c. A pointer to an entry is its place in the traversal of the hash table, and a
-- place outside the table, which the tables do not hold, is passed over.
pub mod Count
pub mod Select
pub mod View
pub mod Maximum
pub mod Marks
pub mod Rounds
pub mod Calculated
pub mod Changes
pub mod Optimized
use olsrd_hybrid_plc.Prelude.{
  ℕ, zero, suc, ◌+◌, ◌%◌, ◌^◌, Bool, true, false, Option, none, some, List, [], ◌∷◌, leb, ◌==◌,
  if◌then◌else◌, get_elem?, set, find,
}
use olsrd_hybrid_plc.Prelude.Int.{ℤ, pos, ◌-ℤ◌}

-- `struct neighbor_entry`: `nocov` is `neighbor_2_nocov`, `two_hops` is `neighbor_2_list`.
pub record Neighbor : Type 0 where
  pub main_addr : ℕ
  pub status : ℕ
  pub willingness : ℕ
  pub is_mpr : Bool
  pub was_mpr : Bool
  pub nocov : ℤ
  pub two_hops : List ℕ

-- `struct neighbor_2_entry`: `pointers` is `neighbor_2_pointer`, `nblist` is `neighbor_2_nblist`.
pub record TwoHop : Type 0 where
  pub addr : ℕ
  pub covered : ℕ
  pub processed : Bool
  pub pointers : ℕ
  pub nblist : List ℕ

-- `mids` is the reverse MID table: an alias and its main address.
pub record Tables : Type 0 where
  pub neighbors : List Neighbor
  pub two_hop_table : List TwoHop
  pub mids : List (ℕ × ℕ)

abbrev pub not_sym : ℕ
not_sym = 0

abbrev pub sym_status : ℕ
sym_status = 1

abbrev pub will_never : ℕ
will_never = 0

abbrev pub will_always : ℕ
will_always = 7

-- Writes through a pointer.
abbrev pub update {ℓ} : {A : Type ℓ} → ℕ → (A → A) → List A → List A
update i f [] = []
update zero f (x ∷ xs) = f x ∷ xs
update (suc i) f (x ∷ xs) = x ∷ update i f xs

abbrev pub mid_lookup_main_addr : Tables → ℕ → Option ℕ
mid_lookup_main_addr s adr = find adr (s.mids)

abbrev pub lookup_alias : List Neighbor → ℕ → Option Neighbor
lookup_alias [] dst = none
lookup_alias (n ∷ ns) dst = if n.main_addr == dst then some n else lookup_alias ns dst

abbrev pub lookup_neighbor_table : Tables → ℕ → Option Neighbor
lookup_neighbor_table s dst = elim (mid_lookup_main_addr s dst) [
  | none ↦ lookup_alias (s.neighbors) dst
  | some main ↦ lookup_alias (s.neighbors) main
]

-- The two-hop neighbour of this address is a symmetric neighbour as well.
abbrev pub is_one_hop : Tables → ℕ → Bool
is_one_hop s dst = elim (lookup_neighbor_table s dst) [
  | none ↦ false
  | some n ↦ n.status == sym_status
]

-- The same, as two of the functions ask it.
abbrev pub is_not_not_sym : Tables → ℕ → Bool
is_not_not_sym s dst = elim (lookup_neighbor_table s dst) [
  | none ↦ false
  | some n ↦ if n.status == not_sym then false else true
]

abbrev pub with_neighbors : List Neighbor → Tables → Tables
with_neighbors ns s = record { neighbors = ns; two_hop_table = s.two_hop_table; mids = s.mids }

abbrev pub with_two_hops : List TwoHop → Tables → Tables
with_two_hops ts s = record { neighbors = s.neighbors; two_hop_table = ts; mids = s.mids }

abbrev pub with_nocov : ℤ → Neighbor → Neighbor
with_nocov k n = record {
  main_addr = n.main_addr;
  status = n.status;
  willingness = n.willingness;
  is_mpr = n.is_mpr;
  was_mpr = n.was_mpr;
  nocov = k;
  two_hops = n.two_hops;
}

abbrev pub with_mpr : Bool → Bool → Neighbor → Neighbor
with_mpr is was n = record {
  main_addr = n.main_addr;
  status = n.status;
  willingness = n.willingness;
  is_mpr = is;
  was_mpr = was;
  nocov = n.nocov;
  two_hops = n.two_hops;
}

abbrev pub with_covered : ℕ → TwoHop → TwoHop
with_covered k t = record {
  addr = t.addr;
  covered = k;
  processed = t.processed;
  pointers = t.pointers;
  nblist = t.nblist;
}

abbrev pub with_processed : Bool → TwoHop → TwoHop
with_processed p t = record {
  addr = t.addr;
  covered = t.covered;
  processed = p;
  pointers = t.pointers;
  nblist = t.nblist;
}

abbrev pub set_mpr : Neighbor → Neighbor
set_mpr n = with_mpr true (n.was_mpr) n

-- The neighbours in the list of a two-hop neighbour have one less to cover.
abbrev pub one_less : Neighbor → Neighbor
one_less n = if n.status == sym_status then with_nocov (n.nocov -ℤ pos 1) n else n

abbrev pub uncover : List ℕ → List Neighbor → List Neighbor
uncover [] ns = ns
uncover (i ∷ is) ns = uncover is (update i one_less ns)

-- One entry of the list of an MPR: the tables and the count of the covered ones.
abbrev pub cover : ℕ → ℕ → TwoHop → Tables × ℕ → Tables × ℕ
cover coverage h t (s, count) =
    let k = (t.covered + 1) % 2 ^ 8 in
    let s' = with_two_hops (update h (with_covered k) (s.two_hop_table)) s in
    if is_one_hop s (t.addr)
    then (s, count)
    else if leb coverage k
    then (with_neighbors (uncover (t.nblist) (s.neighbors)) s', (count + 1) % 2 ^ 16)
    else (s', count)

abbrev pub cover_all : ℕ → List ℕ → Tables × ℕ → Tables × ℕ
cover_all coverage [] (s, count) = (s, count)
cover_all coverage (h ∷ hs) (s, count) = elim (get_elem? (s.two_hop_table) h) [
  | none ↦ cover_all coverage hs (s, count)
  | some t ↦ cover_all coverage hs (cover coverage h t (s, count))
]

unfoldable pub chosen_mpr : ℕ → ℕ → Tables × ℕ → Tables × ℕ
unfolding ◌-ℤ◌
chosen_mpr coverage i (s, count) = elim (get_elem? (s.neighbors) i) [
  | none ↦ (s, count)
  | some n ↦
      cover_all coverage (n.two_hops) (with_neighbors (update i set_mpr (s.neighbors)) s, count)
]
