-- ===== src/PlcPeers.antt =====
-- src/linklayer_plc_data.c: the table of the power-line peers, by IP address, with the data that the
-- power-line service reports for a MAC address. Addresses and MACs are numbers (their bytes in
-- network order); a rate is a byte, the modulation rate the bits of its float.
pub mod Lookup
pub mod Count
pub mod Iterate
use olsrd_hybrid_plc.Prelude.{
  ℕ, zero, suc, ◌+◌, ◌-◌, ◌<◌, Bool, true, false, List, [], ◌∷◌, Option, none, some, ltb, ◌==◌,
  if◌then◌else◌,
}
use olsrd_hybrid_plc.Hashing.{IpVersion, ip_hashing, hashsize}
use olsrd_hybrid_plc.Buckets.{Table, set_bucket, queue_elem, walk}

pub record PlcData : Type 0 where
  pub mac : ℕ
  pub tx_rate : ℕ
  pub rx_rate : ℕ
  pub raw_modulation_rate : ℕ

pub record PlcPeerEntry : Type 0 where
  pub plc_peer_main_addr : ℕ
  pub plc_data : PlcData

-- The globals of the file.
pub record Peers : Type 0 where
  pub ip_version : IpVersion
  pub plc_peer_neighbors : Table PlcPeerEntry
  pub own_plc_mac : ℕ
  pub ready : Bool
  pub table_size : ℕ

unfoldable pub init_plc_peer_neighbors : IpVersion → Peers
init_plc_peer_neighbors v = record {
  ip_version = v;
  plc_peer_neighbors = λ i. [];
  own_plc_mac = 0;
  ready = false;
  table_size = 0;
}

-- The first entry of a list with an address.
unfoldable pub find_by_ip : ℕ → List PlcPeerEntry → Option PlcPeerEntry
find_by_ip a [] = none
find_by_ip a (e ∷ es) = if e.plc_peer_main_addr == a then some e else find_by_ip a es

-- The list without that entry.
unfoldable pub dequeue_by_ip : ℕ → List PlcPeerEntry → List PlcPeerEntry
dequeue_by_ip a [] = []
dequeue_by_ip a (e ∷ es) = if e.plc_peer_main_addr == a then es else e ∷ dequeue_by_ip a es

abbrev pub bucket : Peers → ℕ → List PlcPeerEntry
bucket p a = p.plc_peer_neighbors (ip_hashing p.ip_version a)

unfoldable pub lookup_plc_peer_by_ip : Peers → ℕ → Option PlcPeerEntry
unfolding find_by_ip
lookup_plc_peer_by_ip p dst = find_by_ip dst (bucket p dst)

-- 0 if there is no such peer, 1 if it was deleted.
unfoldable pub delete_plc_peer_neighbor : Peers → ℕ → ℕ × Peers
unfolding find_by_ip dequeue_by_ip set_bucket
delete_plc_peer_neighbor p peer_addr = elim (find_by_ip peer_addr (bucket p peer_addr)) [
  | none ↦ (0, p)
  | some _ ↦ (
    1,
    record p {
      plc_peer_neighbors =
          set_bucket (ip_hashing p.ip_version peer_addr)
            (dequeue_by_ip peer_addr (bucket p peer_addr)) p.plc_peer_neighbors;
      table_size = p.table_size - 1;
    },
  )
]

-- `olsr_malloc` clears the memory: the rates of a new peer are 0.
abbrev pub new_peer : ℕ → ℕ → PlcPeerEntry
new_peer main_addr mac = record {
  plc_peer_main_addr = main_addr;
  plc_data = record { mac = mac; tx_rate = 0; rx_rate = 0; raw_modulation_rate = 0 };
}

unfoldable pub insert_plc_peer_neighbor : Peers → ℕ → ℕ → ℕ × Peers
unfolding find_by_ip queue_elem
insert_plc_peer_neighbor p main_addr mac = elim (find_by_ip main_addr (bucket p main_addr)) [
  | some _ ↦ (0, p)
  | none ↦ (
    1,
    record p {
      plc_peer_neighbors =
          queue_elem (ip_hashing p.ip_version main_addr) (new_peer main_addr mac)
            p.plc_peer_neighbors;
      table_size = p.table_size + 1;
    },
  )
]

-- All peers, bucket by bucket.
unfoldable pub all_peers : Peers → List PlcPeerEntry
unfolding walk
all_peers p = walk hashsize 0 p.plc_peer_neighbors

unfoldable pub find_by_mac : ℕ → List PlcPeerEntry → Option PlcPeerEntry
find_by_mac mac [] = none
find_by_mac mac (e ∷ es) = if mac == e.plc_data.mac then some e else find_by_mac mac es

unfoldable pub lookup_plc_peer_by_mac : Peers → ℕ → Option PlcPeerEntry
lookup_plc_peer_by_mac p mac = find_by_mac mac (all_peers p)

-- The search of `iter_next` through the table, with its counter `j`.
unfoldable pub iter_search : ℕ → ℕ → List PlcPeerEntry → Option PlcPeerEntry
iter_search num_iterated j [] = none
iter_search num_iterated j (e ∷ es) =
    if ltb num_iterated (j + 1) then some e else iter_search num_iterated (j + 1) es

-- An iterator is its `num_iterated`, 0 at first; the call returns a peer or NULL.
unfoldable pub iter_next : Peers → ℕ → Option PlcPeerEntry × ℕ
iter_next p num_iterated =
    if p.table_size == 0
    then (none, num_iterated)
    else elim (iter_search num_iterated 0 (all_peers p)) [
      | none ↦ (none, num_iterated)
      | some e ↦ (some e, num_iterated + 1)
    ]

unfoldable pub set_own_plc_mac : Peers → ℕ → Peers
set_own_plc_mac p mac = record p { own_plc_mac = mac; ready = true }

-- The write to the first entry with the MAC, in a list of entries.
unfoldable pub write_rates : PlcData → List PlcPeerEntry → List PlcPeerEntry
write_rates d [] = []
write_rates d (e ∷ es) =
    if d.mac == e.plc_data.mac
    then record e { plc_data = record d { mac = e.plc_data.mac } } ∷ es
    else e ∷ write_rates d es

-- The same through the buckets from `i` on: only the first bucket that has the MAC is written.
unfoldable pub write_buckets : ℕ → ℕ → PlcData → Table PlcPeerEntry → Table PlcPeerEntry
unfolding find_by_mac write_rates set_bucket
write_buckets zero i d t = t
write_buckets (suc n) i d t = elim (find_by_mac d.mac (t i)) [
  | some _ ↦ set_bucket i (write_rates d (t i)) t
  | none ↦ write_buckets n (i + 1) d t
]

unfoldable pub update_plc_peer_data : Peers → PlcData → ℕ × Peers
update_plc_peer_data p d = elim (lookup_plc_peer_by_mac p d.mac) [
  | none ↦ (0, p)
  | some _ ↦ (1, record p { plc_peer_neighbors = write_buckets hashsize 0 d p.plc_peer_neighbors })
]

-- What a run of the table computes with.
unfoldable pub program : Unit {0}
unfolding ip_hashing find_by_ip dequeue_by_ip set_bucket queue_elem walk all_peers find_by_mac
    init_plc_peer_neighbors lookup_plc_peer_by_ip delete_plc_peer_neighbor insert_plc_peer_neighbor
    lookup_plc_peer_by_mac iter_search iter_next write_rates write_buckets update_plc_peer_data
program = tt
