-- ===== src/PlcPeers/Count.antt =====
-- The invariant of the table, and its size.
use olsrd_hybrid_plc.Prelude.{
  ℕ, ◌+◌, ◌≡◌, refl, none, some, List, [], ◌∷◌, arith, length, Option-cases, inl, inr,
}
use olsrd_hybrid_plc.Hashing.{IpVersion, ip_hashing, ip_hashing-lt, hashsize}
use olsrd_hybrid_plc.Buckets.{walk, set_bucket, queue_elem, length-walk-set}
use olsrd_hybrid_plc.PlcPeers.Lookup.{Once, IsValid}
use olsrd_hybrid_plc.PlcPeers.{
  PlcPeerEntry, Peers, new_peer, find_by_ip, dequeue_by_ip, bucket, all_peers,
  init_plc_peer_neighbors, insert_plc_peer_neighbor, delete_plc_peer_neighbor,
}

-- No address stands twice in a bucket, and `table_size` is the number of the peers.
pub record Inv (p : Peers) : Type 0 where
  pub valid : IsValid p
  pub counted : p.table_size ≡ length (all_peers p)

length-dequeue :
    (a : ℕ) (es : List PlcPeerEntry) (e : PlcPeerEntry)
    → find_by_ip a es ≡ some e
    → length (dequeue_by_ip a es) + 1 ≡ length es
unfolding find_by_ip dequeue_by_ip
length-dequeue a [] e h = ground arith
length-dequeue a (x ∷ es) e h = ground (arith, length-dequeue a es e)

find-dequeue_none :
    (a b : ℕ) (es : List PlcPeerEntry)
    → find_by_ip b es ≡ none
    → find_by_ip b (dequeue_by_ip a es) ≡ none
unfolding find_by_ip dequeue_by_ip
find-dequeue_none a b [] h = refl
find-dequeue_none a b (x ∷ es) h = ground (arith, find-dequeue_none a b es)

dequeue-Once : (a : ℕ) (es : List PlcPeerEntry) → Once es → Once (dequeue_by_ip a es)
unfolding dequeue_by_ip
dequeue-Once a [] once = tt
dequeue-Once a (x ∷ es) once =
    ground (arith, dequeue-Once a es once.1, find-dequeue_none a x.plc_peer_main_addr es once.0)

set-counted :
    (p : Peers) (a : ℕ) (es : List PlcPeerEntry)
    → length (walk hashsize 0 (set_bucket (ip_hashing p.ip_version a) es p.plc_peer_neighbors))
        + length (bucket p a)
      ≡ length (all_peers p) + length es
unfolding all_peers
set-counted p a es =
    length-walk-set hashsize 0 (ip_hashing p.ip_version a) es p.plc_peer_neighbors (omega arith)
      (omega (arith, ip_hashing-lt p.ip_version a))

set-IsValid :
    (p : Peers) (h : ℕ) (es : List PlcPeerEntry)
    → IsValid p
    → Once es
    → (i : ℕ) → Once (set_bucket h es p.plc_peer_neighbors i)
unfolding set_bucket
set-IsValid p h es valid once i = ground (arith, valid i)

pub init-Inv : (v : IpVersion) → Inv (init_plc_peer_neighbors v)
unfolding init_plc_peer_neighbors all_peers
init-Inv v = record { valid = λ i. tt; counted = refl }

-- An insertion keeps the invariant.
pub insert-Inv : (p : Peers) (a mac : ℕ) → Inv p → Inv (insert_plc_peer_neighbor p a mac).1
unfolding insert_plc_peer_neighbor queue_elem all_peers
insert-Inv p a mac v = elim (Option-cases (find_by_ip a (bucket p a))) [
  | inl absent ↦
      let e = new_peer a mac in
      rw (absent, insert_plc_peer_neighbor)
        (record {
          valid = set-IsValid p _ (e ∷ bucket p a) v.valid (absent, v.valid _);
          counted = omega (arith, set-counted p a (e ∷ bucket p a), v.counted);
        })
  | inr (e, there) ↦ rw (there, insert_plc_peer_neighbor) v
]

-- A deletion keeps the invariant.
pub delete-Inv : (p : Peers) (a : ℕ) → Inv p → Inv (delete_plc_peer_neighbor p a).1
unfolding delete_plc_peer_neighbor all_peers
delete-Inv p a v = elim (Option-cases (find_by_ip a (bucket p a))) [
  | inl absent ↦ rw (absent, delete_plc_peer_neighbor) v
  | inr (e, there) ↦
      let es = dequeue_by_ip a (bucket p a) in
      rw (there, delete_plc_peer_neighbor)
        (record {
          valid = set-IsValid p _ es v.valid (dequeue-Once a (bucket p a) (v.valid _));
          counted =
              omega (arith, set-counted p a es, v.counted, length-dequeue a (bucket p a) e there);
        })
]
