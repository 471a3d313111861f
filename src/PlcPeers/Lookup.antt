-- ===== src/PlcPeers/Lookup.antt =====
-- The table as a map from addresses to peers.
use olsrd_hybrid_plc.Prelude.{
  ℕ, ◌≡◌, none, some, List, [], ◌∷◌, arith, ◌==◌, if◌then◌else◌, Option-cases, ◌⊎◌, inl, inr,
}
use olsrd_hybrid_plc.Hashing.{ip_hashing}
use olsrd_hybrid_plc.Buckets.{set_bucket, queue_elem}
use olsrd_hybrid_plc.PlcPeers.{
  new_peer, PlcPeerEntry, Peers, find_by_ip, dequeue_by_ip, bucket, lookup_plc_peer_by_ip,
  insert_plc_peer_neighbor, delete_plc_peer_neighbor,
}

-- A list has an address at most once.
abbrev pub Once : List PlcPeerEntry → Type 0
Once [] = Unit {0}
Once (e ∷ es) = (find_by_ip e.plc_peer_main_addr es ≡ none) × Once es

-- No address stands twice in a bucket.
abbrev pub IsValid : Peers → Type 0
IsValid p = (i : ℕ) → Once (p.plc_peer_neighbors i)

find-queue :
    (p : Peers) (e : PlcPeerEntry) (b : ℕ)
    → find_by_ip b (
        queue_elem
          (ip_hashing p.ip_version e.plc_peer_main_addr)
          e
          p.plc_peer_neighbors
          (ip_hashing p.ip_version b))
      ≡ (if e.plc_peer_main_addr == b then some e else find_by_ip b (bucket p b))
unfolding find_by_ip queue_elem
find-queue p e b = ground arith

-- An insertion returns 1 and adds the peer if the address is new, for every later lookup; if it is
-- not, it returns 0 and changes nothing.
pub lookup-insert :
    (p : Peers) (a mac b : ℕ)
    → let r = insert_plc_peer_neighbor p a mac in
      ((lookup_plc_peer_by_ip p a ≡ none)
        × (r.0 ≡ 1)
        × (lookup_plc_peer_by_ip r.1 b
            ≡ (if a == b then some (new_peer a mac) else lookup_plc_peer_by_ip p b)))
      ⊎ ((e : PlcPeerEntry) × (lookup_plc_peer_by_ip p a ≡ some e) × (r ≡ (0, p)))
unfolding lookup_plc_peer_by_ip insert_plc_peer_neighbor
lookup-insert p a mac b = elim (Option-cases (find_by_ip a (bucket p a))) [
  | inl absent ↦ inl (
    absent,
    rw (absent, insert_plc_peer_neighbor),
    rw (absent, insert_plc_peer_neighbor) (find-queue p (new_peer a mac) b),
  )
  | inr (e, there) ↦ inr (e, there, rw (there, insert_plc_peer_neighbor))
]

find-dequeue :
    (a b : ℕ) (es : List PlcPeerEntry)
    → Once es
    → find_by_ip b (dequeue_by_ip a es) ≡ (if a == b then none else find_by_ip b es)
unfolding find_by_ip dequeue_by_ip
find-dequeue a b [] once = ground arith
find-dequeue a b (e ∷ es) once = ground (arith, find-dequeue a b es once.1)

find-set_bucket :
    (p : Peers) (a b : ℕ)
    → IsValid p
    → find_by_ip b (
        set_bucket
          (ip_hashing p.ip_version a)
          (dequeue_by_ip a (bucket p a))
          p.plc_peer_neighbors
          (ip_hashing p.ip_version b))
      ≡ (if a == b then none else find_by_ip b (bucket p b))
unfolding set_bucket
find-set_bucket p a b valid =
    ground (arith, find-dequeue a b (bucket p a) (valid (ip_hashing p.ip_version a)))

-- A deletion returns 1 and removes the peer, for every later lookup, if the address is in the table;
-- if it is not, it returns 0 and changes nothing.
pub lookup-delete :
    (p : Peers) (a b : ℕ)
    → IsValid p
    → let r = delete_plc_peer_neighbor p a in
      ((lookup_plc_peer_by_ip p a ≡ none) × (r ≡ (0, p)))
      ⊎ ((e : PlcPeerEntry) × (lookup_plc_peer_by_ip p a ≡ some e)
          × (r.0 ≡ 1)
          × (lookup_plc_peer_by_ip r.1 b ≡ (if a == b then none else lookup_plc_peer_by_ip p b)))
unfolding lookup_plc_peer_by_ip delete_plc_peer_neighbor
lookup-delete p a b valid = elim (Option-cases (find_by_ip a (bucket p a))) [
  | inl absent ↦ inl (absent, rw (absent, delete_plc_peer_neighbor))
  | inr (e, there) ↦ inr (
    e,
    there,
    rw (there, delete_plc_peer_neighbor),
    rw (there, delete_plc_peer_neighbor) (find-set_bucket p a b valid),
  )
]
