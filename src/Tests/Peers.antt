-- ===== src/Tests/Peers.antt =====
-- src/hashing.c and src/linklayer_plc_data.c on concrete inputs.
use olsrd_hybrid_plc.Prelude.{◌≡◌, refl, some, none, ◌⊎◌, ◌==◌, if◌then◌else◌}
use olsrd_hybrid_plc.Hashing.{af_inet}
use olsrd_hybrid_plc.PlcPeers.{
  PlcPeerEntry, Peers, new_peer, init_plc_peer_neighbors, insert_plc_peer_neighbor,
  delete_plc_peer_neighbor, update_plc_peer_data, lookup_plc_peer_by_ip, all_peers, iter_next,
  program,
}
use olsrd_hybrid_plc.PlcPeers.Lookup.{lookup-insert, lookup-delete}
use olsrd_hybrid_plc.PlcPeers.Count.{Inv, init-Inv, insert-Inv}
use olsrd_hybrid_plc.PlcPeers.Iterate.{iterate, iterate-all_peers}

abbrev no_peers : Peers
no_peers = init_plc_peer_neighbors af_inet

abbrev one_peer : Peers
one_peer = (insert_plc_peer_neighbor no_peers 0x0a000001 0xb0).1

abbrev two_peers : Peers
two_peers = (insert_plc_peer_neighbor one_peer 0x0a000002 0xb1).1

two_peers-Inv : Inv two_peers
two_peers-Inv =
    insert-Inv one_peer 0x0a000002 0xb1 (insert-Inv no_peers 0x0a000001 0xb0 (init-Inv af_inet))

-- A report for a MAC address sets the rates of its peer.
reported :
    lookup_plc_peer_by_ip
      (update_plc_peer_data two_peers
        (record { mac = 0xb1; tx_rate = 9; rx_rate = 8; raw_modulation_rate = 7 })).1
      0x0a000002
    ≡ some (record {
      plc_peer_main_addr = 0x0a000002;
      plc_data = record { mac = 0xb1; tx_rate = 9; rx_rate = 8; raw_modulation_rate = 7 };
    })
unfolding program
reported = refl

lookup-insert_example :
    let r = insert_plc_peer_neighbor one_peer 0x0a000002 0xb1 in
    ((lookup_plc_peer_by_ip one_peer 0x0a000002 ≡ none)
      × (r.0 ≡ 1)
      × (lookup_plc_peer_by_ip r.1 0x0a000001 ≡ (
          if 0x0a000002 == 0x0a000001
          then some (new_peer 0x0a000002 0xb1)
          else lookup_plc_peer_by_ip one_peer 0x0a000001)))
    ⊎ ((e : PlcPeerEntry) × (lookup_plc_peer_by_ip one_peer 0x0a000002 ≡ some e)
        × (r ≡ (0, one_peer)))
lookup-insert_example = lookup-insert one_peer 0x0a000002 0xb1 0x0a000001

lookup-delete_example :
    let r = delete_plc_peer_neighbor two_peers 0x0a000002 in
    ((lookup_plc_peer_by_ip two_peers 0x0a000002 ≡ none) × (r ≡ (0, two_peers)))
    ⊎ ((e : PlcPeerEntry) × (lookup_plc_peer_by_ip two_peers 0x0a000002 ≡ some e)
        × (r.0 ≡ 1)
        × (lookup_plc_peer_by_ip r.1 0x0a000001 ≡ (
            if 0x0a000002 == 0x0a000001 then none else lookup_plc_peer_by_ip two_peers 0x0a000001)))
lookup-delete_example = lookup-delete two_peers 0x0a000002 0x0a000001 two_peers-Inv.valid

iterate-all_peers_example :
    (iterate two_peers.table_size two_peers 0 ≡ all_peers two_peers)
    × ((iter_next two_peers two_peers.table_size).0 ≡ none)
iterate-all_peers_example = iterate-all_peers two_peers two_peers-Inv
