-- ===== src/Tests/Buffers.antt =====
-- src/gateway.c, src/ipcalc.c and src/net_olsr.c on concrete inputs.
use olsrd_hybrid_plc.Prelude.{
  ℕ, ◌+◌, ◌*◌, ◌≤◌, ◌≡◌, inl, refl, true, some, none, List, [], ◌∷◌, arith, if◌then◌else◌, length,
  ◌%◌, ◌^◌,
}
use olsrd_hybrid_plc.Prelude.Int.{pos, negsuc, ltb_ℤ, ◌+ℤ◌}
use olsrd_hybrid_plc.GatewaySpeed.{serialize_gw_speed, deserialize_gw_speed}
use olsrd_hybrid_plc.GatewaySpeed.Announced.{deserialize-serialize}
use olsrd_hybrid_plc.Prefix.{prefix_to_netmask, netmask_to_prefix}
use olsrd_hybrid_plc.Prefix.RoundTrip.{netmask_to_prefix-prefix_to_netmask}
use olsrd_hybrid_plc.NetBuffer.{
  NetBuf, net_add_buffer, net_reserve_bufspace, net_outbuffer_push, net_output, olsr_headersize,
  sent,
}
use olsrd_hybrid_plc.NetBuffer.Queue.{
  Fits, Pushed, contents, net_outbuffer_push_lem, net_add_buffer-Fits, net_reserve_bufspace-Fits,
}
use olsrd_hybrid_plc.NetBuffer.Sending.{packet, net_output_lem}

deserialize-serialize_example :
    (deserialize_gw_speed (serialize_gw_speed 2048) ≤ 2048)
    × (3 * 2048 ≤ 4 * deserialize_gw_speed (serialize_gw_speed 2048))
deserialize-serialize_example =
    deserialize-serialize 2048 (omega arith) (omega arith) (ground arith) (ground arith)
      (ground arith)

abbrev four_bytes : List ℕ
four_bytes = 7 ∷ 7 ∷ 7 ∷ 7 ∷ []

netmask_to_prefix-prefix_to_netmask_example :
    ((prefix_to_netmask four_bytes 20).0 ≡ 1)
    × (netmask_to_prefix (prefix_to_netmask four_bytes 20).1 ≡ 20)
netmask_to_prefix-prefix_to_netmask_example =
    netmask_to_prefix-prefix_to_netmask four_bytes 20 (omega arith) (omega arith) (omega arith)

abbrev no_buffer : NetBuf
no_buffer = record { buff = none; bufsize = 0; maxsize = pos 0; pending = 0; reserved = pos 0 }

-- A buffer for a tiny MTU, with two bytes of it reserved.
abbrev new_buffer : NetBuf
new_buffer = net_add_buffer 12 no_buffer

abbrev small_buffer : NetBuf
small_buffer = (net_reserve_bufspace new_buffer (pos 2)).1

new_buffer-Fits : Fits new_buffer
new_buffer-Fits = net_add_buffer-Fits 12 no_buffer (omega arith) (inl refl)

small_buffer-Fits : Fits small_buffer
small_buffer-Fits = net_reserve_bufspace-Fits new_buffer (pos 2) (omega arith) new_buffer-Fits

net_outbuffer_push_lem_example :
    Pushed
      (ltb_ℤ small_buffer.maxsize (pos (small_buffer.pending + length four_bytes)))
      small_buffer
      four_bytes
      (net_outbuffer_push small_buffer four_bytes)
net_outbuffer_push_lem_example = net_outbuffer_push_lem small_buffer four_bytes small_buffer-Fits

-- A buffer with one pending message.
abbrev full_buffer : NetBuf
full_buffer = record {
  buff = some (0 ∷ 0 ∷ 0 ∷ 0 ∷ 7 ∷ 7 ∷ 7 ∷ 7 ∷ 0 ∷ 0 ∷ 0 ∷ 0 ∷ []);
  bufsize = 12;
  maxsize = pos 8;
  pending = 4;
  reserved = pos 0;
}

full_buffer-Fits : Fits full_buffer
unfolding ◌+ℤ◌
full_buffer-Fits = record {
  bytes = 0 ∷ 0 ∷ 0 ∷ 0 ∷ 7 ∷ 7 ∷ 7 ∷ 7 ∷ 0 ∷ 0 ∷ 0 ∷ 0 ∷ [];
  allocated = refl;
  size = refl;
  in_memory = omega arith;
  reserved_nonneg = omega arith;
  limit = omega arith;
}

net_output_lem_example :
    let (retval, out, b', seqno') = net_output [] true full_buffer 9 in
    (out ≡ sent (packet full_buffer 9))
    × (retval ≡ (if true then pos (full_buffer.pending + olsr_headersize) else negsuc 0))
    × (contents b' ≡ [])
    × Fits b'
    × (seqno' ≡ (9 + 1) % 2 ^ 16)
net_output_lem_example = net_output_lem true full_buffer 9 full_buffer-Fits (ground arith)
