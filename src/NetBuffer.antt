-- ===== src/NetBuffer.antt =====
-- The output buffer of an interface and the packet transform functions: src/net_olsr.c.
pub mod Bytes
pub mod Queue
pub mod Sending
use olsrd_hybrid_plc.Prelude.{
  ℕ, zero, suc, ◌+◌, ◌-◌, ◌*◌, ◌/◌, ◌%◌, ◌^◌, Bool, true, false, Option, none, some, List, [], ◌∷◌,
  ◌++◌, leb, ltb, ◌==◌, if◌then◌else◌, replicate, take, drop, length,
}
use olsrd_hybrid_plc.Prelude.Int.{ℤ, pos, negsuc, sub_ℕ, ltb_ℤ, ◌-ℤ◌, ◌+ℤ◌}

abbrev pub olsr_headersize : ℕ
olsr_headersize = 4

-- `int` fields that can be negative are integers; `pending` counts up from 0.
pub record NetBuf : Type 0 where
  pub buff : Option (List ℕ)
  pub bufsize : ℕ
  pub maxsize : ℤ
  pub pending : ℕ
  pub reserved : ℤ

-- `olsr_malloc` clears the memory that it returns.
unfoldable pub net_add_buffer : ℕ → NetBuf → NetBuf
net_add_buffer int_mtu b =
    let kept = if b.bufsize == int_mtu then b.buff else none in
    record {
      buff = elim kept [ none ↦ some (replicate int_mtu 0) | some bytes ↦ some bytes ];
      bufsize = int_mtu;
      maxsize = sub_ℕ int_mtu olsr_headersize;
      pending = 0;
      reserved = pos 0;
    }

-- The size is an `int` of the caller.
unfoldable pub net_reserve_bufspace : NetBuf → ℤ → ℤ × NetBuf
unfolding ◌-ℤ◌
net_reserve_bufspace b size =
    if ltb_ℤ b.maxsize size
    then (negsuc 0, b)
    else (pos 0, record b { reserved = size; maxsize = b.maxsize -ℤ size })

unfoldable pub net_output_pending : NetBuf → ℕ
net_output_pending b = b.pending % 2 ^ 16

-- `memcpy` to an offset in the buffer, where there is room for the bytes. `none` is a write out of
-- bounds or through a null pointer.
unfoldable pub memcpy : Option (List ℕ) → ℕ → List ℕ → Option (List ℕ)
memcpy none offset src = none
memcpy (some bytes) offset src =
    if leb (offset + length src) (length bytes)
    then some (take offset bytes ++ (src ++ drop (offset + length src) bytes))
    else none

-- The common end of both pushes: the bytes and the new count.
unfoldable pub append : NetBuf → List ℕ → Option (ℕ × NetBuf)
unfolding memcpy
append b src = elim (memcpy b.buff (b.pending + olsr_headersize) src) [
  | none ↦ none
  | some bytes ↦ some (length src, record b { buff = some bytes; pending = b.pending + length src })
]

unfoldable pub net_outbuffer_push : NetBuf → List ℕ → Option (ℕ × NetBuf)
unfolding append
net_outbuffer_push b src =
    if ltb_ℤ b.maxsize (pos (b.pending + length src)) then some (0, b) else append b src

unfoldable pub net_outbuffer_push_reserved : NetBuf → List ℕ → Option (ℕ × NetBuf)
unfolding append ◌+ℤ◌
net_outbuffer_push_reserved b src =
    if ltb_ℤ (b.maxsize +ℤ b.reserved) (pos (b.pending + length src))
    then some (0, b)
    else append b src

unfoldable pub net_outbuffer_bytes_left : NetBuf → ℤ
unfolding ◌-ℤ◌
net_outbuffer_bytes_left b = b.maxsize -ℤ pos b.pending

-- A packet transform function changes the bytes of the buffer and the length of the packet. A
-- function of the list is known by its address.
abbrev pub Transform : Type 0
Transform = List ℕ → ℕ → List ℕ × ℕ

abbrev pub PtfList : Type 0
PtfList = List (ℕ × Transform)

unfoldable pub add_ptf : ℕ → Transform → PtfList → ℕ × PtfList
add_ptf f run ptf_list = (1, (f, run) ∷ ptf_list)

unfoldable pub del_ptf : ℕ → PtfList → ℕ × PtfList
del_ptf f [] = (0, [])
del_ptf f ((g, run) ∷ ptf_list) =
    let (removed, rest) = del_ptf f ptf_list in
    if g == f then (1, ptf_list) else (removed, (g, run) ∷ rest)

unfoldable pub run_ptfs : PtfList → List ℕ → ℕ → List ℕ × ℕ
run_ptfs [] bytes pending = (bytes, pending)
run_ptfs ((f, run) ∷ ptf_list) bytes pending =
    let (bytes', pending') = run bytes pending in run_ptfs ptf_list bytes' pending'

-- Two bytes in network byte order, of a number cut to 16 bits.
unfoldable pub htons : ℕ → List ℕ
htons n = (n / 256) % 256 ∷ n % 256 ∷ []

-- What `net_output` did: nothing, as no byte was pending; a write through a null pointer or out of
-- bounds; or it handed a packet to the socket.
pub data Output : Type 0 where
  idle : Output
  out_of_bounds : Output
  sent : List ℕ → Output

-- `sent_ok` is whether `olsr_sendto` of the operating system succeeds. The result is the return
-- value, what was sent, the buffer, and the interface's packet sequence number.
unfoldable pub net_output : PtfList → Bool → NetBuf → ℕ → ℤ × Output × NetBuf × ℕ
unfolding memcpy htons run_ptfs
net_output ptf_list sent_ok b olsr_seqnum =
    if b.pending == 0
    then (pos 0, idle, b, olsr_seqnum)
    else (let pending = b.pending + olsr_headersize in
        elim (memcpy b.buff 0 (htons pending ++ htons olsr_seqnum)) [
          | none ↦ (negsuc 0, out_of_bounds, b, olsr_seqnum)
          | some bytes ↦
              let (bytes', pending') = run_ptfs ptf_list bytes pending in
              (
                if sent_ok then pos pending else negsuc 0,
                sent (take pending' bytes'),
                record b { buff = some bytes'; pending = 0 },
                (olsr_seqnum + 1) % 2 ^ 16,
              )
        ])

unfoldable pub net_remove_buffer : PtfList → Bool → NetBuf → ℕ → Output × NetBuf × ℕ
unfolding net_output
net_remove_buffer ptf_list sent_ok b olsr_seqnum =
    let (retval, out, b', seqnum) = net_output ptf_list sent_ok b olsr_seqnum in
    (out, record b' { buff = none }, seqnum)

-- The addresses that are not accepted as originators: the newest stands first. The
-- test of `olsr_validate_address` for an entry at `olsr_cnf->main_addr` is never true of an allocated
-- entry.
unfoldable pub olsr_add_invalid_address : ℕ → List ℕ → List ℕ
olsr_add_invalid_address adr deny_entries = adr ∷ deny_entries

unfoldable pub olsr_validate_address : List ℕ → ℕ → Bool
olsr_validate_address [] adr = true
olsr_validate_address (denied ∷ deny_entries) adr =
    let rest = olsr_validate_address deny_entries adr in if adr == denied then false else rest
