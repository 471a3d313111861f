-- ===== src/NetBuffer/Sending.antt =====
-- What reaches the socket.
use olsrd_hybrid_plc.Prelude.{
  ℕ, suc, ◌+◌, ◌≤◌, ◌≡◌, ◌≢◌, refl, ◌∙◌, ap, Bool, true, false, some, List, [], ◌∷◌, ◌++◌, leb,
  arith, take, drop, length, if◌then◌else◌, ◌==◌, ◌%◌, ◌^◌,
}
use olsrd_hybrid_plc.Prelude.Int.{pos, negsuc}
use olsrd_hybrid_plc.NetBuffer.{NetBuf, olsr_headersize, memcpy, htons, sent, net_output, run_ptfs}
use olsrd_hybrid_plc.NetBuffer.Bytes.{length-overwrite}
use olsrd_hybrid_plc.NetBuffer.Queue.{contents, Fits}

-- The packet: its length, its sequence number and the messages.
abbrev pub packet : NetBuf → ℕ → List ℕ
packet b seqno = (htons (b.pending + olsr_headersize) ++ htons seqno) ++ contents b

take_packet :
    (n : ℕ) (header bytes : List ℕ)
    → take (length header + n) (header ++ bytes) ≡ header ++ take n bytes
take_packet n [] bytes = let e : 0 + n ≡ n = omega arith in rw e
take_packet n (x ∷ header) bytes =
    let e : suc (length header) + n ≡ suc (length header + n) = omega arith in
    rw e (ap (λ (l : List ℕ). x ∷ l) (take_packet n header bytes))

sent_bytes :
    (p : ℕ) (header bytes : List ℕ)
    → length header ≡ 4
    → take (p + 4) (header ++ bytes) ≡ header ++ take p bytes
sent_bytes p header bytes four =
    let e : p + 4 ≡ length header + p = omega arith in rw e (take_packet p header bytes)

-- With bytes pending in a buffer that fits its memory, and no transform functions, the packet that is
-- sent is the header and the pending messages. The return value is its length, or -1 when the
-- system refuses it; in both cases the buffer is empty afterwards and the sequence number counted.
pub net_output_lem :
    (sent_ok : Bool) (b : NetBuf) (seqno : ℕ)
    → Fits b
    → b.pending ≢ 0
    → let (retval, out, b', seqno') = net_output [] sent_ok b seqno in
      (out ≡ sent (packet b seqno))
      × (retval ≡ (if sent_ok then pos (b.pending + olsr_headersize) else negsuc 0))
      × (contents b' ≡ [])
      × Fits b'
      × (seqno' ≡ (seqno + 1) % 2 ^ 16)
unfolding net_output run_ptfs htons
net_output_lem sent_ok b seqno fits some_pending =
    let test : (b.pending == 0) ≡ false = ground arith in
    let room : leb (0 + 4) (length fits.bytes) ≡ true = ground (arith, fits.size, fits.in_memory) in
    let header : List ℕ = htons (b.pending + 4) ++ htons seqno in
    let bytes' : List ℕ = header ++ drop (0 + 4) fits.bytes in
    let enough : 4 ≤ length fits.bytes = omega (arith, fits.size, fits.in_memory) in
    let valid : Fits (record b { buff = some bytes'; pending = 0 }) = record {
      bytes = bytes';
      allocated = refl;
      size = length-overwrite 0 header fits.bytes enough ∙ fits.size;
      in_memory = omega (arith, fits.size);
      reserved_nonneg = fits.reserved_nonneg;
      limit = fits.limit;
    } in
    rw (test, fits.allocated, room, net_output, memcpy)
      (ap sent (sent_bytes b.pending header (drop 4 fits.bytes) refl), refl, refl, valid, refl)
