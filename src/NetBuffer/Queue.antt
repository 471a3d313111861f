-- ===== src/NetBuffer/Queue.antt =====
-- The buffer as a queue of bytes that is bounded by the MTU.
use olsrd_hybrid_plc.Prelude.{
  ℕ, ◌+◌, ◌≤◌, ◌≡◌, ◌⊎◌, inl, inr, refl, ◌∙◌, Bool, true, false, Bool-cases, Option, none, some,
  List, ◌++◌, leb, arith, take, drop, length, length-replicate, if◌then◌else◌, ◌==◌, replicate,
}
use olsrd_hybrid_plc.Prelude.Int.{ℤ, pos, sub_ℕ, ltb_ℤ, ◌≤ℤ◌, ◌-ℤ◌, ◌+ℤ◌}
use olsrd_hybrid_plc.NetBuffer.{
  NetBuf, olsr_headersize, net_add_buffer, net_reserve_bufspace, net_outbuffer_push,
  net_outbuffer_push_reserved, append, memcpy,
}
use olsrd_hybrid_plc.NetBuffer.Bytes.{segment-append, length-overwrite}

-- The messages that are pending, as bytes.
abbrev pub contents : NetBuf → List ℕ
contents b = elim b.buff [
  | none ↦ List.[]
  | some bytes ↦ take b.pending (drop olsr_headersize bytes)
]

-- The memory has the size that the buffer states, the pending bytes and the header lie in it, and so
-- does what the limits allow to add.
pub record Fits (b : NetBuf) : Type 0 where
  pub bytes : List ℕ
  pub allocated : b.buff ≡ some bytes
  pub size : length bytes ≡ b.bufsize
  pub in_memory : b.pending + olsr_headersize ≤ b.bufsize
  pub reserved_nonneg : pos 0 ≤ℤ b.reserved
  pub limit : b.maxsize +ℤ b.reserved ≤ℤ sub_ℕ b.bufsize olsr_headersize

-- The bytes of the buffer with `src` behind those that are pending.
abbrev longer : List ℕ → ℕ → List ℕ → List ℕ
longer bytes pending src =
    take (pending + 4) bytes ++ (src ++ drop (pending + 4 + length src) bytes)

contents-longer :
    (pending : ℕ) (bytes src : List ℕ)
    → pending + 4 ≤ length bytes
    → take (pending + length src) (drop 4 (longer bytes pending src))
      ≡ take pending (drop 4 bytes) ++ src
contents-longer pending bytes src h =
    let e : pending + 4 ≡ 4 + pending = omega arith in
    let rest : List ℕ = drop (4 + pending + length src) bytes in
    rw e (segment-append 4 pending bytes src rest (omega arith))

append_lem :
    (b : NetBuf) (src : List ℕ) (fits : Fits b)
    → b.pending + length src + olsr_headersize ≤ b.bufsize
    → (b' : NetBuf) × (append b src ≡ some (length src, b'))
      × Fits b'
      × (contents b' ≡ contents b ++ src)
unfolding append memcpy
append_lem b src fits room =
    let bytes' : List ℕ = longer fits.bytes b.pending src in
    let test : leb (b.pending + 4 + length src) (length fits.bytes) ≡ true =
      ground (arith, fits.size) in
    let b' : NetBuf = record b { buff = some bytes'; pending = b.pending + length src } in
    let valid : Fits b' = record {
      bytes = bytes';
      allocated = refl;
      size = length-overwrite (b.pending + 4) src fits.bytes (omega (arith, fits.size)) ∙ fits.size;
      in_memory = omega arith;
      reserved_nonneg = fits.reserved_nonneg;
      limit = fits.limit;
    } in
    (
      b',
      rw (fits.allocated, test, append, memcpy) refl,
      valid,
      rw fits.allocated (contents-longer b.pending fits.bytes src (omega (arith, fits.size))),
    )

room_of_limit :
    (b : NetBuf) (n : ℕ)
    → Fits b
    → ltb_ℤ (b.maxsize +ℤ b.reserved) (pos (b.pending + n)) ≡ false
    → b.pending + n + olsr_headersize ≤ b.bufsize
unfolding ◌+ℤ◌
room_of_limit b n fits test =
    let l : b.maxsize +ℤ b.reserved ≤ℤ sub_ℕ b.bufsize olsr_headersize = fits.limit in
    let i : b.pending + 4 ≤ b.bufsize = fits.in_memory in ground arith

under_limit :
    (b : NetBuf) (n : ℕ)
    → Fits b
    → ltb_ℤ b.maxsize (pos (b.pending + n)) ≡ false
    → ltb_ℤ (b.maxsize +ℤ b.reserved) (pos (b.pending + n)) ≡ false
unfolding ◌+ℤ◌
under_limit b n fits test = let r : pos 0 ≤ℤ b.reserved = fits.reserved_nonneg in ground arith

-- What a push does: it refuses and changes nothing, if the limit would be passed, or adds the bytes
-- at the end, and never writes out of bounds.
abbrev pub Pushed : Bool → NetBuf → List ℕ → Option (ℕ × NetBuf) → Type 0
Pushed refused b src result =
    ((refused ≡ true) × (result ≡ some (0, b)))
    ⊎ ((refused ≡ false)
        × ((b' : NetBuf) × (result ≡ some (length src, b'))
            × Fits b'
            × (contents b' ≡ contents b ++ src)))

-- In a buffer that fits its memory, a push is refused and changes nothing if the bytes would pass
-- the limit without the reserved part, and else adds them at the end, within the memory.
pub net_outbuffer_push_lem :
    (b : NetBuf) (src : List ℕ)
    → Fits b
    → Pushed (ltb_ℤ b.maxsize (pos (b.pending + length src))) b src (net_outbuffer_push b src)
unfolding net_outbuffer_push
net_outbuffer_push_lem b src fits =
    elim (Bool-cases (ltb_ℤ b.maxsize (pos (b.pending + length src)))) [
      | inl full ↦ inl (full, rw (full, net_outbuffer_push) refl)
      | inr free ↦ inr (
        free,
        rw (free, net_outbuffer_push)
            (append_lem b src fits
              (room_of_limit b (length src) fits (under_limit b (length src) fits free))),
      )
    ]

-- In a buffer that fits its memory, a push to the reserved part is refused and changes nothing if the
-- bytes would pass the limit with the reserved part, and else adds them at the end, within the memory.
pub net_outbuffer_push_reserved_lem :
    (b : NetBuf) (src : List ℕ)
    → Fits b
    → Pushed
        (ltb_ℤ (b.maxsize +ℤ b.reserved) (pos (b.pending + length src)))
        b
        src
        (net_outbuffer_push_reserved b src)
unfolding net_outbuffer_push_reserved
net_outbuffer_push_reserved_lem b src fits =
    elim (Bool-cases (ltb_ℤ (b.maxsize +ℤ b.reserved) (pos (b.pending + length src)))) [
      | inl full ↦ inl (full, rw (full, net_outbuffer_push_reserved) refl)
      | inr free ↦ inr (
        free,
        rw (free, net_outbuffer_push_reserved)
            (append_lem b src fits (room_of_limit b (length src) fits free)),
      )
    ]

abbrev kept : ℕ → NetBuf → Option (List ℕ)
kept int_mtu b = if b.bufsize == int_mtu then b.buff else none

memory :
    (int_mtu : ℕ) (o : Option (List ℕ))
    → ((bytes : List ℕ) → o ≡ some bytes → length bytes ≡ int_mtu)
    → (bytes : List ℕ) × ((elim o as (λ x. Option (List ℕ)) [
      | none ↦ some (replicate int_mtu 0)
      | some old ↦ some old
    ])
        ≡ some bytes)
      × (length bytes ≡ int_mtu)
memory int_mtu none h = (replicate int_mtu 0, refl, length-replicate int_mtu 0)
memory int_mtu (some old) h = (old, refl, h old refl)

kept-length :
    (int_mtu : ℕ) (b : NetBuf)
    → (b.buff ≡ none) ⊎ Fits b
    → (bytes : List ℕ) → kept int_mtu b ≡ some bytes
    → length bytes ≡ int_mtu
kept-length int_mtu b (inl absent) bytes h = ground arith
kept-length int_mtu b (inr fits) bytes h =
    let same : length fits.bytes ≡ b.bufsize = fits.size in
    let there : b.buff ≡ some fits.bytes = fits.allocated in ground arith

-- A buffer for an MTU of at least the header fits its memory, if it had none before or fitted it.
pub net_add_buffer-Fits :
    (int_mtu : ℕ) (b : NetBuf)
    → olsr_headersize ≤ int_mtu
    → (b.buff ≡ none) ⊎ Fits b
    → Fits (net_add_buffer int_mtu b)
unfolding net_add_buffer ◌+ℤ◌
net_add_buffer-Fits int_mtu b room before =
    let (bytes, allocated, size) = memory int_mtu (kept int_mtu b) (kept-length int_mtu b before) in
    record {
      bytes = bytes;
      allocated = allocated;
      size = size;
      in_memory = omega arith;
      reserved_nonneg = omega arith;
      limit = ground arith;
    }

reserve_limit :
    (m r size c : ℤ) → pos 0 ≤ℤ r → ltb_ℤ m size ≡ false → m +ℤ r ≤ℤ c → (m -ℤ size) +ℤ size ≤ℤ c
unfolding ◌+ℤ◌ ◌-ℤ◌
reserve_limit m r size c h t l = ground arith

-- A reservation of a size that is not negative keeps the buffer within its memory.
pub net_reserve_bufspace-Fits :
    (b : NetBuf) (size : ℤ) → pos 0 ≤ℤ size → Fits b → Fits (net_reserve_bufspace b size).1
unfolding net_reserve_bufspace
net_reserve_bufspace-Fits b size nonneg fits = elim (Bool-cases (ltb_ℤ b.maxsize size)) [
  | inl small ↦ rw (small, net_reserve_bufspace) fits
  | inr enough ↦
      rw (enough, net_reserve_bufspace)
        (record {
          bytes = fits.bytes;
          allocated = fits.allocated;
          size = fits.size;
          in_memory = fits.in_memory;
          reserved_nonneg = nonneg;
          limit =
              reserve_limit b.maxsize b.reserved size (sub_ℕ b.bufsize olsr_headersize)
                fits.reserved_nonneg enough fits.limit;
        })
]
