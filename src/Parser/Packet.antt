-- ===== src/Parser/Packet.antt =====
-- Whole packets, and packets that are shorter than their header.
use olsrd_hybrid_plc.Prelude.{
  ℕ, zero, suc, ◌+◌, ◌-◌, ◌*◌, ◌%◌, ◌^◌, ◌≤◌, ◌<◌, ◌≡◌, refl, ◌∙◌, true, false, some, List, ◌∷◌,
  ◌++◌, arith, ltb, ◌==◌, if◌then◌else◌, length, replicate, length-append,
}
use olsrd_hybrid_plc.Hashing.{IpVersion, af_inet, af_inet6}
use olsrd_hybrid_plc.Parser.{
  Parser, parse_packet, walk, run_packetparsers, ntohs, is_acceptable, min_size,
}
use olsrd_hybrid_plc.Parser.Walk.{Messages, bytes, process_all, walk-Messages}

-- A packet's header, whose first two bytes state its size, and what follows it in the memory.
abbrev pub packet_of : ℕ → ℕ → ℕ → ℕ → List (List ℕ) → List ℕ → List ℕ
packet_of a b c d ms behind = a ∷ b ∷ c ∷ d ∷ (bytes ms ++ behind)

cleared : (v : IpVersion) (count : ℕ) → is_acceptable v count (replicate 24 0) ≡ false
unfolding is_acceptable
cleared af_inet count = refl
cleared af_inet6 count = refl

module _ {S : Type 0} where
  -- What is done before the first message.
  abbrev pub before : Parser S → List ℕ → S → S
  before p olsr s =
      let s' = run_packetparsers p.packetparser_functions olsr s in
      if p.use_hysteresis then p.update_hysteresis_incoming (ntohs olsr 2) s' else s'

  parse_packet-walk :
      (fuel : ℕ) (p : Parser S) (a b c d : ℕ) (rest : List ℕ) (size count : ℕ) (s : S)
      → (size + 2 ^ 32 - 4) % 2 ^ 32 ≡ count
      → 4 ≤ count
      → a * 256 + b ≡ size
      → size < 2 ^ 16
      → let olsr = a ∷ b ∷ c ∷ d ∷ rest in
        parse_packet fuel p olsr size s ≡ walk fuel p count rest (before p olsr s)
  unfolding parse_packet
  parse_packet-walk fuel p a b c d rest size count s counted enough states small =
      let t1 : ltb count 4 ≡ false = ground arith in
      let t2 : ltb (length (a ∷ b ∷ c ∷ d ∷ rest)) 4 ≡ false = ground arith in
      let t3 : (a * 256 + b == size % 2 ^ 16) ≡ true = ground arith in rw (counted, t1, t2, t3)

  walk_zero : (fuel : ℕ) (p : Parser S) (m : List ℕ) (s : S) → walk fuel p 0 m s ≡ some s
  unfolding walk
  walk_zero zero p m s = refl
  walk_zero (suc fuel) p m s = refl

  -- Of a packet below 2 ^ 16 bytes that states its size, and is of one or more messages, each message
  -- is processed once and in its turn, after what is done for the packet as a whole; what stands behind
  -- is not.
  pub parse_packet-Messages :
      (fuel : ℕ) (p : Parser S) (a b c d : ℕ) (m : List ℕ) (ms : List (List ℕ)) (behind : List ℕ)
      (s : S)
      → Messages p.ip_version (m ∷ ms)
      → a * 256 + b ≡ 4 + length (bytes (m ∷ ms))
      → 4 + length (bytes (m ∷ ms)) < 2 ^ 16
      → let olsr = packet_of a b c d (m ∷ ms) behind in
        parse_packet (length (m ∷ ms) + fuel) p olsr (4 + length (bytes (m ∷ ms))) s
        ≡ some (process_all p (m ∷ ms) behind (before p olsr s))
  parse_packet-Messages fuel p a b c d m ms behind s valid states small =
      let n : ℕ = length (bytes (m ∷ ms)) in
      let olsr : List ℕ = packet_of a b c d (m ∷ ms) behind in
      let (_, low, _) = valid.0 in
      let counted : (4 + n + 2 ^ 32 - 4) % 2 ^ 32 ≡ n + 0 = omega arith in
      let enough : 4 ≤ n + 0 = omega (arith, length-append m (bytes ms)) in
      parse_packet-walk (length (m ∷ ms) + fuel) p a b c d (bytes (m ∷ ms) ++ behind) (4 + n)
        (n + 0) s counted enough states small
      ∙ walk-Messages fuel p 0 (m ∷ ms) behind (before p olsr s) valid
      ∙ walk_zero fuel p behind (process_all p (m ∷ ms) behind (before p olsr s))

  walk_cleared :
      (fuel : ℕ) (p : Parser S) (count : ℕ) (s : S)
      → 24 ≤ count
      → walk (suc fuel) p count (replicate 24 0) s ≡ some s
  unfolding walk
  walk_cleared fuel p count s h =
      let (t1, t2, t3) = tests p.ip_version count h in
      rw (t1, t2, t3, cleared p.ip_version count) refl
    where
      tests :
          (v : IpVersion) (count : ℕ)
          → 24 ≤ count
          → ((count == 0) ≡ false)
            × (ltb count (min_size v) ≡ false)
            × (ltb 24 (min_size v) ≡ false)
      tests af_inet count h = (ground arith, ground arith, refl)
      tests af_inet6 count h = (ground arith, ground arith, refl)

  -- A packet of 1 to 3 bytes that states its size passes the check for a minimum size, since the count
  -- of the bytes behind the header wraps around. The messages of an earlier packet that are still in
  -- the memory, up to cleared bytes and less than 2 ^ 31 bytes in all, are all processed once more.
  pub parse_packet-runt :
      (fuel : ℕ) (p : Parser S) (size a b c d : ℕ) (ms : List (List ℕ)) (s : S)
      → 0 < size
      → size < 4
      → a * 256 + b ≡ size
      → Messages p.ip_version ms
      → length (bytes ms) < 2 ^ 31
      → let olsr = packet_of a b c d ms (replicate 24 0) in
        parse_packet (length ms + suc fuel) p olsr size s
        ≡ some (process_all p ms (replicate 24 0) (before p olsr s))
  parse_packet-runt fuel p size a b c d ms s pos short states valid bound =
      let n : ℕ = length (bytes ms) in
      let olsr : List ℕ = packet_of a b c d ms (replicate 24 0) in
      let left : ℕ = size + 2 ^ 32 - 4 - n in
      let counted : (size + 2 ^ 32 - 4) % 2 ^ 32 ≡ n + left = omega arith in
      parse_packet-walk (length ms + suc fuel) p a b c d (bytes ms ++ replicate 24 0) size
        (n + left) s counted (omega arith) states (omega arith)
      ∙ walk-Messages (suc fuel) p left ms (replicate 24 0) (before p olsr s) valid
      ∙ walk_cleared fuel p left (process_all p ms (replicate 24 0) (before p olsr s)) (omega arith)
