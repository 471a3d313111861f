-- ===== src/Parser.antt =====
-- The walk through a received packet: src/parser.c. `S` is the state of the daemon that the
-- registered functions change. Memory is the list of the bytes from a pointer on.
pub mod Functions
pub mod Walk
pub mod Packet
use olsrd_hybrid_plc.Prelude.{
  ℕ, zero, suc, ◌+◌, ◌-◌, ◌*◌, ◌%◌, ◌^◌, Bool, true, false, ◌&&◌, ◌||◌, Option, none, some, List,
  [], ◌∷◌, leb, ltb, ◌==◌, if◌then◌else◌, take, drop, length, get_or,
}
use olsrd_hybrid_plc.Hashing.{IpVersion, ipsize}
use olsrd_hybrid_plc.NetBuffer.{olsr_validate_address}

-- The type that is registered for all messages.
abbrev pub promiscuous : ℕ
promiscuous = 0xffffffff

-- A registered function is known by its address; `run` is what it does with a message: whether the
-- message is to be forwarded, and the new state.
pub record ParseFunction (S : Type 0) : Type 0 where
  pub type : ℕ
  pub function : ℕ
  pub run : List ℕ → S → Bool × S

abbrev pub PacketFunction : Type 0 → Type 0
PacketFunction S = ℕ × (List ℕ → S → S)

abbrev pub Preprocessor : Type 0 → Type 0
Preprocessor S = ℕ × (List ℕ → ℕ → S → Option (List ℕ × ℕ) × S)

-- The configuration and the functions of other files that the parser calls: hysteresis, the test for
-- another node with the own address, and forwarding.
pub record Parser (S : Type 0) : Type 0 where
  pub ip_version : IpVersion
  pub main_addr : ℕ
  pub deny_entries : List ℕ
  pub use_hysteresis : Bool
  pub parse_functions : List (ParseFunction S)
  pub packetparser_functions : List (PacketFunction S)
  pub update_hysteresis_incoming : ℕ → S → S
  pub test_originator_collision : ℕ → ℕ → S → S
  pub forward_message : List ℕ → S → S

module _ {S : Type 0} where
  unfoldable pub parser_add_function :
      (List ℕ → S → Bool × S) → ℕ → ℕ → List (ParseFunction S) → List (ParseFunction S)
  parser_add_function run function type entries =
      record { type = type; function = function; run = run } ∷ entries

  unfoldable pub parser_remove_function :
      ℕ → ℕ → List (ParseFunction S) → ℕ × List (ParseFunction S)
  parser_remove_function function type [] = (0, [])
  parser_remove_function function type (e ∷ entries) =
      let (removed, rest) = parser_remove_function function type entries in
      if (e.function == function) && (e.type == type) then (1, entries) else (removed, e ∷ rest)

  unfoldable pub packetparser_add_function :
      ℕ → (List ℕ → S → S) → List (PacketFunction S) → List (PacketFunction S)
  packetparser_add_function function run entries = (function, run) ∷ entries

  unfoldable pub packetparser_remove_function :
      ℕ → List (PacketFunction S) → ℕ × List (PacketFunction S)
  packetparser_remove_function function [] = (0, [])
  packetparser_remove_function function ((g, run) ∷ entries) =
      let (removed, rest) = packetparser_remove_function function entries in
      if g == function then (1, entries) else (removed, (g, run) ∷ rest)

  -- A preprocessor may replace the packet and its length or, with `none`, discard it.
  unfoldable pub preprocessor_add_function :
      ℕ → (List ℕ → ℕ → S → Option (List ℕ × ℕ) × S) → List (Preprocessor S) → List (Preprocessor S)
  preprocessor_add_function function run entries = (function, run) ∷ entries

  unfoldable pub preprocessor_remove_function :
      ℕ → List (Preprocessor S) → ℕ × List (Preprocessor S)
  preprocessor_remove_function function [] = (0, [])
  preprocessor_remove_function function ((g, run) ∷ entries) =
      let (removed, rest) = preprocessor_remove_function function entries in
      if g == function then (1, entries) else (removed, (g, run) ∷ rest)

  -- The loop over the preprocessors in front of `parse_packet`, on a packet and its length.
  unfoldable pub run_preprocessors :
      List (Preprocessor S) → List ℕ → ℕ → S → Option (List ℕ × ℕ) × S
  run_preprocessors [] packet cc s = (some (packet, cc), s)
  run_preprocessors ((g, run) ∷ entries) packet cc s =
      let (kept, s') = run packet cc s in
      elim kept [
        | none ↦ (none, s')
        | some (packet', cc') ↦ run_preprocessors entries packet' cc' s'
      ]

-- Fields in network byte order.
abbrev pub ntohs : List ℕ → ℕ → ℕ
ntohs m i = get_or m i 0 * 256 + get_or m (i + 1) 0

unfoldable pub address : ℕ → List ℕ → ℕ → ℕ
address zero m acc = acc
address (suc n) [] acc = acc
address (suc n) (x ∷ m) acc = address n m (acc * 256 + x)

abbrev pub min_size : IpVersion → ℕ
min_size v = 8 + ipsize v

abbrev pub msgsize : List ℕ → ℕ
msgsize m = ntohs m 2

abbrev pub originator : IpVersion → List ℕ → ℕ
originator v m = address (ipsize v) (drop 4 m) 0

abbrev pub seqno : IpVersion → List ℕ → ℕ
seqno v m = ntohs m (6 + ipsize v)

-- The three checks of a message's size, with `count` bytes left.
unfoldable pub is_acceptable : IpVersion → ℕ → List ℕ → Bool
is_acceptable v count m =
    leb (min_size v) (msgsize m) && (msgsize m % 4 == 0) && leb (msgsize m) count

module _ {S : Type 0} where
  -- Every entry for all types or for the message's; `forward` is what the entries said so far.
  unfoldable pub run_functions : List (ParseFunction S) → List ℕ → Bool → S → Bool × S
  run_functions [] m forward s = (forward, s)
  run_functions (e ∷ entries) m forward s =
      let (wanted, s') = e.run m s in
      let called = run_functions entries m (if wanted then forward else false) s' in
      let passed = run_functions entries m forward s in
      if (e.type == promiscuous) || (e.type == get_or m 0 0) then called else passed

  -- The part of the loop's body behind the checks of the size.
  unfoldable pub process_message : Parser S → List ℕ → S → S
  unfolding run_functions olsr_validate_address address
  process_message p m s =
      let orig = originator p.ip_version m in
      let validated = olsr_validate_address p.deny_entries orig in
      if (orig == p.main_addr) || (if validated then false else true)
      then (if validated
          then p.test_originator_collision (get_or m 0 0) (seqno p.ip_version m) s
          else s)
      else (let (forward, s') = run_functions p.parse_functions m true s in
          if forward then p.forward_message m s' else s')

  -- `none` is a read outside of the memory, or a lack of fuel. A message has 12 bytes at least, so
  -- `count` is enough fuel.
  unfoldable pub walk : ℕ → Parser S → ℕ → List ℕ → S → Option S
  unfolding process_message is_acceptable
  walk zero p count m s = if count == 0 then some s else none
  walk (suc fuel) p count m s =
      let rest = walk fuel p (count - msgsize m) (drop (msgsize m) m) (process_message p m s) in
      if count == 0
      then some s
      else if ltb count (min_size p.ip_version)
      then some s
      else if ltb (length m) (min_size p.ip_version)
      then none
      else if is_acceptable p.ip_version count m
      then rest
      else some s

  unfoldable pub run_packetparsers : List (PacketFunction S) → List ℕ → S → S
  run_packetparsers [] olsr s = s
  run_packetparsers ((g, run) ∷ entries) olsr s = run_packetparsers entries olsr (run olsr s)

  -- The `size` bytes that were received stand first in the memory. `count` has 32 bits without a sign.
  unfoldable pub parse_packet : ℕ → Parser S → List ℕ → ℕ → S → Option S
  unfolding walk run_packetparsers
  parse_packet fuel p olsr size s =
      let count = (size + 2 ^ 32 - 4) % 2 ^ 32 in
      if ltb count 4
      then some s
      else if ltb (length olsr) 4
      then none
      else if ntohs olsr 0 == size % 2 ^ 16
      then (let s' = run_packetparsers p.packetparser_functions olsr s in
          let s'' =
            if p.use_hysteresis then p.update_hysteresis_incoming (ntohs olsr 2) s' else s' in
          walk fuel p count (drop 4 olsr) s'')
      else some s
