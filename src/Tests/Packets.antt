-- ===== src/Tests/Packets.antt =====
-- src/parser.c on concrete packets.
use olsrd_hybrid_plc.Prelude.{
  ℕ, ◌+◌, ◌≡◌, refl, true, false, some, List, [], ◌∷◌, arith, length, replicate, get_or,
}
use olsrd_hybrid_plc.Hashing.{af_inet}
use olsrd_hybrid_plc.Parser.{
  Parser, ParseFunction, promiscuous, walk, parse_packet, process_message,
}
use olsrd_hybrid_plc.Parser.Walk.{Messages, bytes, process_all, walk-returns}
use olsrd_hybrid_plc.Parser.Packet.{packet_of, before, parse_packet-Messages, parse_packet-runt}

-- The state is a log: the types that the registered functions see, and 99 for a message that is
-- forwarded. Messages of type 2 are not to be forwarded.
abbrev log_type : ParseFunction (List ℕ)
log_type = record { type = promiscuous; function = 1; run = λ m s. (true, get_or m 0 0 ∷ s) }

abbrev hold_back : ParseFunction (List ℕ)
hold_back = record { type = 2; function = 2; run = λ m s. (false, s) }

abbrev node : Parser (List ℕ)
node = record {
  ip_version = af_inet;
  main_addr = 0x0a000001;
  deny_entries = 0 ∷ [];
  use_hysteresis = false;
  parse_functions = hold_back ∷ log_type ∷ [];
  packetparser_functions = [];
  update_hysteresis_incoming = λ n s. s;
  test_originator_collision = λ t n s. s;
  forward_message = λ m s. 99 ∷ s;
}

-- Two messages of the node 10.0.0.2, of types 1 and 2.
abbrev hello : List ℕ
hello = 1 ∷ 0x86 ∷ 0 ∷ 12 ∷ 10 ∷ 0 ∷ 0 ∷ 2 ∷ 1 ∷ 0 ∷ 0 ∷ 7 ∷ []

abbrev tc : List ℕ
tc = 2 ∷ 0x86 ∷ 0 ∷ 12 ∷ 10 ∷ 0 ∷ 0 ∷ 2 ∷ 9 ∷ 0 ∷ 0 ∷ 8 ∷ []

abbrev two_messages : List (List ℕ)
two_messages = hello ∷ tc ∷ []

two_messages-valid : Messages af_inet two_messages
two_messages-valid = ((refl, omega arith, refl), ((refl, omega arith, refl), tt))

logged : process_all node two_messages [] [] ≡ 2 ∷ 99 ∷ 1 ∷ []
unfolding process_message
logged = refl

walk-returns_example : (s' : List ℕ) × (walk 24 node 24 (bytes two_messages) [] ≡ some s')
walk-returns_example = walk-returns 24 node 24 (bytes two_messages) [] (omega arith) (omega arith)

parse_packet-Messages_example :
    parse_packet
      (2 + 0)
      node
      (packet_of 0 28 0 1 two_messages [])
      (4 + length (bytes two_messages))
      []
    ≡ some (process_all node two_messages [] (before node (packet_of 0 28 0 1 two_messages []) []))
parse_packet-Messages_example =
    parse_packet-Messages 0 node 0 28 0 1 hello (tc ∷ []) [] [] two_messages-valid refl
      (omega arith)

parse_packet-runt_example :
    parse_packet (2 + 1) node (packet_of 0 2 0 1 two_messages (replicate 24 0)) 2 []
    ≡ some (
        process_all node two_messages
          (replicate 24 0)
          (before node (packet_of 0 2 0 1 two_messages (replicate 24 0)) []))
parse_packet-runt_example =
    parse_packet-runt 0 node 2 0 2 0 1 two_messages [] (omega arith) (omega arith) refl
      two_messages-valid (omega arith)
