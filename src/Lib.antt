-- ===== src/Lib.antt =====
-- The core of olsrd with its power-line extension: a daemon for the link-state routing protocol OLSR
-- (RFC 3626). Packets arrive from the neighbours, are taken apart and checked by the parser, and their
-- messages change the tables of the node, from which routes are computed; messages of the node are
-- collected in one output buffer for each interface.
--
-- Prelude           shared: tests and lists on native numbers, bits, integers, keyed stores
-- Parser            src/parser.c: the walk through a packet, the registered functions. Parser/Walk and
--                   Parser/Packet are about the walk, Parser/Functions about the registered functions
-- Tc                src/tc_set.c: edges and sequence number windows; Tc/Border the borders of a
--                   partial message; Tc/Message the handler olsr_input_tc. Tc/Seqno, Tc/Edges,
--                   Tc/Border/Value, Tc/Accept, Tc/Input and Tc/Repeated hold what is proved of them
-- Duplicate         src/duplicate_set.c: messages that were processed already
-- NetBuffer         src/net_olsr.c: output buffers, transform functions, denied addresses
-- PlcPeers          src/linklayer_plc_data.c: the hash table of power-line peers, over Hashing
--                   (src/hashing.c) and Buckets (the queue macros of src/defs.h)
-- Mantissa          src/mantissa.c: times in one byte
-- Clock             src/scheduler.c: the timestamps, not the timers
-- GatewaySpeed      src/gateway.c: speeds in one byte
-- Prefix            src/ipcalc.c: netmasks
-- Avl               src/common/avl.c: the balanced trees. Avl/Find, Avl/Insert and Avl/Delete hold what
--                   is proved of the search, the insertion and the removal, over Avl/Inorder (the
--                   items), Avl/Balance (the heights) and Avl/Order (the keys); Avl/Threads has the
--                   whole operations, on the tree and the list through its nodes
-- Links             src/link_set.c: the status of links and neighbours, the best link to a neighbour,
--                   the status that a HELLO message reports
-- Selectors         src/mpr_selector_set.c: the neighbours that chose this node
-- Mpr               src/mpr.c: the choice of the multipoint relays. Mpr/Count and Mpr/Select are its
--                   steps; Mpr/View and Mpr/Marks say what they change of a neighbour, Mpr/Maximum,
--                   Mpr/Rounds, Mpr/Calculated, Mpr/Optimized and Mpr/Changes what they choose
-- Spf               src/olsr_spf.c: the shortest paths. Spf/Graph has the walks and their costs,
--                   Spf/Candidates the candidate tree, Spf/Invariant what the rounds keep; the other
--                   files go through a step, a round and the whole loop
-- Rib               src/routing_table.c and src/process_routes.c: the routes and their way to the kernel.
--                   Rib/Fib has the queues and Rib/Insert the insertions and removals; Rib/Best is about
--                   the election, Rib/Whole, Rib/Kept and Rib/Gone about a table and a kernel in step,
--                   Rib/Routes about the routes that the paths of Spf make, and Rib/Table
--                   about the whole calculation
-- Tests             runs on concrete inputs
--
-- The parser hands each message to functions that are registered with it; the handler of TC messages is
-- one of them, and before it other handlers ask the duplicate set. They meet in the types of bytes and
-- addresses: an address is the number that its bytes are in network order. Functions have the names of
-- the source without the prefix `olsr_`. A function that changes a global variable takes and returns it.
-- A write or read out of bounds, and a null pointer that is followed, is `none`.
--
-- Loops are structural or run on fuel. The walk through a packet has a round for each byte, which is
-- enough since a message has 12 bytes at least, and the loop over the edges of a TC message one for each
-- byte that is left of it, since an address has 4. The loops of the time mantissa and of the gateway
-- speeds have a constant number of rounds: a value of 32 bits has at most 32 binary digits, and a speed
-- that is encoded at most 9 decimal ones.
--
-- The inner loop of the choice of relays has a round for each neighbour, which is enough since each round
-- makes one more of them a relay. The trees and their paths are structural.
--
-- The loop over the candidates of the shortest paths has a round for each vertex and one more: each
-- round gives one vertex its path. Costs are sums in 32 bits, which do not wrap while the dearest edge,
-- times the number of vertices, is below ROUTE_COST_BROKEN.
--
-- The functions that change the kernel's routes are parameters of Rib: a route that is added replaces the
-- one to the same destination, a refused one changes nothing, a deleted one is not there any more. The
-- pointer rt_best is a number, so that it may outlive its path.
--
-- Hash buckets are seen as lists or stores by key, the trees of edges as lists in the order of the tree,
-- the candidate tree of the paths likewise, and the neighbour tables as lists in the order of their
-- traversal, with places in them for pointers.
-- Not modelled: sockets and system calls, the timer wheel, the timers of the links and the changes of the
-- link set by HELLO messages, HNA and MID tables beyond their lookups, the prefixes that a node announces,
-- message generation, the link quality plugins (parameters of the TC handler), plugins, configuration and
-- front ends.
pub mod Prelude
pub mod Mantissa
pub mod Clock
pub mod Duplicate
pub mod Hashing
pub mod Buckets
pub mod PlcPeers
pub mod GatewaySpeed
pub mod Prefix
pub mod Rib
pub mod Avl
pub mod Links
pub mod Mpr
pub mod Selectors
pub mod NetBuffer
pub mod Parser
pub mod Spf
pub mod Tc
mod Tests
