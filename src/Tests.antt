-- ===== src/Tests.antt =====
-- Runs of the models on concrete inputs, and each headline theorem at an input that meets its
-- hypotheses.
mod Time
mod Duplicates
mod Peers
mod Buffers
mod Packets
mod Topology
mod Trees
mod Mprs
mod Linkage
mod Paths
mod Routes
