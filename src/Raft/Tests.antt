-- ===== src/Raft/Tests.antt =====
-- The node's theorems at a cluster of three nodes.
mod Nodes
mod Histories
mod Handlers
