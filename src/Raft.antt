-- ===== src/Raft.antt =====
-- Raft/Raft.cc and include/Raft.h: the node's state, its handlers, and the events of its loop.
pub mod State
pub mod Role
pub mod Commit
pub mod Replication
pub mod Election
pub mod Append
pub mod Reply
pub mod Snapshot
pub mod Loop
pub mod Start
pub mod Frame
pub mod Durable
pub mod Votes
pub mod Quorums
pub mod Queues
pub mod Reads
pub mod Valid
mod Tests
