-- ===== src/Kv.antt =====
-- Server/KVServer.cc and include/KVServer.h: the replicated state machine behind the log, and the
-- requests that wait for it.
pub mod Machine
pub mod Once
pub mod Pending
pub mod Finish
pub mod Worker
pub mod Answers
pub mod Listed
pub mod Refined
pub mod Snapshots
mod Tests
