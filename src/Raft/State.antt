-- ===== src/Raft/State.antt =====
-- The state of a node (include/Raft.h), the messages of Proto/RaftRpc.proto, and the effects that
-- a handler hands to the thread pool, the streams and the callers.
use raft_storage.Common.{ℕ, String, Bool, Option, List}
use raft_storage.Log.{Log, LogEntry}
use raft_storage.Persister.{Persister}

pub data Status : Type 0 where
  follower precandidate candidate leader : Status

-- The vote states of Raft/Raft.cc.
pub data ReplyStatus : Type 0 where
  log_outdated voted expired normal not_up_to_date : ReplyStatus

pub record RequestVoteArgs : Type 0 where
  pub term : ℕ
  pub candidate_id : ℕ
  pub last_log_index : ℕ
  pub last_log_term : ℕ

pub record RequestVoteReply : Type 0 where
  pub term : ℕ
  pub vote_granted : Bool
  pub vote_state : ReplyStatus

pub record AppendEntriesArgs : Type 0 where
  pub term : ℕ
  pub leader_id : ℕ
  pub prev_log_index : ℕ
  pub prev_log_term : ℕ
  pub entries : List LogEntry
  pub leader_commit : ℕ
  pub read_round : Option ℕ

-- `update_next_index` is `none` for the -100 of the source.
pub record AppendEntriesReply : Type 0 where
  pub term : ℕ
  pub success : Bool
  pub update_next_index : Option ℕ
  pub status : ReplyStatus
  pub read_round : Option ℕ

pub record InstallSnapshotArgs : Type 0 where
  pub term : ℕ
  pub leader_id : ℕ
  pub last_snapshot_include_index : ℕ
  pub last_snapshot_include_term : ℕ
  pub snapshot : String

-- `ApplyMsg`: a committed command, or a snapshot to restore.
pub data ApplyMsg : Type 0 where
  command_msg : String → ℕ → ℕ → ApplyMsg
  snapshot_msg : String → ℕ → ℕ → ApplyMsg

-- The arguments of a `readIndex` callback: (false, -1, -1), (false, -2, -2), (false, round, index)
-- and (true, round, index).
pub data ReadResult : Type 0 where
  wrong_leader not_committed : ReadResult
  failed completed : ℕ → ℕ → ReadResult

-- A vote answer names the candidate; a start answer holds the index and term of the new entry, or
-- nothing if the node does not lead.
pub data Effect : Type 0 where
  send_pre_vote : ℕ → RequestVoteArgs → ℕ → Effect
  send_request_vote : ℕ → RequestVoteArgs → Effect
  send_append_entries send_read_heart_beat : ℕ → AppendEntriesArgs → Effect
  send_snapshot : ℕ → InstallSnapshotArgs → Effect
  append_reply : ℕ → AppendEntriesReply → Effect
  snapshot_reply : ℕ → ℕ → Effect
  reset_backoff : ℕ → Effect
  callback : ℕ → ReadResult → Effect
  vote_answer pre_vote_answer : ℕ → RequestVoteReply → Effect
  start_answer : Option (ℕ × ℕ) → Effect

-- `acks` is a set, kept as a list without repetition; a callback is named by a number.
pub record PendingReadIndex : Type 0 where
  pub round : ℕ
  pub term : ℕ
  pub read_index : ℕ
  pub acks : List ℕ
  pub callbacks : List ℕ

-- Times are milliseconds; `none` is `time_point::min()`.
pub record Timers : Type 0 where
  pub last_reset_election_time : ℕ
  pub last_reset_heart_beat_time : ℕ
  pub election_deadline : ℕ
  pub heartbeat_deadline : ℕ
  pub quorum_deadline : ℕ
  pub last_leader_contact : Option ℕ
  pub last_peer_contact : ℕ → Option ℕ

pub record Raft : Type 0 where
  pub current_term : ℕ
  pub voted_for : Option ℕ
  pub log : Log
  pub commit_index : ℕ
  pub last_applied : ℕ
  pub status : Status
  pub next_index : ℕ → ℕ
  pub match_index : ℕ → ℕ
  pub current_term_committed : Bool
  pub active_read : Option PendingReadIndex
  pub read_index_pending : ℕ → ℕ
  pub read_index_round : ℕ
  pub replication_in_flight : ℕ → Bool
  pub replication_pending : ℕ → Bool
  pub votes_granted : ℕ
  pub election_term : ℕ
  pub pre_votes_granted : ℕ
  pub pre_vote_term : ℕ
  pub pre_vote_round : ℕ
  pub timers : Timers
  pub stop : Bool
  pub persister : Persister
  pub apply_queue : List ApplyMsg
  pub ae_responder : ℕ → Bool
  pub is_responder : ℕ → Bool
  pub effects : List Effect

-- What never changes: `id_`, the keys of `peers_` in their order, and `idToAddr_.size()`.
pub record Config : Type 0 where
  pub id : ℕ
  pub peers : List ℕ
  pub cluster_size : ℕ

-- What a handler reads from outside: the clock, the random election timeout, the JSON text of the
-- no-op command, whether the JSON library parses a text, and the size it reports for it.
pub record Env : Type 0 where
  pub now : ℕ
  pub randomized_election_time_out : ℕ
  pub noop_command : String
  pub parses : String → Bool
  pub json_size : String → ℕ
