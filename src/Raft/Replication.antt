-- ===== src/Raft/Replication.antt =====
-- Raft/Raft.cc: what a leader sends. A call handed to the thread pool is an effect; its reply comes
-- back as an event of the loop.
use raft_storage.Common.{
  ℕ, ◌-◌, Bool, true, false, not, ◌||◌, Option, none, some, List, [], ◌∷◌, ◌++◌, leb, ◌==◌,
  if◌then◌else◌, ◌>>=◌, drop, update,
}
use raft_storage.Log.{LogEntry, get_log_term_from_index, get_new_command_index}
use raft_storage.Persister.{read_snap_shot}
use raft_storage.Raft.State.{
  Raft, Config, Env, Status, leader, AppendEntriesArgs, send_append_entries, send_read_heart_beat,
  send_snapshot,
}
use raft_storage.Raft.Role.{emit, persist}

abbrev pub is_leader : Status → Bool
is_leader leader = true
is_leader _ = false

-- The index before `nextIndex_[server]` and its term. For 0 the index is -1, which the assertion of
-- `getLogTermFromIndex` refuses.
unfoldable pub get_prev_log_info : Raft → ℕ → Option (ℕ × ℕ)
get_prev_log_info s server = if s.next_index server == 0 then none else (do
  t ← get_log_term_from_index s.log (s.next_index server - 1)
  some (s.next_index server - 1, t))

module _ (c : Config) where
  unfoldable pub build_append_entries : Raft → ℕ → Option AppendEntriesArgs
  build_append_entries s server = do
    prev ← get_prev_log_info s server
    some (record {
      term = s.current_term;
      leader_id = c.id;
      prev_log_index = prev.0;
      prev_log_term = prev.1;
      entries = drop (prev.0 - s.log.last_include_index) s.log.logs;
      leader_commit = s.commit_index;
      read_round = none;
    })

  unfoldable pub build_read_heart_beat : Raft → ℕ → ℕ → Option AppendEntriesArgs
  build_read_heart_beat s server round = do
    prev ← get_prev_log_info s server
    some (record {
      term = s.current_term;
      leader_id = c.id;
      prev_log_index = prev.0;
      prev_log_term = prev.1;
      entries = [];
      leader_commit = s.commit_index;
      read_round = some round;
    })

  -- The snapshot on disk, or the entries from the peer's next index on.
  unfoldable pub launch_replication : ℕ → Raft → Option Raft
  launch_replication server s =
      if leb (s.next_index server) s.log.last_include_index
      then (do
        snap ← read_snap_shot s.persister
        some (
            emit
              (send_snapshot server (record {
                term = s.current_term;
                leader_id = c.id;
                last_snapshot_include_index = s.log.last_include_index;
                last_snapshot_include_term = s.log.last_include_term;
                snapshot = snap;
              }))
              s))
      else (do
        request ← build_append_entries s server
        some (emit (send_append_entries server request) s))

  unfoldable pub schedule_replication : ℕ → Raft → Option Raft
  schedule_replication server s =
      if s.stop || not (is_leader s.status)
      then some s
      else (if s.replication_in_flight server
          then some (record s { replication_pending = update s.replication_pending server true })
          else launch_replication server (record s {
            replication_in_flight = update s.replication_in_flight server true;
            replication_pending = update s.replication_pending server false;
          }))

  unfoldable pub schedule_each : List ℕ → Raft → Option Raft
  schedule_each [] s = some s
  schedule_each (p ∷ ps) s = do s' ← schedule_replication p s; schedule_each ps s'

  unfoldable pub schedule_all_replication : Raft → Option Raft
  schedule_all_replication s =
      if not (is_leader s.status) || s.stop then some s else schedule_each c.peers s

  abbrev pub is_active_round : Raft → ℕ → Bool
  is_active_round s round = elim s.active_read [ none ↦ false | some p ↦ p.round == round ]

  unfoldable pub schedule_heart_beat : ℕ → ℕ → Raft → Option Raft
  schedule_heart_beat server round s =
      if not (is_leader s.status) || s.stop || not (is_active_round s round)
      then some s
      else (if s.replication_in_flight server
          then some (record s { read_index_pending = update s.read_index_pending server round })
          else (do
            request ← build_read_heart_beat s server round
            some (
                emit (send_read_heart_beat server request) (record s {
                  replication_in_flight = update s.replication_in_flight server true;
                }))))

  unfoldable pub heart_beat_each : ℕ → List ℕ → Raft → Option Raft
  heart_beat_each round [] s = some s
  heart_beat_each round (p ∷ ps) s = do
    s' ← schedule_heart_beat p round s
    heart_beat_each round ps s'

  unfoldable pub schedule_all_heart_beat : ℕ → Raft → Option Raft
  schedule_all_heart_beat round s =
      if not (is_leader s.status) || s.stop then some s else heart_beat_each round c.peers s

  unfoldable pub try_schedule_pending_read_heart_beat : ℕ → Raft → Option Raft
  try_schedule_pending_read_heart_beat server s =
      let round = s.read_index_pending server in
      let cleared = record s { read_index_pending = update s.read_index_pending server 0 } in
      if not (is_leader s.status) || s.stop || (round == 0)
      then some s
      else (if not (is_active_round s round)
          then some cleared
          else (if s.replication_in_flight server
              then some s
              else schedule_heart_beat server round cleared))

  -- The no-op entry that a new leader appends.
  unfoldable pub build_noop_command : Env → Raft → LogEntry
  build_noop_command e s = record {
    log_index = get_new_command_index s.log;
    log_term = s.current_term;
    command = e.noop_command;
  }

  unfoldable pub push_entry : LogEntry → Raft → Raft
  push_entry x s = record s { log = record (s.log) { logs = s.log.logs ++ (x ∷ []) } }

  unfoldable pub append_noop_command : Env → Raft → Option Raft
  append_noop_command e s =
      schedule_all_replication (persist (push_entry (build_noop_command e s) s))
