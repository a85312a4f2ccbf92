-- ===== src/Raft/Loop.antt =====
-- Raft/Raft.cc: the events that the loop runs one after the other, the deadlines it watches, and
-- the queues that it drains.
use raft_storage.Common.{
  ℕ, ◌+◌, ◌%◌, ◌^◌, String, Bool, true, not, ◌&&◌, Option, none, some, List, [], ◌∷◌, ◌++◌, leb,
  ◌==◌, if◌then◌else◌, is_some, ◌>>=◌, length, update,
}
use raft_storage.Log.{LogEntry, get_new_command_index}
use raft_storage.Raft.State.{
  Raft, Config, Env, RequestVoteArgs, RequestVoteReply, AppendEntriesArgs, AppendEntriesReply,
  InstallSnapshotArgs, callback, wrong_leader, not_committed, vote_answer, pre_vote_answer,
  start_answer,
}
use raft_storage.Raft.Role.{
  emit, persist, has_recent_quorum, reset_quorum_deadline, reset_heartbeat_deadline, step_down,
  fail_all_pending_read_index,
}
use raft_storage.Raft.Commit.{update_commit_index}
use raft_storage.Raft.Replication.{
  is_leader, push_entry, schedule_all_replication, schedule_all_heart_beat,
}
use raft_storage.Raft.Election.{
  begin_pre_vote, handle_pre_vote_reply, handle_vote_reply, handle_request_vote, handle_pre_vote,
}
use raft_storage.Raft.Append.{handle_append_entries, handle_read_heart_beat}
use raft_storage.Raft.Reply.{handle_append_reply, handle_snapshot_reply}
use raft_storage.Raft.Snapshot.{handle_install_snapshot, do_snapshot}

-- What the other threads post to the loop, and the deadlines.
pub data Event : Type 0 where
  client_start : Option String → Event
  client_read : ℕ → Event
  request_vote : RequestVoteArgs → Event
  pre_vote : RequestVoteArgs → Event
  vote_reply : ℕ → ℕ → Bool → RequestVoteReply → Event
  pre_vote_reply : ℕ → ℕ → ℕ → Bool → RequestVoteReply → Event
  append_stream : ℕ → Bool → Event
  append_request : AppendEntriesArgs → ℕ → Event
  append_answer : ℕ → ℕ → AppendEntriesArgs → Bool → AppendEntriesReply → Event
  snapshot_stream : ℕ → Bool → Event
  snapshot_request : InstallSnapshotArgs → ℕ → Event
  snapshot_answer : ℕ → ℕ → Bool → ℕ → Event
  own_snapshot : ℕ → String → Event
  deadlines : Event
  halt : Event

module _ (c : Config) (e : Env) where
  -- The body that `start` posts, with its answer as an effect. Its argument is the text that
  -- `command.asString()` gives, or `none` if that throws, as it does on bytes that are not UTF-8.
  unfoldable pub start : Option String → Raft → Option Raft
  start printed s =
      let index = get_new_command_index s.log in
      if not s.stop && is_leader s.status
      then (do
        command ← printed
        let entry : LogEntry = record {
          log_index = index;
          log_term = s.current_term;
          command = command;
        }
        s' ← update_commit_index c (persist (push_entry c entry s))
        s'' ← schedule_all_replication c s'
        some (emit (start_answer (some (index, s.current_term))) s''))
      else some (emit (start_answer none) s)

  -- `++readIndexRound`, a `uint64_t`.
  unfoldable pub read_index_round_generator : Raft → ℕ
  read_index_round_generator s = (s.read_index_round + 1) % 2 ^ 64

  unfoldable pub open_read : ℕ → Raft → Raft
  open_read cb s =
      let round = read_index_round_generator s in
      record s {
        read_index_round = round;
        active_read = some (record {
          round = round;
          term = s.current_term;
          read_index = s.commit_index;
          acks = c.id ∷ [];
          callbacks = cb ∷ [];
        });
      }

  -- The body that `readIndex` posts; the callback is named by a number.
  unfoldable pub read_index : ℕ → Raft → Option Raft
  read_index cb s =
      if not (is_leader s.status)
      then some (emit (callback cb wrong_leader) s)
      else (if not s.current_term_committed
          then some (emit (callback cb not_committed) s)
          else elim s.active_read [
            | some p ↦ some (record s {
              active_read = some (record p { callbacks = p.callbacks ++ (cb ∷ []) });
            })
            | none ↦ schedule_all_heart_beat c (read_index_round_generator s) (open_read cb s)
          ])

  unfoldable pub watch_heartbeat : Raft → Option Raft
  watch_heartbeat s =
      if leb s.timers.heartbeat_deadline e.now
      then (do s' ← schedule_all_replication c s; some (reset_heartbeat_deadline e s'))
      else some s

  unfoldable pub handle_deadlines : Raft → Option Raft
  handle_deadlines s =
      if is_leader s.status
      then (if leb s.timers.quorum_deadline e.now
          then (if has_recent_quorum c e.now s
              then watch_heartbeat (reset_quorum_deadline e s)
              else some (step_down e s))
          else watch_heartbeat s)
      else (if leb s.timers.election_deadline e.now then begin_pre_vote c e s else some s)

  -- One event of the loop; `none` is the end of the process by an assertion or an exception.
  unfoldable pub step : Event → Raft → Option Raft
  step (client_start command) s = start command s
  step (client_read cb) s = read_index cb s
  step (request_vote r) s =
      let (s', reply) = handle_request_vote e r s in
      some (emit (vote_answer r.candidate_id reply) s')
  step (pre_vote r) s = some (emit (pre_vote_answer r.candidate_id (handle_pre_vote e r s)) s)
  step (vote_reply server term ok r) s = handle_vote_reply c e server term ok r s
  step (pre_vote_reply server term round ok r) s =
      handle_pre_vote_reply c e server term round ok r s
  step (append_stream server up) s =
      some (record s { ae_responder = update s.ae_responder server up })
  step (append_request r server) s =
      if is_some r.read_round && (length r.entries == 0)
      then some (handle_read_heart_beat e r server s)
      else handle_append_entries e r server s
  step (append_answer server term r ok reply) s = handle_append_reply c e server term r ok reply s
  step (snapshot_stream server up) s =
      some (record s { is_responder = update s.is_responder server up })
  step (snapshot_request r server) s = handle_install_snapshot e r server s
  step (snapshot_answer server term ok reply_term) s =
      handle_snapshot_reply c e server term ok reply_term s
  step (own_snapshot index snap) s = do_snapshot e index snap s
  step deadlines s = handle_deadlines s
  step halt s = some (fail_all_pending_read_index (record s { stop = true }))

-- A schedule: each event at its reading of the clock.
unfoldable pub run : Config → List (Env × Event) → Raft → Option Raft
run c [] s = some s
run c ((e, ev) ∷ rest) s = do s' ← step c e ev s; run c rest s'
