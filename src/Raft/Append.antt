-- ===== src/Raft/Append.antt =====
-- Raft/Raft.cc: a follower's side of `AppendEntries`, heartbeats of reads included.
use raft_storage.Common.{
  ℕ, min, Bool, true, false, ◌&&◌, Option, none, some, List, ltb, leb, if◌then◌else◌, ◌>>=◌,
}
use raft_storage.Log.{Log, LogEntry, get_last_log_index, match_log, append_entries, conflict_index}
use raft_storage.Raft.State.{
  Raft, Env, follower, AppendEntriesArgs, AppendEntriesReply, append_reply, log_outdated, expired,
  normal,
}
use raft_storage.Raft.Role.{emit, persist, reset_election_deadline, reset_last_leader_contact}
use raft_storage.Raft.Commit.{apply_committed}
use raft_storage.Raft.Election.{meet_term}

-- `SendReply`, if the stream of the server still stands.
unfoldable pub reply_append : ℕ → AppendEntriesReply → Raft → Raft
reply_append server reply s =
    if s.ae_responder server then emit (append_reply server reply) s else s

unfoldable pub refused : Raft → Option ℕ → AppendEntriesReply
refused s next = record {
  term = s.current_term;
  success = false;
  update_next_index = next;
  status = log_outdated;
  read_round = none;
}

unfoldable pub accepted : Raft → AppendEntriesReply
accepted s = record {
  term = s.current_term;
  success = true;
  update_next_index = none;
  status = normal;
  read_round = none;
}

-- The reply to a leader of an earlier term. A heartbeat of a read proposes index 100.
unfoldable pub outdated : Raft → Option ℕ → Option ℕ → AppendEntriesReply
outdated s next round = record {
  term = s.current_term;
  success = false;
  update_next_index = next;
  status = expired;
  read_round = round;
}

-- `prelogindex` in the log, and with the leader's term.
unfoldable pub matches : Log → ℕ → ℕ → Option Bool
matches l prev term =
    if leb l.last_include_index prev && leb prev (get_last_log_index l)
    then match_log l prev term
    else some false

-- The loop over the entries, and the write to disk if the log changed.
unfoldable pub take_entries : List LogEntry → Raft → Option Raft
take_entries entries s = do
  r ← append_entries s.log entries false
  some (if r.1 then persist (record s { log = r.0 }) else record s { log = r.0 })

-- `commitIndex_ = min(getLastLogIndex(), leadercommit)`, and what that commits is applied.
unfoldable pub follow_commit : ℕ → Raft → Option Raft
follow_commit leader_commit s =
    if ltb s.commit_index leader_commit
    then apply_committed (record s { commit_index = min (get_last_log_index s.log) leader_commit })
    else some s

module _ (e : Env) where
  unfoldable pub hear_leader : Raft → Raft
  hear_leader s =
      reset_last_leader_contact e (reset_election_deadline e (record s { status = follower }))

  unfoldable pub append_or_refuse : AppendEntriesArgs → Raft → Option (Raft × AppendEntriesReply)
  append_or_refuse request s = do
    ok ← matches s.log request.prev_log_index request.prev_log_term
    if ok
        then (do
          s' ← take_entries request.entries s
          s'' ← follow_commit request.leader_commit s'
          some (s'', accepted s''))
        else (do
          next ← conflict_index s.log request.prev_log_index
          some (s, refused s (some next)))

  unfoldable pub handle_append_entries : AppendEntriesArgs → ℕ → Raft → Option Raft
  handle_append_entries request server s =
      let s' = meet_term e request.term s in
      if ltb request.term s'.current_term
      then some (reply_append server (outdated s' none none) s')
      else (do r ← append_or_refuse request (hear_leader s'); some (reply_append server r.1 r.0))

  unfoldable pub handle_read_heart_beat : AppendEntriesArgs → ℕ → Raft → Raft
  handle_read_heart_beat request server s =
      let s' = meet_term e request.term s in
      let s'' = hear_leader s' in
      let round = some (elim request.read_round [ none ↦ 0 | some r ↦ r ]) in
      if ltb request.term s'.current_term
      then reply_append server (outdated s' (some 100) round) s'
      else reply_append server (record (accepted s'') { read_round = round }) s''
