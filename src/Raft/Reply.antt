-- ===== src/Raft/Reply.antt =====
-- Raft/Raft.cc: a leader's side of the replies to `AppendEntries` and `InstallSnapshot`.
use raft_storage.Common.{
  ℕ, ◌+◌, ◌-◌, ◌^◌, min, max, Bool, true, false, not, ◌&&◌, ◌||◌, Option, none, some, List, [], ◌∷◌,
  ltb, leb, ◌==◌, if◌then◌else◌, ◌>>=◌, length, update,
}
use raft_storage.Log.{get_last_log_index}
use raft_storage.Raft.State.{
  Raft, Config, Env, AppendEntriesArgs, AppendEntriesReply, PendingReadIndex,
}
use raft_storage.Raft.Role.{
  reset_channel, become_follower, mark_peer_active, complete_active_read, quorum_size,
}
use raft_storage.Raft.Commit.{update_commit_index}
use raft_storage.Raft.Replication.{
  is_leader, schedule_replication, try_schedule_pending_read_heart_beat,
}

-- `std::unordered_set::insert`
unfoldable pub insert_ack : ℕ → List ℕ → List ℕ
insert_ack x [] = x ∷ []
insert_ack x (y ∷ ys) = if y == x then y ∷ ys else y ∷ insert_ack x ys

-- The index to try next after a refusal: the proposal, held between 1 and the index after the
-- last, and below the index that was refused.
unfoldable pub suggest_next : Raft → ℕ → Option ℕ → ℕ
suggest_next s server proposal =
    let next = s.next_index server in
    let raw : ℕ = elim proposal [ none ↦ next - 1 | some i ↦ i ] in
    let held = max 1 (min raw (get_last_log_index s.log + 1)) in
    if leb next held then max 1 (next - 1) else held

unfoldable pub fall_back : ℕ → Option ℕ → Raft → Raft
fall_back server proposal s = record s {
  next_index = update s.next_index server (suggest_next s server proposal);
}

-- `matchIndex_ = max(matchIndex_, index)`, and the next index after it.
unfoldable pub advance_match : ℕ → ℕ → Raft → Raft
advance_match server index s =
    let reached = max (s.match_index server) index in
    record s {
      match_index = update s.match_index server reached;
      next_index = update s.next_index server (reached + 1);
    }

-- The read waits for this round of this term.
unfoldable pub answers_read : ℕ → ℕ → PendingReadIndex → Bool
answers_read request_term round p = (p.term == request_term) && (p.round == round)

-- `readround() > 0`, of a number that is an `int64` in the message: from 2 ^ 63 on it is negative.
abbrev pub is_round : ℕ → Bool
is_round round = ltb 0 round && ltb round (2 ^ 63)

module _ (c : Config) where
  -- An acknowledgement of the pending read, which a quorum of them completes. `none` is the early
  -- return for a reply that no pending read waits for.
  unfoldable pub acknowledge_read : ℕ → ℕ → ℕ → Raft → Option Raft
  acknowledge_read server request_term round s = elim s.active_read [
    | none ↦ none
    | some p ↦
        let acks = insert_ack server p.acks in
        let s' = record s { active_read = some (record p { acks = acks }) } in
        if answers_read request_term round p
        then some (if leb (quorum_size c) (length acks) then complete_active_read s' else s')
        else none
  ]

  -- What follows a reply: replication if there is some to do, else a pending read.
  unfoldable pub go_on : Bool → ℕ → Raft → Option Raft
  go_on retry server s =
      if retry
        || s.replication_pending server
        || leb (s.next_index server) (get_last_log_index s.log)
      then schedule_replication c server s
      else try_schedule_pending_read_heart_beat c server s

  unfoldable pub accept_reply : ℕ → ℕ → AppendEntriesArgs → AppendEntriesReply → Raft → Option Raft
  accept_reply server request_term request reply s =
      let round : ℕ = elim reply.read_round [ none ↦ 0 | some r ↦ r ] in
      if is_round round
      then elim (acknowledge_read server request_term round s) [
        | none ↦ some s
        | some s' ↦ go_on false server s'
      ]
      else (do
        s' ←
            update_commit_index c
              (advance_match server (request.prev_log_index + length request.entries) s)
        go_on false server s')

  unfoldable pub release_in_flight : ℕ → Raft → Raft
  release_in_flight server s = record s {
    replication_in_flight = update s.replication_in_flight server false;
  }

  module _ (e : Env) where
    unfoldable pub handle_append_reply :
        ℕ → ℕ → AppendEntriesArgs → Bool → AppendEntriesReply → Raft → Option Raft
    handle_append_reply server request_term request transport_ok reply s =
        let s' = release_in_flight server s in
        let s'' = mark_peer_active server e s' in
        if not (is_leader s.status) || not (request_term == s.current_term)
        then some s
        else (if not transport_ok
            then reset_channel c server s'
            else (if ltb s'.current_term reply.term
                then some (become_follower e reply.term s')
                else (if ltb reply.term s'.current_term
                    then some s'
                    else (if reply.success
                        then accept_reply server request_term request reply s''
                        else go_on true server (fall_back server reply.update_next_index s'')))))

    unfoldable pub handle_snapshot_reply : ℕ → ℕ → Bool → ℕ → Raft → Option Raft
    handle_snapshot_reply server request_term transport_ok reply_term s =
        let s' = release_in_flight server s in
        let s'' = advance_match server s.log.last_include_index (mark_peer_active server e s') in
        if not (is_leader s.status) || not (request_term == s.current_term)
        then some s
        else (if not transport_ok
            then reset_channel c server s'
            else (if ltb s'.current_term reply_term
                then some (become_follower e reply_term s')
                else (if ltb reply_term s'.current_term
                    then some s'
                    else (if s''.replication_pending server
                          || leb (s''.next_index server) (get_last_log_index s''.log)
                        then schedule_replication c server s''
                        else some s''))))
