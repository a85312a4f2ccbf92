-- ===== src/Raft/Durable/Events.antt =====
-- Every event of the loop, and every schedule of events, lets the node evolve.
use raft_storage.Common.{
  ℕ, ◌+◌, String, ◌≡◌, refl, Bool, true, false, not, ◌&&◌, ◌||◌, Option, none, some, List, [], ◌∷◌,
  arith, ltb, leb, ◌==◌, is_some, length, contains,
}
use raft_storage.Log.{get_last_log_index}
use raft_storage.Raft.State.{
  Raft, Config, Env, RequestVoteReply, AppendEntriesArgs, AppendEntriesReply,
}
use raft_storage.Raft.Role.{
  emit, mark_peer_active, complete_active_read, quorum_size, reset_quorum_deadline,
  reset_heartbeat_deadline, has_recent_quorum, reset_channel,
}
use raft_storage.Raft.Commit.{update_commit_index}
use raft_storage.Raft.Replication.{is_leader, push_entry, schedule_all_replication}
use raft_storage.Raft.Election.{
  handle_pre_vote_reply, handle_vote_reply, is_candidate, is_precandidate,
}
use raft_storage.Raft.Reply.{
  insert_ack, answers_read, acknowledge_read, go_on, fall_back, advance_match, accept_reply,
  release_in_flight, handle_append_reply, handle_snapshot_reply, is_round,
}
use raft_storage.Raft.Loop.{
  Event, client_start, client_read, request_vote, pre_vote, vote_reply, pre_vote_reply,
  append_stream, append_request, append_answer, snapshot_stream, snapshot_request, snapshot_answer,
  own_snapshot, deadlines, halt, start, read_index, open_read, watch_heartbeat, handle_deadlines,
  step, run,
}
use raft_storage.Raft.Frame.{
  OnSome-eq, if_both, option_both, finish_read-core, schedule_replication-Keeps,
  schedule_all_replication-Keeps, schedule_all_heart_beat-Keeps, try_schedule-Keeps,
}
use raft_storage.Raft.Durable.{
  Evolves, Evolves-of_ballot, Evolves-of_core, Evolves-refl, Evolves-trans, Goes, Goes-bind,
  Goes-from, Goes-of_Keeps, Evolves-persist,
}
use raft_storage.Raft.Durable.Handlers.{
  fail_all-Evolves, become_follower-Evolves, step_down-Evolves, update_commit_index-Goes,
  become_leader-Goes, begin_election-Goes, begin_pre_vote-Goes, handle_request_vote-Evolves,
}
use raft_storage.Raft.Durable.Followers.{
  handle_append_entries-Goes, handle_read_heart_beat-Evolves, handle_install_snapshot-Goes,
  do_snapshot-Goes,
}

complete-Evolves : (s : Raft) → Evolves s (complete_active_read s)
unfolding complete_active_read
complete-Evolves s = Evolves-of_core s _ (finish_read-core _ s)

module _ (c : Config) where
  acknowledge_read-Goes :
      (server request_term round : ℕ) (s : Raft)
      → Goes s (acknowledge_read c server request_term round s)
  unfolding acknowledge_read
  acknowledge_read-Goes server request_term round s = option_both (Goes s) s.active_read _ _ tt λ p.
      if_both (Goes s) (answers_read request_term round p) _ _
        (if_both (Evolves s) (leb (quorum_size c) (length (insert_ack server p.acks))) _ _
          (Evolves-trans (Evolves-of_ballot s _ refl) (complete-Evolves _))
          (Evolves-of_ballot s _ refl))
        tt

  reset_channel-Goes : (server : ℕ) (s : Raft) → Goes s (reset_channel c server s)
  unfolding reset_channel emit
  reset_channel-Goes server s =
      if_both (Goes s) (contains c.peers server) _ _ (Evolves-of_ballot s _ refl) tt

  go_on-Goes : (retry : Bool) (server : ℕ) (s : Raft) → Goes s (go_on c retry server s)
  unfolding go_on
  go_on-Goes retry server s =
      if_both (Goes s)
        (retry
          || s.replication_pending server
          || leb (s.next_index server) (get_last_log_index s.log))
        _ _ (Goes-of_Keeps s _ (schedule_replication-Keeps c server s))
        (Goes-of_Keeps s _ (try_schedule-Keeps c server s))

  accept_reply-Goes :
      (server request_term : ℕ) (r : AppendEntriesArgs) (reply : AppendEntriesReply) (s : Raft)
      → Goes s (accept_reply c server request_term r reply s)
  unfolding accept_reply advance_match
  accept_reply-Goes server request_term r reply s =
      let round : ℕ = elim reply.read_round [ none ↦ 0 | some k ↦ k ] in
      if_both (Goes s) (is_round round) _ _
        (acked (acknowledge_read c server request_term round s)
          (acknowledge_read-Goes server request_term round s))
        (Goes-from _ (Evolves-of_ballot s _ refl) (
          Goes-bind _ (update_commit_index c _) _ (update_commit_index-Goes c _)
            (go_on-Goes false server)))
    where
      acked :
          (o : Option Raft)
          → Goes s o
          → Goes s (elim o [ none ↦ some s | some s' ↦ go_on c false server s' ])
      acked none h = Evolves-refl s
      acked (some s') h = Goes-from _ h (go_on-Goes false server s')

  module _ (e : Env) where
    handle_append_reply-Goes :
        (server request_term : ℕ) (r : AppendEntriesArgs) (ok : Bool) (reply : AppendEntriesReply)
        (s : Raft)
        → Goes s (handle_append_reply c e server request_term r ok reply s)
    unfolding handle_append_reply release_in_flight mark_peer_active fall_back emit
    handle_append_reply-Goes server request_term r ok reply s =
        if_both (Goes s) (not (is_leader s.status) || not (request_term == s.current_term)) _ _
          (Evolves-refl s)
          (if_both (Goes s) (not ok) _ _
            (Goes-from _ (Evolves-of_ballot s _ refl) (reset_channel-Goes server _))
            (if_both (Goes s) (ltb s.current_term reply.term) _ _
              (Evolves-trans (Evolves-of_ballot s _ refl) (become_follower-Evolves e reply.term _))
              (if_both (Goes s) (ltb reply.term s.current_term) _ _ (Evolves-of_ballot s _ refl) (
                if_both (Goes s) reply.success _ _
                  (Goes-from _ (Evolves-of_ballot s _ refl)
                    (accept_reply-Goes server request_term r reply _))
                  (Goes-from _ (Evolves-of_ballot s _ refl) (go_on-Goes true server _))))))

    advanced :
        (server : ℕ) (s : Raft)
        → Evolves s (
            advance_match server s.log.last_include_index
              (mark_peer_active server e (release_in_flight c server s)))
    unfolding release_in_flight mark_peer_active advance_match
    advanced server s = Evolves-of_ballot s _ refl

    handle_snapshot_reply-Goes :
        (server request_term : ℕ) (ok : Bool) (reply_term : ℕ) (s : Raft)
        → Goes s (handle_snapshot_reply c e server request_term ok reply_term s)
    unfolding handle_snapshot_reply release_in_flight emit
    handle_snapshot_reply-Goes server request_term ok reply_term s =
        let s'' =
          advance_match server s.log.last_include_index
            (mark_peer_active server e (release_in_flight c server s)) in
        let there = advanced server s in
        if_both (Goes s) (not (is_leader s.status) || not (request_term == s.current_term)) _ _
          (Evolves-refl s)
          (if_both (Goes s) (not ok) _ _
            (Goes-from _ (Evolves-of_ballot s _ refl) (reset_channel-Goes server _))
            (if_both (Goes s) (ltb s.current_term reply_term) _ _
              (Evolves-trans (Evolves-of_ballot s _ refl) (become_follower-Evolves e reply_term _))
              (if_both (Goes s) (ltb reply_term s.current_term) _ _ (Evolves-of_ballot s _ refl) (
                if_both (Goes s)
                  (s''.replication_pending server
                    || leb (s''.next_index server) (get_last_log_index s''.log))
                  _ _
                  (Goes-from _ there
                    (Goes-of_Keeps s'' _ (schedule_replication-Keeps c server s'')))
                  there))))

    handle_vote_reply-Goes :
        (server request_term : ℕ) (ok : Bool) (reply : RequestVoteReply) (s : Raft)
        → Goes s (handle_vote_reply c e server request_term ok reply s)
    unfolding handle_vote_reply emit
    handle_vote_reply-Goes server request_term ok reply s =
        if_both (Goes s) (not ok) _ _ (reset_channel-Goes server s) (
          if_both (Goes s) (ltb s.current_term reply.term) _ _
            (become_follower-Evolves e reply.term s)
            (if_both (Goes s)
              (is_candidate s.status
                && (request_term == s.current_term)
                && (s.election_term == s.current_term)
                && reply.vote_granted)
              _ _
              (if_both (Goes s) (leb (quorum_size c) (s.votes_granted + 1)) _ _
                (Goes-from _ (Evolves-of_ballot s _ refl) (become_leader-Goes c e _))
                (Evolves-of_ballot s _ refl))
              (Evolves-refl s)))

    handle_pre_vote_reply-Goes :
        (server request_term round : ℕ) (ok : Bool) (reply : RequestVoteReply) (s : Raft)
        → Goes s (handle_pre_vote_reply c e server request_term round ok reply s)
    unfolding handle_pre_vote_reply emit
    handle_pre_vote_reply-Goes server request_term round ok reply s =
        if_both (Goes s) (not ok) _ _ (reset_channel-Goes server s) (
          if_both (Goes s) (ltb s.current_term reply.term) _ _
            (become_follower-Evolves e reply.term s)
            (if_both (Goes s)
              (is_precandidate s.status
                && (request_term == s.pre_vote_term)
                && (round == s.pre_vote_round)
                && reply.vote_granted)
              _ _
              (if_both (Goes s) (leb (quorum_size c) (s.pre_votes_granted + 1)) _ _
                (Goes-from _ (Evolves-of_ballot s _ refl) (begin_election-Goes c e _))
                (Evolves-of_ballot s _ refl))
              (Evolves-refl s)))

    start-Goes : (command : Option String) (s : Raft) → Goes s (start c e command s)
    unfolding start push_entry emit
    start-Goes none s =
        if_both (Goes s) (not s.stop && is_leader s.status) _ _ tt (Evolves-of_ballot s _ refl)
    start-Goes (some command) s =
        if_both (Goes s) (not s.stop && is_leader s.status) _ _
          (Goes-from _ (Evolves-persist s _ (omega arith) (λ a p q. q)) (
            Goes-bind _ (update_commit_index c _) _ (update_commit_index-Goes c _) λ s'.
              Goes-bind s' (schedule_all_replication c s') _
                (Goes-of_Keeps s' _ (schedule_all_replication-Keeps c s'))
                λ s''. Evolves-of_ballot s'' _ refl))
          (Evolves-of_ballot s _ refl)

    open_read-Evolves : (cb : ℕ) (s : Raft) → Evolves s (open_read c e cb s)
    unfolding open_read
    open_read-Evolves cb s = Evolves-of_ballot s _ refl

    read_index-Goes : (cb : ℕ) (s : Raft) → Goes s (read_index c e cb s)
    unfolding read_index emit
    read_index-Goes cb s =
        if_both (Goes s) (not (is_leader s.status)) _ _ (Evolves-of_ballot s _ refl) (
          if_both (Goes s) (not s.current_term_committed) _ _ (Evolves-of_ballot s _ refl) (
            option_both (Goes s) s.active_read _ _
              (Goes-from _ (open_read-Evolves cb s)
                (Goes-of_Keeps (open_read c e cb s) _ (schedule_all_heart_beat-Keeps c _ _)))
              λ p. Evolves-of_ballot s _ refl))

    watch_heartbeat-Goes : (s : Raft) → Goes s (watch_heartbeat c e s)
    unfolding watch_heartbeat reset_heartbeat_deadline
    watch_heartbeat-Goes s =
        if_both (Goes s) (leb s.timers.heartbeat_deadline e.now) _ _
          (Goes-bind s (schedule_all_replication c s) _
            (Goes-of_Keeps s _ (schedule_all_replication-Keeps c s))
            λ s'. Evolves-of_ballot s' _ refl)
          (Evolves-refl s)

    handle_deadlines-Goes : (s : Raft) → Goes s (handle_deadlines c e s)
    unfolding handle_deadlines reset_quorum_deadline
    handle_deadlines-Goes s =
        if_both (Goes s) (is_leader s.status) _ _
          (if_both (Goes s) (leb s.timers.quorum_deadline e.now) _ _
            (if_both (Goes s) (has_recent_quorum c e.now s) _ _
              (Goes-from _ (Evolves-of_ballot s _ refl) (watch_heartbeat-Goes _))
              (step_down-Evolves e s))
            (watch_heartbeat-Goes s))
          (if_both (Goes s) (leb s.timers.election_deadline e.now) _ _ (begin_pre_vote-Goes c e s)
            (Evolves-refl s))

    step-Goes : (ev : Event) (s : Raft) → Goes s (step c e ev s)
    unfolding step emit
    step-Goes (client_start command) s = start-Goes command s
    step-Goes (client_read cb) s = read_index-Goes cb s
    step-Goes (request_vote r) s =
        Evolves-trans (handle_request_vote-Evolves e r s) (Evolves-of_ballot _ _ refl)
    step-Goes (pre_vote r) s = Evolves-of_ballot s _ refl
    step-Goes (vote_reply server term ok r) s = handle_vote_reply-Goes server term ok r s
    step-Goes (pre_vote_reply server term round ok r) s =
        handle_pre_vote_reply-Goes server term round ok r s
    step-Goes (append_stream server up) s = Evolves-of_ballot s _ refl
    step-Goes (append_request r server) s =
        if_both (Goes s) (is_some r.read_round && (length r.entries == 0)) _ _
          (handle_read_heart_beat-Evolves e r server s) (handle_append_entries-Goes e r server s)
    step-Goes (append_answer server term r ok reply) s =
        handle_append_reply-Goes server term r ok reply s
    step-Goes (snapshot_stream server up) s = Evolves-of_ballot s _ refl
    step-Goes (snapshot_request r server) s = handle_install_snapshot-Goes e r server s
    step-Goes (snapshot_answer server term ok reply_term) s =
        handle_snapshot_reply-Goes server term ok reply_term s
    step-Goes (own_snapshot index snap) s = do_snapshot-Goes e index snap s
    step-Goes deadlines s = handle_deadlines-Goes s
    step-Goes halt s = Evolves-trans (Evolves-of_ballot s _ refl) (fail_all-Evolves _)

  run-Goes : (evs : List (Env × Event)) (s : Raft) → Goes s (run c evs s)
  unfolding run
  run-Goes [] s = Evolves-refl s
  run-Goes ((e, ev) ∷ evs) s =
      Goes-bind s (step c e ev s) (run c evs) (step-Goes e ev s) (run-Goes evs)

-- Over any schedule of events that does not end the process: the term does not fall; a vote given
-- in a term is still the node's vote as long as the term is the same; and if the state file held
-- the term, the vote and the log before, it holds the present ones after.
pub run-Evolves :
    (c : Config) (evs : List (Env × Event)) (s s' : Raft) → run c evs s ≡ some s' → Evolves s s'
run-Evolves c evs s s' h = OnSome-eq (Evolves s) (run c evs s) s' h (run-Goes c evs s)
