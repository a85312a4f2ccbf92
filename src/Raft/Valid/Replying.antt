-- ===== src/Raft/Valid/Replying.antt =====
-- Replies, client commands and deadlines keep a node valid.
use raft_storage.Common.{
  ℕ, suc, ◌+◌, ◌≤◌, ◌<◌, max, String, ◌≡◌, refl, sym, subst, Bool, true, false, not, ◌&&◌, ◌||◌,
  Option, none, some, List, arith, ltb, leb, ◌==◌, length, All, update, contains,
}
use raft_storage.Log.{LogEntry, get_last_log_index, get_new_command_index}
use raft_storage.Raft.State.{Raft, Config, Env, completed, AppendEntriesArgs, AppendEntriesReply}
use raft_storage.Raft.Frame.{Core, core, if_both, option_both, finish_read-core, OnSome}
use raft_storage.Raft.Valid.{
  last_of, Tracks, IsValid, Ensures, Ensures-bind, Valid, Valid-of_core, Valid-last, Valid-of_Runs,
  All-imp, if_either, All_at,
}
use raft_storage.Raft.Role.{
  complete_active_read, emit, reset_heartbeat_deadline, reset_quorum_deadline, mark_peer_active,
  persist, has_recent_quorum, quorum_size,
}
use raft_storage.Raft.Reply.{
  advance_match, fall_back, go_on, suggest_next, handle_append_reply, acknowledge_read,
  handle_snapshot_reply, accept_reply, release_in_flight, answers_read, insert_ack, is_round,
}
use raft_storage.Raft.Valid.Sending.{
  schedule_one-Runs, try_schedule-Runs, Ahead, schedule_all_heart_beat-Runs,
  schedule_all_replication-Runs,
}
use raft_storage.Raft.Loop.{start, handle_deadlines, read_index, watch_heartbeat, open_read}
use raft_storage.Raft.Replication.{schedule_all_replication, is_leader, push_entry}
use raft_storage.Raft.Valid.Committing.{update_commit_index_lem}
use raft_storage.Raft.Valid.Electing.{
  become_follower-Valid, step_down-Valid, persist-Valid, begin_pre_vote-Valid, push_entry-Valid,
  reset_channel-Valid,
}

-- After a refusal the next index to try is in the log or just after it, at least 1, and below the
-- one that was refused unless that was 1 already: the retries come to an end.
pub suggest_next_bounds :
    (s : Raft) (p : ℕ) (o : Option ℕ)
    → 1 ≤ s.next_index p
    → s.next_index p ≤ suc (get_last_log_index s.log)
    → (1 ≤ suggest_next s p o)
      × (suggest_next s p o ≤ suc (get_last_log_index s.log))
      × (1 < s.next_index p → suggest_next s p o < s.next_index p)
unfolding suggest_next
suggest_next_bounds s p none lo hi = (ground arith, ground arith, λ h. ground arith)
suggest_next_bounds s p (some i) lo hi = (ground arith, ground arith, λ h. ground arith)

module _ (c : Config) where
  -- A peer's indices set to values in range.
  tracked_set :
      (k : Core) (next match : ℕ → ℕ) (p n m : ℕ)
      → 1 ≤ n
      → n ≤ suc (last_of k.log)
      → m ≤ last_of k.log
      → (ps : List ℕ) → All (Tracks (record k { next_index = next; match_index = match })) ps
      → All (Tracks (record k { next_index = update next p n; match_index = update match p m })) ps
  tracked_set k next match p n m lo hi top ps h =
      All-imp _ _ ps (λ q t. (ground (arith, t), ground (arith, t), ground (arith, t))) h

  complete-Valid : (s : Raft) → Valid c s → Valid c (complete_active_read s)
  unfolding complete_active_read
  complete-Valid s v = subst (IsValid c) (sym (finish_read-core completed s)) v

  -- Off a leader's replication the next step is a heartbeat of a read, for a peer that has it all.
  go_on-Valid :
      (retry : Bool) (p : ℕ) (s : Raft)
      → Valid c s
      → contains c.peers p ≡ true
      → Ensures (Valid c) (go_on c retry p s)
  unfolding go_on
  go_on-Valid retry p s v m =
      let last = Valid-last c s v in
      if_either (Ensures (Valid c))
        (retry || s.replication_pending p || leb (s.next_index p) (get_last_log_index s.log)) _ _
        (λ q. Valid-of_Runs c s _ (schedule_one-Runs c p s v m) v)
        (λ q.
          let ahead : s.log.last_include_index < s.next_index p = ground (arith, last) in
          Valid-of_Runs c s _ (try_schedule-Runs c p s v m ahead) v)

  advance_match-Valid :
      (p i : ℕ) (s : Raft)
      → Valid c s
      → i ≤ last_of s.log
      → contains c.peers p ≡ true
      → Valid c (advance_match p i s)
  unfolding advance_match
  advance_match-Valid p i s v h m = record {
    contiguous = v.contiguous;
    applied = v.applied;
    committed = v.committed;
    logged = v.logged;
    snapped = v.snapped;
    tracked = λ q.
        let t = All_at (Tracks (core s)) c.peers p (v.tracked q) m in
        tracked_set (core s) s.next_index s.match_index p (max (s.match_index p) i + 1)
          (max (s.match_index p) i) (omega arith) (omega (arith, t.2)) (omega (arith, t.2)) c.peers
          (v.tracked q);
  }

  fall_back-Valid :
      (p : ℕ) (o : Option ℕ) (s : Raft)
      → Valid c s
      → contains c.peers p ≡ true
      → Valid c (fall_back p o s)
  unfolding fall_back suggest_next
  fall_back-Valid p o s v m = record {
    contiguous = v.contiguous;
    applied = v.applied;
    committed = v.committed;
    logged = v.logged;
    snapped = v.snapped;
    tracked = λ q.
        let t = All_at (Tracks (core s)) c.peers p (v.tracked q) m in
        let last = Valid-last c s v in
        let b = suggest_next_bounds s p o t.0 (omega (arith, t.1)) in
        All-imp _ _ c.peers (λ a u. (ground (arith, b.0), ground (arith, b.1), u.2)) (v.tracked q);
  }

  acknowledge_read-Valid :
      (p request_term round : ℕ) (s : Raft)
      → Valid c s
      → OnSome (Valid c) (acknowledge_read c p request_term round s)
  unfolding acknowledge_read
  acknowledge_read-Valid p request_term round s v =
      option_both (OnSome (Valid c)) s.active_read _ _ tt λ q.
        if_both (OnSome (Valid c)) (answers_read request_term round q) _ _
          (if_both (Valid c) (leb (quorum_size c) (length (insert_ack p q.acks))) _ _
            (complete-Valid
              (record s { active_read = some (record q { acks = insert_ack p q.acks }) }) v)
            v)
          tt

  accept_reply-Valid :
      (p request_term : ℕ) (r : AppendEntriesArgs) (reply : AppendEntriesReply) (s : Raft)
      → Valid c s
      → contains c.peers p ≡ true
      → r.prev_log_index + length r.entries ≤ last_of s.log
      → Ensures (Valid c) (accept_reply c p request_term r reply s)
  unfolding accept_reply
  accept_reply-Valid p request_term r reply s v m h =
      let round : ℕ = elim reply.read_round [ none ↦ 0 | some k ↦ k ] in
      let t = advance_match p (r.prev_log_index + length r.entries) s in
      let (u, _, run, _, _, _, w) = update_commit_index_lem c t (advance_match-Valid p _ s v h m) in
      if_both (Ensures (Valid c)) (is_round round) _ _
        (acked (acknowledge_read c p request_term round s)
          (acknowledge_read-Valid p request_term round s v))
        (rw run (go_on-Valid false p u w m))
    where
      acked :
          (o : Option Raft)
          → OnSome (Valid c) o
          → Ensures (Valid c) (elim o [ none ↦ some s | some s' ↦ go_on c false p s' ])
      acked none q = v
      acked (some s') q = go_on-Valid false p s' q m

  module _ (e : Env) where
    pub handle_append_reply-Valid :
        (p request_term : ℕ) (r : AppendEntriesArgs) (ok : Bool) (reply : AppendEntriesReply)
        (s : Raft)
        → Valid c s
        → contains c.peers p ≡ true
        → (is_leader s.status ≡ true
            → request_term ≡ s.current_term
            → r.prev_log_index + length r.entries ≤ last_of s.log)
        → Ensures (Valid c) (handle_append_reply c e p request_term r ok reply s)
    unfolding handle_append_reply release_in_flight mark_peer_active emit
    handle_append_reply-Valid p request_term r ok reply s v m h =
        if_either (Ensures (Valid c))
          (not (is_leader s.status) || not (request_term == s.current_term)) _ _ (λ stale. v)
          (λ live.
            if_both (Ensures (Valid c)) (not ok) _ _
              (reset_channel-Valid c e p (release_in_flight c p s) v m)
              (if_both (Ensures (Valid c)) (ltb s.current_term reply.term) _ _
                (become_follower-Valid c e reply.term (release_in_flight c p s) v)
                (if_both (Ensures (Valid c)) (ltb reply.term s.current_term) _ _ v (
                  if_both (Ensures (Valid c)) reply.success _ _
                    (accept_reply-Valid p request_term r reply _ v m
                      (h (ground arith) (ground arith)))
                    (go_on-Valid true p _
                      (fall_back-Valid p reply.update_next_index
                        (mark_peer_active p e (release_in_flight c p s)) v m)
                      m)))))

    pub handle_snapshot_reply-Valid :
        (p request_term : ℕ) (ok : Bool) (reply_term : ℕ) (s : Raft)
        → Valid c s
        → contains c.peers p ≡ true
        → Ensures (Valid c) (handle_snapshot_reply c e p request_term ok reply_term s)
    unfolding handle_snapshot_reply release_in_flight mark_peer_active emit
    handle_snapshot_reply-Valid p request_term ok reply_term s v m =
        let t = mark_peer_active p e (release_in_flight c p s) in
        let u = advance_match p s.log.last_include_index t in
        let w : Valid c u = advance_match-Valid p s.log.last_include_index t v (omega arith) m in
        if_both (Ensures (Valid c))
          (not (is_leader s.status) || not (request_term == s.current_term)) _ _ v
          (if_both (Ensures (Valid c)) (not ok) _ _
            (reset_channel-Valid c e p (release_in_flight c p s) v m)
            (if_both (Ensures (Valid c)) (ltb s.current_term reply_term) _ _
              (become_follower-Valid c e reply_term (release_in_flight c p s) v)
              (if_both (Ensures (Valid c)) (ltb reply_term s.current_term) _ _ v (
                if_both (Ensures (Valid c))
                  (u.replication_pending p || leb (u.next_index p) (get_last_log_index u.log)) _ _
                  (Valid-of_Runs c u _ (schedule_one-Runs c p u w m) w) w))))

    pub start-Valid :
        (command : String) (s : Raft) → Valid c s → Ensures (Valid c) (start c e (some command) s)
    unfolding start emit get_new_command_index
    start-Valid command s v =
        let x : LogEntry = record {
          log_index = get_last_log_index s.log + 1;
          log_term = s.current_term;
          command = command;
        } in
        let t = persist (push_entry c x s) in
        let w : Valid c t = persist-Valid c _ (push_entry-Valid c e x s refl v) in
        let (u, _, run, _, _, _, q) = update_commit_index_lem c t w in
        if_both (Ensures (Valid c)) (not s.stop && is_leader s.status) _ _
          (rw run (
            Ensures-bind (λ z. core z ≡ core u) (Valid c) (schedule_all_replication c u) _
              (schedule_all_replication-Runs c u q) λ z k. Valid-of_core c u z k q))
          v

    -- A read asks every peer at once, so it wants every peer's next entry in the log.
    pub read_index-Valid :
        (cb : ℕ) (s : Raft)
        → Valid c s
        → All (Ahead (core s)) c.peers
        → Ensures (Valid c) (read_index c e cb s)
    unfolding read_index open_read emit
    read_index-Valid cb s v a =
        let t = open_read c e cb s in
        if_both (Ensures (Valid c)) (not (is_leader s.status)) _ _ v (
          if_both (Ensures (Valid c)) (not s.current_term_committed) _ _ v (
            option_both (Ensures (Valid c)) s.active_read _ _
              (Valid-of_Runs c t _ (schedule_all_heart_beat-Runs c _ t v a) v) λ p. v))

    watch_heartbeat-Valid : (s : Raft) → Valid c s → Ensures (Valid c) (watch_heartbeat c e s)
    unfolding watch_heartbeat reset_heartbeat_deadline
    watch_heartbeat-Valid s v =
        if_both (Ensures (Valid c)) (leb s.timers.heartbeat_deadline e.now) _ _
          (Ensures-bind (λ z. core z ≡ core s) (Valid c) (schedule_all_replication c s) _
            (schedule_all_replication-Runs c s v) λ z k. Valid-of_core c s z k v)
          v

    pub handle_deadlines-Valid : (s : Raft) → Valid c s → Ensures (Valid c) (handle_deadlines c e s)
    unfolding handle_deadlines reset_quorum_deadline
    handle_deadlines-Valid s v =
        if_both (Ensures (Valid c)) (is_leader s.status) _ _
          (if_both (Ensures (Valid c)) (leb s.timers.quorum_deadline e.now) _ _
            (if_both (Ensures (Valid c)) (has_recent_quorum c e.now s) _ _
              (watch_heartbeat-Valid (reset_quorum_deadline e s) v) (step_down-Valid c e s v))
            (watch_heartbeat-Valid s v))
          (if_both (Ensures (Valid c)) (leb s.timers.election_deadline e.now) _ _
            (begin_pre_vote-Valid c e s v) v)
