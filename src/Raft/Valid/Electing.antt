-- ===== src/Raft/Valid/Electing.antt =====
-- Elections keep a node valid: a new leader starts with every peer tracked.
use raft_storage.Common.{
  ℕ, ◌+◌, ◌≡◌, true, refl, sym, subst, Bool, false, not, ◌&&◌, ◌||◌, Option, some, List, [], ◌∷◌,
  arith, ltb, leb, ◌==◌, All, length-append, update, update_self, contains,
}
use raft_storage.Log.Shape.{Consecutive-append, IsContiguous}
use raft_storage.Raft.State.{Raft, Config, Env, failed, RequestVoteArgs, RequestVoteReply}
use raft_storage.Raft.Frame.{Core, if_both, finish_read-core}
use raft_storage.Raft.Valid.{IsValid, Ensures, Valid, Valid-last, Valid-of_Runs, All-imp, both-All}
use raft_storage.Raft.Valid.Sending.{schedule_all_replication-Runs}
use raft_storage.Raft.Replication.{is_leader, push_entry, append_noop_command, build_noop_command}
use raft_storage.Raft.Role.{
  persist, fail_all_pending_read_index, step_down, become_follower, reset_heartbeat_deadline,
  reset_election_deadline, adopt_term, reset_leader_contact_times, reset_quorum_deadline, emit,
  quorum_size, reset_channel,
}
use raft_storage.Raft.Election.{
  set_all, meet_term, take_lead, handle_request_vote, decide_vote, cast_vote, begin_pre_vote,
  ask_votes, handle_pre_vote_reply, handle_vote_reply, may_vote, stand_pre, become_leader,
  begin_election, stand, is_precandidate, is_candidate, has_voted,
}
use raft_storage.Persister.{save_raft_state, clear_raft_state}
use raft_storage.Log.{LogEntry, get_last_log_index, whether_vote_for, get_new_command_index}

-- Off the lead, the fields that a step may change at will.
pub unled :
    (c : Config) (s : Raft) (k : Core)
    → k.log ≡ s.log
    → k.last_applied ≡ s.last_applied
    → k.commit_index ≡ s.commit_index
    → k.persister.snap_shot_file ≡ s.persister.snap_shot_file
    → is_leader k.status ≡ false
    → Valid c s
    → IsValid c k
unled c s k l a m f n v = record {
  contiguous = subst IsContiguous (sym l) v.contiguous;
  applied = rw (l, a) v.applied;
  committed = rw (a, m) v.committed;
  logged = rw (l, m) v.logged;
  snapped = rw (l, f) v.snapped;
  tracked = λ h. cc;
}

fail_all-Valid : (c : Config) (s : Raft) → Valid c s → Valid c (fail_all_pending_read_index s)
unfolding fail_all_pending_read_index
fail_all-Valid c s v = subst (IsValid c) (sym (finish_read-core failed s)) v

pub persist-Valid : (c : Config) (s : Raft) → Valid c s → Valid c (persist s)
unfolding persist save_raft_state clear_raft_state
persist-Valid c s v = record {
  contiguous = v.contiguous;
  applied = v.applied;
  committed = v.committed;
  logged = v.logged;
  snapped = v.snapped;
  tracked = v.tracked;
}

persist_vote-Valid :
    (c : Config) (s : Raft) (o : Option ℕ)
    → Valid c s
    → Valid c (persist (record s { voted_for = o }))
unfolding persist save_raft_state clear_raft_state
persist_vote-Valid c s o v = record {
  contiguous = v.contiguous;
  applied = v.applied;
  committed = v.committed;
  logged = v.logged;
  snapped = v.snapped;
  tracked = v.tracked;
}

pub become_follower-Valid :
    (c : Config) (e : Env) (term : ℕ) (s : Raft) → Valid c s → Valid c (become_follower e term s)
unfolding become_follower adopt_term reset_election_deadline persist save_raft_state
    clear_raft_state
become_follower-Valid c e term s v =
    fail_all-Valid c _
      (unled c s _ (ground arith) (ground arith) (ground arith) (ground arith) refl v)

pub step_down-Valid : (c : Config) (e : Env) (s : Raft) → Valid c s → Valid c (step_down e s)
unfolding step_down reset_election_deadline
step_down-Valid c e s v = fail_all-Valid c _ (unled c s _ refl refl refl refl refl v)

pub meet_term-Valid :
    (c : Config) (e : Env) (term : ℕ) (s : Raft) → Valid c s → Valid c (meet_term e term s)
unfolding meet_term
meet_term-Valid c e term s v =
    if_both (Valid c) (ltb s.current_term term) _ _ (become_follower-Valid c e term s v) v

decide_vote-Valid :
    (c : Config) (e : Env) (r : RequestVoteArgs) (s : Raft)
    → Valid c s
    → Valid c (decide_vote e r s).0
unfolding decide_vote cast_vote reset_election_deadline
decide_vote-Valid c e r s v =
    if_both (Valid c)
      (may_vote s.voted_for r.candidate_id
        && whether_vote_for s.log r.last_log_index r.last_log_term)
      _ _
      (if_both (Valid c) (has_voted s.voted_for r.candidate_id) _ _ v
        (persist_vote-Valid c s (some (r.candidate_id)) v))
      v

pub handle_request_vote-Valid :
    (c : Config) (e : Env) (r : RequestVoteArgs) (s : Raft)
    → Valid c s
    → Valid c (handle_request_vote e r s).0
unfolding handle_request_vote
handle_request_vote-Valid c e r s v =
    let s' = meet_term e r.term s in
    let w = meet_term-Valid c e r.term s v in
    if_both (λ (p : Raft × RequestVoteReply). Valid c p.0) (ltb r.term s'.current_term) _ _ w
      (decide_vote-Valid c e r s' w)

-- A map that is set for all peers.
set_all_kept :
    {A : Type 0} (P : A → Type 0) (ps : List ℕ) (v : A) (f : ℕ → A) (p : ℕ)
    → P v
    → P (f p)
    → P (set_all ps v f p)
unfolding set_all
set_all_kept P [] v f p h k = k
set_all_kept P (q ∷ ps) v f p h k =
    set_all_kept P ps v (update f q v) p h (if_both P (q == p) v (f p) h k)

pub set_all_eq : {A : Type 0} (ps : List ℕ) (v : A) (f : ℕ → A) → All (λ p. set_all ps v f p ≡ v) ps
unfolding set_all
set_all_eq [] v f = tt
set_all_eq (p ∷ ps) v f = (
  set_all_kept (λ x. x ≡ v) ps v (update f p v) p refl (update_self f p v),
  set_all_eq ps v (update f p v),
)

module _ (c : Config) (e : Env) where
  take_lead-Valid : (s : Raft) → Valid c s → Valid c (take_lead c e s)
  unfolding take_lead reset_heartbeat_deadline reset_leader_contact_times reset_quorum_deadline
  take_lead-Valid s v = record {
    contiguous = v.contiguous;
    applied = v.applied;
    committed = v.committed;
    logged = v.logged;
    snapped = v.snapped;
    tracked = λ h.
        All-imp _ _ c.peers
          (λ p q. (omega (arith, q.0), omega (arith, q.0, Valid-last c s v), omega (arith, q.1)))
          (both-All _ _ c.peers (set_all_eq c.peers (get_last_log_index s.log + 1) s.next_index)
            (set_all_eq c.peers 0 s.match_index));
  }

  pub push_entry-Valid :
      (x : LogEntry) (s : Raft)
      → x.log_index ≡ get_last_log_index s.log + 1
      → Valid c s
      → Valid c (push_entry c x s)
  unfolding push_entry
  push_entry-Valid x s h v =
      let n = length-append s.log.logs (x ∷ []) in
      let l = Valid-last c s v in
      record {
        contiguous =
            Consecutive-append _ s.log.logs (x ∷ []) v.contiguous (omega (arith, h, l), tt);
        applied = v.applied;
        committed = v.committed;
        logged = omega (arith, n, v.logged);
        snapped = v.snapped;
        tracked = λ q.
            All-imp _ _ c.peers (λ p t. (t.0, omega (arith, t.1, n), omega (arith, t.2, n)))
              (v.tracked q);
      }

  append_noop-Valid : (s : Raft) → Valid c s → Ensures (Valid c) (append_noop_command c e s)
  unfolding append_noop_command build_noop_command get_new_command_index
  append_noop-Valid s v =
      let t = persist (push_entry c (build_noop_command c e s) s) in
      let w : Valid c t =
        persist-Valid c _ (push_entry-Valid (build_noop_command c e s) s refl v) in
      Valid-of_Runs c t _ (schedule_all_replication-Runs c t w) w

  pub become_leader-Valid : (s : Raft) → Valid c s → Ensures (Valid c) (become_leader c e s)
  unfolding become_leader
  become_leader-Valid s v = append_noop-Valid _ (take_lead-Valid s v)

  stand-Valid : (s : Raft) → Valid c s → Valid c (ask_votes c e (stand c e s))
  unfolding ask_votes stand reset_election_deadline persist save_raft_state clear_raft_state
  stand-Valid s v = unled c s _ refl refl refl refl refl v

  pub begin_election-Valid : (s : Raft) → Valid c s → Ensures (Valid c) (begin_election c e s)
  unfolding begin_election
  begin_election-Valid s v = if_both (Ensures (Valid c)) (s.stop || is_leader s.status) _ _ v (
      if_both (Ensures (Valid c)) (leb (quorum_size c) (ask_votes c e (stand c e s)).votes_granted)
        _ _ (become_leader-Valid _ (stand-Valid s v)) (stand-Valid s v))

  stand_pre-Valid : (s : Raft) → Valid c s → Valid c (stand_pre c e s)
  unfolding stand_pre reset_election_deadline
  stand_pre-Valid s v = unled c s _ refl refl refl refl refl v

  pub begin_pre_vote-Valid : (s : Raft) → Valid c s → Ensures (Valid c) (begin_pre_vote c e s)
  unfolding begin_pre_vote
  begin_pre_vote-Valid s v = if_both (Ensures (Valid c)) (s.stop || is_leader s.status) _ _ v (
      if_both (Ensures (Valid c)) (leb (quorum_size c) (stand_pre c e s).pre_votes_granted) _ _
        (begin_election-Valid _ (stand_pre-Valid s v)) (stand_pre-Valid s v))

  -- For a peer `peers_.at` throws nothing.
  pub reset_channel-Valid :
      (server : ℕ) (s : Raft)
      → Valid c s
      → contains c.peers server ≡ true
      → Ensures (Valid c) (reset_channel c server s)
  unfolding reset_channel emit
  reset_channel-Valid server s v m = rw m v

  pub handle_vote_reply-Valid :
      (server request_term : ℕ) (ok : Bool) (reply : RequestVoteReply) (s : Raft)
      → Valid c s
      → contains c.peers server ≡ true
      → Ensures (Valid c) (handle_vote_reply c e server request_term ok reply s)
  unfolding handle_vote_reply emit
  handle_vote_reply-Valid server request_term ok reply s v m =
      if_both (Ensures (Valid c)) (not ok) _ _ (reset_channel-Valid server s v m) (
        if_both (Ensures (Valid c)) (ltb s.current_term reply.term) _ _
          (become_follower-Valid c e reply.term s v)
          (if_both (Ensures (Valid c))
            (is_candidate s.status
              && (request_term == s.current_term)
              && (s.election_term == s.current_term)
              && reply.vote_granted)
            _ _
            (if_both (Ensures (Valid c)) (leb (quorum_size c) (s.votes_granted + 1)) _ _
              (become_leader-Valid _ v) v)
            v))

  pub handle_pre_vote_reply-Valid :
      (server request_term round : ℕ) (ok : Bool) (reply : RequestVoteReply) (s : Raft)
      → Valid c s
      → contains c.peers server ≡ true
      → Ensures (Valid c) (handle_pre_vote_reply c e server request_term round ok reply s)
  unfolding handle_pre_vote_reply emit
  handle_pre_vote_reply-Valid server request_term round ok reply s v m =
      if_both (Ensures (Valid c)) (not ok) _ _ (reset_channel-Valid server s v m) (
        if_both (Ensures (Valid c)) (ltb s.current_term reply.term) _ _
          (become_follower-Valid c e reply.term s v)
          (if_both (Ensures (Valid c))
            (is_precandidate s.status
              && (request_term == s.pre_vote_term)
              && (round == s.pre_vote_round)
              && reply.vote_granted)
            _ _
            (if_both (Ensures (Valid c)) (leb (quorum_size c) (s.pre_votes_granted + 1)) _ _
              (begin_election-Valid _ v) v)
            v))
