-- ===== src/Raft/Durable/Handlers.antt =====
-- Each function of Raft/Raft.cc that a handler is made of lets the node evolve: no term falls, no
-- vote changes inside a term, and what changes is on disk.
use raft_storage.Common.{
  ℕ, zero, suc, ◌+◌, ◌≡◌, refl, inl, inr, true, false, ◌&&◌, ◌||◌, Option, none, some, arith, ltb,
  leb, ltb→lt, Bool-cases, Option-cases,
}
use raft_storage.Log.{whether_vote_for, entry_at, get_last_log_index}
use raft_storage.Raft.State.{RequestVoteReply, Raft, Config, Env, RequestVoteArgs}
use raft_storage.Raft.Role.{
  quorum_size, adopt_term, become_follower, step_down, fail_all_pending_read_index,
  reset_election_deadline, reset_heartbeat_deadline, reset_quorum_deadline,
  reset_leader_contact_times,
}
use raft_storage.Raft.Commit.{
  apply_next, apply_rounds, apply_committed, find_commit, update_commit_index,
}
use raft_storage.Raft.Replication.{is_leader, push_entry, append_noop_command}
use raft_storage.Raft.Election.{
  stand, ask_votes, take_lead, become_leader, begin_election, stand_pre, begin_pre_vote, cast_vote,
  decide_vote, meet_term, handle_request_vote, may_vote, has_voted,
}
use raft_storage.Raft.Frame.{if_both, finish_read-core, schedule_all_replication-Keeps}
use raft_storage.Raft.Durable.{
  Evolves, Evolves-of_ballot, Evolves-of_core, Evolves-refl, Evolves-trans, Goes, Goes-bind,
  Goes-from, Goes-of_Keeps, Evolves-persist,
}

pub fail_all-Evolves : (s : Raft) → Evolves s (fail_all_pending_read_index s)
unfolding fail_all_pending_read_index
fail_all-Evolves s = Evolves-of_core s _ (finish_read-core _ s)

adopt_term-Evolves : (term : ℕ) (s : Raft) → Evolves s (adopt_term term s)
unfolding adopt_term
adopt_term-Evolves term s = elim (Bool-cases (ltb s.current_term term)) [
  | inl higher ↦
      let h = ltb→lt _ _ higher in
      rw higher (Evolves-persist s _ (omega arith) (λ a p q. absurd (omega arith)))
  | inr not_higher ↦ rw not_higher (Evolves-refl s)
]

pub become_follower-Evolves : (e : Env) (term : ℕ) (s : Raft) → Evolves s (become_follower e term s)
unfolding become_follower reset_election_deadline
become_follower-Evolves e term s =
    Evolves-trans (adopt_term-Evolves term s)
      (Evolves-trans (Evolves-of_ballot _ _ refl) (fail_all-Evolves _))

pub step_down-Evolves : (e : Env) (s : Raft) → Evolves s (step_down e s)
unfolding step_down reset_election_deadline
step_down-Evolves e s = Evolves-trans (Evolves-of_ballot s _ refl) (fail_all-Evolves _)

apply_next-Goes : (s : Raft) → Goes s (apply_next s)
unfolding apply_next
apply_next-Goes s = elim (Option-cases (entry_at s.log (s.last_applied + 1))) [
  | inl missing ↦ rw missing tt
  | inr (x, found) ↦ rw found (Evolves-of_ballot s _ refl)
]

apply_rounds-Goes : (n : ℕ) (s : Raft) → Goes s (apply_rounds n s)
unfolding apply_rounds
apply_rounds-Goes zero s = Evolves-refl s
apply_rounds-Goes (suc n) s =
    Goes-bind s (apply_next s) (apply_rounds n) (apply_next-Goes s) (apply_rounds-Goes n)

pub apply_committed-Goes : (s : Raft) → Goes s (apply_committed s)
unfolding apply_committed
apply_committed-Goes s = apply_rounds-Goes _ s

pub update_commit_index-Goes : (c : Config) (s : Raft) → Goes s (update_commit_index c s)
unfolding update_commit_index
update_commit_index-Goes c s = elim (Option-cases (find_commit c s (get_last_log_index s.log))) [
  | inl failed ↦ rw failed tt
  | inr (none, e) ↦ rw e (Evolves-refl s)
  | inr (some i, e) ↦ rw e (Goes-from _ (Evolves-of_ballot s _ refl) (apply_committed-Goes _))
]

module _ (c : Config) (e : Env) where
  stand-Evolves : (s : Raft) → Evolves s (stand c e s)
  unfolding stand reset_election_deadline
  stand-Evolves s =
      Evolves-trans (Evolves-persist s _ (omega arith) (λ a p q. absurd (omega arith)))
        (Evolves-of_ballot _ _ refl)

  asked : (s : Raft) → Evolves s (ask_votes c e (stand c e s))
  unfolding ask_votes
  asked s = Evolves-trans (stand-Evolves s) (Evolves-of_ballot _ _ refl)

  take_lead-Evolves : (s : Raft) → Evolves s (take_lead c e s)
  unfolding take_lead reset_heartbeat_deadline reset_leader_contact_times reset_quorum_deadline
  take_lead-Evolves s = Evolves-of_ballot s _ refl

  append_noop-Goes : (s : Raft) → Goes s (append_noop_command c e s)
  unfolding append_noop_command push_entry
  append_noop-Goes s =
      Goes-from _ (Evolves-persist s _ (omega arith) (λ a p q. q))
        (Goes-of_Keeps _ _ (schedule_all_replication-Keeps c _))

  pub become_leader-Goes : (s : Raft) → Goes s (become_leader c e s)
  unfolding become_leader
  become_leader-Goes s = Goes-from _ (take_lead-Evolves s) (append_noop-Goes _)

  pub begin_election-Goes : (s : Raft) → Goes s (begin_election c e s)
  unfolding begin_election
  begin_election-Goes s = if_both (Goes s) (s.stop || is_leader s.status) _ _ (Evolves-refl s) (
      if_both (Goes s) (leb (quorum_size c) (ask_votes c e (stand c e s)).votes_granted) _ _
        (Goes-from _ (asked s) (become_leader-Goes _)) (asked s))

  stand_pre-Evolves : (s : Raft) → Evolves s (stand_pre c e s)
  unfolding stand_pre reset_election_deadline
  stand_pre-Evolves s = Evolves-of_ballot s _ refl

  pub begin_pre_vote-Goes : (s : Raft) → Goes s (begin_pre_vote c e s)
  unfolding begin_pre_vote
  begin_pre_vote-Goes s = if_both (Goes s) (s.stop || is_leader s.status) _ _ (Evolves-refl s) (
      if_both (Goes s) (leb (quorum_size c) (stand_pre c e s).pre_votes_granted) _ _
        (Goes-from _ (stand_pre-Evolves s) (begin_election-Goes _)) (stand_pre-Evolves s))

no_vote_yet : (o : Option ℕ) (x : ℕ) → may_vote o x ≡ true → has_voted o x ≡ false → o ≡ none
no_vote_yet none x h k = refl
no_vote_yet (some v) x h k = cc

module _ (e : Env) where
  pub meet_term-Evolves : (term : ℕ) (s : Raft) → Evolves s (meet_term e term s)
  unfolding meet_term
  meet_term-Evolves term s =
      if_both (Evolves s) (ltb s.current_term term) _ _ (become_follower-Evolves e term s)
        (Evolves-refl s)

  -- A vote replaces no other vote.
  cast_vote-Evolves :
      (x : ℕ) (s : Raft) → may_vote s.voted_for x ≡ true → Evolves s (cast_vote e x s)
  unfolding cast_vote reset_election_deadline
  cast_vote-Evolves x s may = elim (Bool-cases (has_voted s.voted_for x)) [
    | inl repeated ↦ rw repeated (Evolves-of_ballot s _ refl)
    | inr first ↦
        let free = no_vote_yet s.voted_for x may first in
        rw first (
          Evolves-trans
            (Evolves-persist s (record s { voted_for = some x }) (omega arith) (λ a p q. cc))
            (Evolves-of_ballot _ _ refl))
  ]

  decide_vote-Evolves : (r : RequestVoteArgs) (s : Raft) → Evolves s (decide_vote e r s).0
  unfolding decide_vote
  decide_vote-Evolves r s =
      let granted =
        may_vote s.voted_for r.candidate_id
        && whether_vote_for s.log r.last_log_index r.last_log_term in
      elim (Bool-cases granted) [
        | inl yes_vote ↦ rw yes_vote (cast_vote-Evolves r.candidate_id s (ground arith))
        | inr no_vote ↦ rw no_vote (Evolves-refl s)
      ]

  pub handle_request_vote-Evolves :
      (r : RequestVoteArgs) (s : Raft) → Evolves s (handle_request_vote e r s).0
  unfolding handle_request_vote
  handle_request_vote-Evolves r s =
      let s' = meet_term e r.term s in
      if_both (λ (p : Raft × RequestVoteReply). Evolves s p.0) (ltb r.term s'.current_term) _ _
        (meet_term-Evolves r.term s)
        (Evolves-trans (meet_term-Evolves r.term s) (decide_vote-Evolves r s'))
