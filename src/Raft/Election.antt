-- ===== src/Raft/Election.antt =====
-- Raft/Raft.cc: pre-votes, votes, and the way to leader.
use raft_storage.Common.{
  ℕ, ◌+◌, ◌-◌, Bool, true, false, not, ◌&&◌, ◌||◌, Option, none, some, List, [], ◌∷◌, ltb, leb,
  ◌==◌, if◌then◌else◌, update,
}
use raft_storage.Log.{get_last_log_index, get_last_log_term, whether_vote_for}
use raft_storage.Raft.State.{
  Raft, Config, Env, Status, precandidate, candidate, leader, RequestVoteArgs, RequestVoteReply,
  Effect, send_pre_vote, send_request_vote, log_outdated, voted, expired, normal, not_up_to_date,
}
use raft_storage.Raft.Role.{
  reset_channel, reset_election_deadline, reset_heartbeat_deadline, reset_leader_contact_times,
  quorum_size, persist, become_follower, election_time_out,
}
use raft_storage.Raft.Replication.{append_noop_command, is_leader}

abbrev pub is_candidate : Status → Bool
is_candidate candidate = true
is_candidate _ = false

abbrev pub is_precandidate : Status → Bool
is_precandidate precandidate = true
is_precandidate _ = false

unfoldable pub set_all {ℓ} : {A : Type ℓ} → List ℕ → A → (ℕ → A) → ℕ → A
set_all [] v f = f
set_all (p ∷ ps) v f = set_all ps v (update f p v)

-- One call to each peer, in order; the newest effect stands first.
unfoldable pub send_each : (ℕ → Effect) → List ℕ → List Effect → List Effect
send_each call [] done = done
send_each call (p ∷ ps) done = send_each call ps (call p ∷ done)

unfoldable pub vote_request : Config → ℕ → Raft → RequestVoteArgs
vote_request c term s = record {
  term = term;
  candidate_id = c.id;
  last_log_index = get_last_log_index s.log;
  last_log_term = get_last_log_term s.log;
}

module _ (c : Config) (e : Env) where
  -- The fields that a new leader sets before it appends its no-op entry.
  unfoldable pub take_lead : Raft → Raft
  take_lead s =
      let next = get_last_log_index s.log + 1 in
      reset_heartbeat_deadline e (
        reset_leader_contact_times c e (record s {
          status = leader;
          votes_granted = 0;
          pre_votes_granted = 0;
          next_index = set_all c.peers next s.next_index;
          match_index = set_all c.peers 0 s.match_index;
          replication_in_flight = set_all c.peers false s.replication_in_flight;
          replication_pending = set_all c.peers false s.replication_pending;
        }))

  unfoldable pub become_leader : Raft → Option Raft
  become_leader s = append_noop_command c e (take_lead s)

  -- `beginElection` up to the calls: a new term, a vote for itself, on disk.
  unfoldable pub stand : Raft → Raft
  stand s =
      let s' = record s {
        status = candidate;
        current_term = s.current_term + 1;
        voted_for = some (c.id);
        votes_granted = 1;
        election_term = s.current_term + 1;
      } in
      reset_election_deadline e (persist s')

  unfoldable pub ask_votes : Raft → Raft
  ask_votes s = record s {
    effects =
        send_each (λ p. send_request_vote p (vote_request c s.current_term s)) c.peers s.effects;
  }

  unfoldable pub begin_election : Raft → Option Raft
  begin_election s =
      let s' = ask_votes (stand s) in
      if s.stop || is_leader s.status
      then some s
      else (if leb (quorum_size c) s'.votes_granted then become_leader s' else some s')

  unfoldable pub stand_pre : Raft → Raft
  stand_pre s =
      let s' = reset_election_deadline e (record s {
        status = precandidate;
        pre_vote_term = s.current_term + 1;
        pre_votes_granted = 1;
        pre_vote_round = s.pre_vote_round + 1;
      }) in
      record s' {
        effects =
            send_each (λ p. send_pre_vote p (vote_request c s'.pre_vote_term s') s'.pre_vote_round)
              c.peers s'.effects;
      }

  unfoldable pub begin_pre_vote : Raft → Option Raft
  begin_pre_vote s =
      let s' = stand_pre s in
      if s.stop || is_leader s.status
      then some s
      else (if leb (quorum_size c) s'.pre_votes_granted then begin_election s' else some s')

  unfoldable pub handle_pre_vote_reply : ℕ → ℕ → ℕ → Bool → RequestVoteReply → Raft → Option Raft
  handle_pre_vote_reply server request_term request_round transport_ok reply s =
      let counted = record s { pre_votes_granted = s.pre_votes_granted + 1 } in
      if not transport_ok
      then reset_channel c server s
      else (if ltb s.current_term reply.term
          then some (become_follower e reply.term s)
          else (if is_precandidate s.status
                && (request_term == s.pre_vote_term)
                && (request_round == s.pre_vote_round)
                && reply.vote_granted
              then (if leb (quorum_size c) counted.pre_votes_granted
                  then begin_election counted
                  else some counted)
              else some s))

  unfoldable pub handle_vote_reply : ℕ → ℕ → Bool → RequestVoteReply → Raft → Option Raft
  handle_vote_reply server request_term transport_ok reply s =
      let counted = record s { votes_granted = s.votes_granted + 1 } in
      if not transport_ok
      then reset_channel c server s
      else (if ltb s.current_term reply.term
          then some (become_follower e reply.term s)
          else (if is_candidate s.status
                && (request_term == s.current_term)
                && (s.election_term == s.current_term)
                && reply.vote_granted
              then (if leb (quorum_size c) counted.votes_granted
                  then become_leader counted
                  else some counted)
              else some s))

abbrev pub has_voted : Option ℕ → ℕ → Bool
has_voted none x = false
has_voted (some v) x = v == x

abbrev pub may_vote : Option ℕ → ℕ → Bool
may_vote none x = true
may_vote (some v) x = v == x

module _ (e : Env) where
  -- The vote goes to disk before the answer.
  unfoldable pub cast_vote : ℕ → Raft → Raft
  cast_vote x s =
      reset_election_deadline e
        (if has_voted s.voted_for x then s else persist (record s { voted_for = some x }))

  unfoldable pub decide_vote : RequestVoteArgs → Raft → Raft × RequestVoteReply
  decide_vote request s =
      let may = may_vote s.voted_for request.candidate_id in
      let granted = may && whether_vote_for s.log request.last_log_index request.last_log_term in
      (
        (if granted then cast_vote request.candidate_id s else s),
        record {
          term = s.current_term;
          vote_granted = granted;
          vote_state = if granted then normal else (if may then log_outdated else voted);
        },
      )

  unfoldable pub meet_term : ℕ → Raft → Raft
  meet_term term s = if ltb s.current_term term then become_follower e term s else s

  unfoldable pub handle_request_vote : RequestVoteArgs → Raft → Raft × RequestVoteReply
  handle_request_vote request s =
      let s' = meet_term request.term s in
      if ltb request.term s'.current_term
      then (s', record { term = s'.current_term; vote_granted = false; vote_state = expired })
      else decide_vote request s'

  unfoldable pub has_recent_leader : Raft → Bool
  has_recent_leader s = elim s.timers.last_leader_contact [
    | none ↦ false
    | some t ↦ ltb (e.now - t) election_time_out
  ]

  -- A pre-vote changes no state.
  unfoldable pub handle_pre_vote : RequestVoteArgs → Raft → RequestVoteReply
  handle_pre_vote request s =
      let up_to_date = whether_vote_for s.log request.last_log_index request.last_log_term in
      let granted = not (has_recent_leader s) && up_to_date in
      if ltb request.term s.current_term
      then record { term = s.current_term; vote_granted = false; vote_state = expired }
      else record {
        term = s.current_term;
        vote_granted = granted;
        vote_state = if granted then normal else (if up_to_date then voted else not_up_to_date);
      }
