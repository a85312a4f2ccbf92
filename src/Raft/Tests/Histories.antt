-- ===== src/Raft/Tests/Histories.antt =====
-- Runs of several events, and the theorems about them at these runs.
use raft_storage.Common.{List, arith, ℕ, ◌≡◌, refl, true, false, none, some, [], ◌∷◌, update}
use raft_storage.Raft.State.{Env, Raft, vote_answer, start_answer}
use raft_storage.Raft.Loop.{Event, run, step, request_vote, append_stream, client_start, start}
use raft_storage.Log.{get_last_log_index, back, whether_vote_for, get_last_log_term}
use raft_storage.Persister.{save_raft_state}
use raft_storage.Raft.Valid.{Valid}
use raft_storage.Raft.Valid.Events.{Reaches-Valid, Recovers, construct-Recovers, next, here}
use raft_storage.Raft.Election.{handle_request_vote, meet_term, decide_vote, cast_vote}
use raft_storage.Raft.Votes.{votes_once, Granted, handle_request_vote-Granted}
use raft_storage.Raft.Start.{
  construct, Node, process_event_batch, drain_control, drain_command, is_due,
}
use raft_storage.Raft.Durable.{Evolves, persist-IsSaved}
use raft_storage.Raft.Role.{
  quorum_size, persist, emit, become_follower, adopt_term, reset_election_deadline,
  fail_all_pending_read_index, finish_read,
}
use raft_storage.Raft.Durable.Events.{run-Evolves}
use raft_storage.Raft.Tests.Nodes.{
  three, at_time, candidate_2, node, candidate_3, node-Valid, answered, first,
}
use raft_storage.Raft.Quorums.{elected_once, IsElected, Voted}

-- The node after the request of the second candidate.
abbrev later : Raft
later = let r = handle_request_vote (at_time 70) candidate_3 first.0 in emit (vote_answer 3 r.1) r.0

runs_later : run three ((at_time 70, request_vote candidate_3) ∷ []) first.0 ≡ some later
unfolding run step
runs_later = refl

goes_answered : step three (at_time 60) (request_vote candidate_2) node ≡ some answered
unfolding step
goes_answered = refl

-- The node's history: the first request, and then a new stream from node 3.
abbrev streaming : Raft
streaming = record answered { ae_responder = update answered.ae_responder 3 true }

goes_streaming : step three (at_time 65) (append_stream 3 true) answered ≡ some streaming
unfolding step
goes_streaming = refl

Reaches-Valid_example : Valid three streaming
Reaches-Valid_example = Reaches-Valid three node-Valid (
    next (at_time 65) (append_stream 3 true)
      (next (at_time 60) (request_vote candidate_2) here tt goes_answered) tt goes_streaming)

first_grant : first.1.vote_granted ≡ true
unfolding handle_request_vote meet_term become_follower adopt_term persist reset_election_deadline
    fail_all_pending_read_index finish_read decide_vote whether_vote_for get_last_log_index
    get_last_log_term back
first_grant = refl

second_refused : (handle_request_vote (at_time 70) candidate_3 first.0).1.vote_granted ≡ false
unfolding handle_request_vote meet_term become_follower adopt_term persist reset_election_deadline
    fail_all_pending_read_index finish_read decide_vote whether_vote_for get_last_log_index
    get_last_log_term back cast_vote
second_refused = refl

third_grant : (handle_request_vote (at_time 80) candidate_2 later).1.vote_granted ≡ true
unfolding handle_request_vote meet_term become_follower adopt_term persist reset_election_deadline
    fail_all_pending_read_index finish_read decide_vote whether_vote_for get_last_log_index
    get_last_log_term back cast_vote emit
third_grant = refl

votes_once_example : candidate_2.candidate_id ≡ candidate_2.candidate_id
votes_once_example =
    votes_once three (at_time 60) (at_time 80) candidate_2 candidate_2 node later
      ((at_time 70, request_vote candidate_3) ∷ []) first_grant runs_later third_grant refl

handle_request_vote-Granted_example : Granted candidate_2 node first.0 first.1
handle_request_vote-Granted_example =
    handle_request_vote-Granted (at_time 60) candidate_2 node first_grant

run-Evolves_example : Evolves first.0 later
run-Evolves_example =
    run-Evolves three ((at_time 70, request_vote candidate_3) ∷ []) first.0 later runs_later

-- The node with its state on disk.
abbrev saved_node : Raft
saved_node = persist node

saved_node-Valid : Valid three saved_node
unfolding persist save_raft_state
saved_node-Valid = record {
  contiguous = node-Valid.contiguous;
  applied = node-Valid.applied;
  committed = node-Valid.committed;
  logged = node-Valid.logged;
  snapped = node-Valid.snapped;
  tracked = node-Valid.tracked;
}

construct-Recovers_example :
    Recovers three saved_node (construct three (at_time 5) saved_node.persister)
construct-Recovers_example =
    construct-Recovers three (at_time 5) saved_node saved_node-Valid (persist-IsSaved node)

-- A batch with a request of a candidate among the control events, and a client's command.
abbrev batch : Node
batch = record {
  raft = node;
  control_queue = (at_time 60, request_vote candidate_2) ∷ [];
  command_queue = (at_time 61, client_start (some "x")) ∷ [];
}

abbrev after_batch : Node
after_batch = record {
  raft = emit (start_answer none) answered;
  control_queue = [];
  command_queue = [];
}

-- Nothing is posted while the batch runs.
abbrev no_posts : ℕ → List (Env × Event)
no_posts i = []

-- A control event that is posted before the command holds it back.
abbrev a_post : ℕ → List (Env × Event)
a_post i = (at_time 61, append_stream 2 true) ∷ []

held_back :
    process_event_batch three a_post batch
    ≡ some
        (record batch { raft = answered; control_queue = (at_time 61, append_stream 2 true) ∷ [] })
unfolding process_event_batch drain_control drain_command is_due step start handle_request_vote
    meet_term become_follower adopt_term persist reset_election_deadline fail_all_pending_read_index
    finish_read decide_vote whether_vote_for get_last_log_index get_last_log_term back cast_vote
    emit
held_back = refl

-- Three nodes that are asked by both candidates, the second one first.
abbrev asked : List (Env × Event)
asked = (at_time 60, request_vote candidate_2) ∷ (at_time 70, request_vote candidate_3) ∷ []

first-Voted : (x : ℕ) → Voted (λ i. three) (λ i. node) (λ i. asked) 3 2 x
unfolding run step handle_request_vote meet_term become_follower adopt_term persist
    reset_election_deadline fail_all_pending_read_index finish_read decide_vote whether_vote_for
    get_last_log_index get_last_log_term back cast_vote emit
first-Voted x = record { point = 1; state = answered; runs = refl; in_term = refl; vote = refl }

elected : IsElected (λ i. three) (λ i. node) (λ i. asked) (1 ∷ 2 ∷ 3 ∷ []) (quorum_size three) 3 2
unfolding quorum_size
elected = record {
  voters = 1 ∷ 3 ∷ [];
  distinct = (refl, (refl, tt));
  members = λ x m. ground arith;
  quorum = omega arith;
  voted = λ x m. first-Voted x;
}

elected_once_example : candidate_2.candidate_id ≡ candidate_2.candidate_id
elected_once_example =
    elected_once (λ i. three) (λ i. node) (λ i. asked) three (1 ∷ 2 ∷ 3 ∷ []) 3 2 2 (omega arith)
      elected elected
