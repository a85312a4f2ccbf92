-- ===== src/Raft/Tests/Nodes.antt =====
-- A cluster of three nodes, one of them, and requests to it.
use raft_storage.Common.{ℕ, refl, true, false, none, some, [], ◌∷◌, arith}
use raft_storage.Raft.State.{
  Config, Env, Raft, AppendEntriesArgs, leader, RequestVoteArgs, RequestVoteReply, vote_answer,
}
use raft_storage.Log.{LogEntry}
use raft_storage.Persister.{Persister}
use raft_storage.Raft.Valid.Following.{Honest}
use raft_storage.Raft.Valid.{Valid}
use raft_storage.Raft.Election.{handle_request_vote}
use raft_storage.Raft.Role.{emit}

abbrev pub three : Config
three = record { id = 1; peers = 2 ∷ 3 ∷ []; cluster_size = 3 }

abbrev pub at_time : ℕ → Env
at_time t = record {
  now = t;
  randomized_election_time_out = 700;
  noop_command = "{}";
  parses = λ text. true;
  json_size = λ text. 2;
}

abbrev pub entry : ℕ → ℕ → LogEntry
entry index term = record { log_index = index; log_term = term; command = "x" }

abbrev pub disk : Persister
disk = record {
  raft_state_file = none;
  snap_shot_file = none;
  raft_state_size = 0;
  snapshot_size = 0;
}

-- A leader of term 2 with three entries, two of which it has applied.
abbrev pub node : Raft
node = record {
  current_term = 2;
  voted_for = some 1;
  log = record {
    logs = entry 1 1 ∷ entry 2 2 ∷ entry 3 2 ∷ [];
    last_include_index = 0;
    last_include_term = 0;
  };
  commit_index = 2;
  last_applied = 1;
  status = leader;
  next_index = λ p. 4;
  match_index = λ p. 3;
  current_term_committed = true;
  active_read = none;
  read_index_pending = λ p. 0;
  read_index_round = 0;
  replication_in_flight = λ p. false;
  replication_pending = λ p. false;
  votes_granted = 2;
  election_term = 2;
  pre_votes_granted = 2;
  pre_vote_term = 2;
  pre_vote_round = 1;
  timers = record {
    last_reset_election_time = 0;
    last_reset_heart_beat_time = 0;
    election_deadline = 700;
    heartbeat_deadline = 50;
    quorum_deadline = 1000;
    last_leader_contact = none;
    last_peer_contact = λ p. none;
  };
  stop = false;
  persister = disk;
  apply_queue = [];
  ae_responder = λ p. true;
  is_responder = λ p. true;
  effects = [];
}

pub node-Valid : Valid three node
node-Valid = record {
  contiguous = (refl, (refl, (refl, tt)));
  applied = omega arith;
  committed = omega arith;
  logged = omega arith;
  snapped = λ h. absurd (omega arith);
  tracked =
      λ h. ((omega arith, omega arith, omega arith), ((omega arith, omega arith, omega arith), tt));
}

-- A request of the leader of term 3, after the first two entries.
abbrev pub request : AppendEntriesArgs
request = record {
  term = 3;
  leader_id = 2;
  prev_log_index = 2;
  prev_log_term = 2;
  entries = entry 3 3 ∷ [];
  leader_commit = 3;
  read_round = none;
}

pub request-Honest : Honest node.log node.commit_index request
request-Honest = record { consecutive = (refl, tt); agrees = λ h. tt }

-- Two candidates of term 3, both with the log of the node.
abbrev pub candidate_2 : RequestVoteArgs
candidate_2 = record { term = 3; candidate_id = 2; last_log_index = 3; last_log_term = 2 }

abbrev pub candidate_3 : RequestVoteArgs
candidate_3 = record { term = 3; candidate_id = 3; last_log_index = 3; last_log_term = 2 }

abbrev pub first : Raft × RequestVoteReply
first = handle_request_vote (at_time 60) candidate_2 node

abbrev pub answered : Raft
answered = emit (vote_answer 2 first.1) first.0
