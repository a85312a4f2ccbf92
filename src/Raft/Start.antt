-- ===== src/Raft/Start.antt =====
-- Raft/Raft.cc: construction from the persisted state, the end of a node, and its event queues.
use raft_storage.Common.{
  ℕ, zero, suc, Bool, false, Option, none, some, List, [], ◌∷◌, ◌++◌, ltb, leb, if◌then◌else◌,
  ◌>>=◌, true, not, ◌||◌,
}
use raft_storage.Persister.{RaftState, Persister, read_raft_state}
use raft_storage.Raft.State.{Raft, Config, Env, follower}
use raft_storage.Raft.Role.{
  persist, reset_election_deadline, reset_heartbeat_deadline, reset_quorum_deadline,
}
use raft_storage.Raft.Replication.{is_leader}
use raft_storage.Raft.Election.{set_all}
use raft_storage.Raft.Loop.{Event, step}

-- The members before the body of the constructor, with the peers' entries set.
unfoldable pub blank : Config → Persister → Raft
blank c p = record {
  current_term = 0;
  voted_for = none;
  log = record { logs = []; last_include_index = 0; last_include_term = 0 };
  commit_index = 0;
  last_applied = 0;
  status = follower;
  next_index = set_all c.peers 1 (λ q. 0);
  match_index = set_all c.peers 0 (λ q. 0);
  current_term_committed = false;
  active_read = none;
  read_index_pending = λ q. 0;
  read_index_round = 0;
  replication_in_flight = set_all c.peers false (λ q. false);
  replication_pending = set_all c.peers false (λ q. false);
  votes_granted = 0;
  election_term = 0;
  pre_votes_granted = 0;
  pre_vote_term = 0;
  pre_vote_round = 0;
  timers = record {
    last_reset_election_time = 0;
    last_reset_heart_beat_time = 0;
    election_deadline = 0;
    heartbeat_deadline = 0;
    quorum_deadline = 0;
    last_leader_contact = none;
    last_peer_contact = λ q. none;
  };
  stop = false;
  persister = p;
  apply_queue = [];
  ae_responder = λ q. false;
  is_responder = λ q. false;
  effects = [];
}

unfoldable pub read_persist : Option RaftState → Raft → Raft
read_persist none s = s
read_persist (some v) s = record s {
  current_term = v.current_term;
  voted_for = v.voted_for;
  log = record {
    logs = s.log.logs ++ v.logs;
    last_include_index = v.last_include_snapshot_index;
    last_include_term = v.last_include_snapshot_term;
  };
}

-- `Raft::Raft`; the local address is one of the configuration's.
unfoldable pub construct : Config → Env → Persister → Raft
construct c e p =
    let s = read_persist (read_raft_state p) (blank c p) in
    let base = s.log.last_include_index in
    let s' = if ltb 0 base then record s { commit_index = base; last_applied = base } else s in
    reset_quorum_deadline e (reset_heartbeat_deadline e (reset_election_deadline e s'))

-- The end of `Raft::~Raft`, when the loop has run its last event.
unfoldable pub quit : Raft → Raft
quit s = persist s

abbrev pub control_batch_size : ℕ
control_batch_size = 128

abbrev pub command_batch_size : ℕ
command_batch_size = 32

-- The node with its two queues; each event stands with the reading of the clock at which it runs.
pub record Node : Type 0 where
  pub raft : Raft
  pub control_queue : List (Env × Event)
  pub command_queue : List (Env × Event)

-- `Clock::now()` has reached the deadline that outranks commands.
unfoldable pub is_due : Env → Raft → Bool
is_due e s =
    leb (if is_leader s.status then s.timers.heartbeat_deadline else s.timers.election_deadline)
      e.now

abbrev pub none_left {ℓ} : {A : Type ℓ} → List A → Bool
none_left [] = true
none_left (x ∷ xs) = false

module _ (c : Config) where
  unfoldable pub drain_control : ℕ → Raft → List (Env × Event) → Option (Raft × List (Env × Event))
  drain_control zero s q = some (s, q)
  drain_control (suc n) s [] = some (s, [])
  drain_control (suc n) s ((e, ev) ∷ q) = do s' ← step c e ev s; drain_control n s' q

  -- `posts n` are the control events that other threads post between the test before and the test
  -- in the round with `n` rounds after it.
  unfoldable pub drain_command :
      ℕ
      → (ℕ → List (Env × Event))
      → Raft
      → List (Env × Event)
      → List (Env × Event)
      → Option (Raft × List (Env × Event) × List (Env × Event))
  drain_command zero posts s control q = some (s, control, q)
  drain_command (suc n) posts s control [] = some (s, control ++ posts n, [])
  drain_command (suc n) posts s control ((e, ev) ∷ q) =
      let waiting = control ++ posts n in
      let rest = step c e ev s >>= λ s'. drain_command n posts s' waiting q in
      if not (none_left waiting) || is_due e s then some (s, waiting, (e, ev) ∷ q) else rest

  -- Both queues are taken from at the front and posted to at the back, so an event that is posted
  -- while it can still run in the batch is as one that was there before; only when a control event
  -- arrives between the commands matters, and that is given by `posts`.
  unfoldable pub process_event_batch : (ℕ → List (Env × Event)) → Node → Option Node
  process_event_batch posts n = do
    r ← drain_control control_batch_size n.raft n.control_queue
    r' ← drain_command command_batch_size posts r.0 r.1 n.command_queue
    some (record { raft = r'.0; control_queue = r'.1; command_queue = r'.2 })
