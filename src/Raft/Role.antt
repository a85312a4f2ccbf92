-- ===== src/Raft/Role.antt =====
-- Raft/Raft.cc: deadlines, persistence, pending reads, and the way back to follower.
use raft_storage.Common.{
  ℕ, suc, ◌+◌, ◌-◌, ◌/◌, Bool, false, Option, none, some, List, [], ◌∷◌, ltb, leb, ◌==◌,
  if◌then◌else◌, update, contains,
}
use raft_storage.Persister.{RaftState, save_raft_state}
use raft_storage.Raft.State.{
  Raft, Config, Env, Effect, callback, ReadResult, failed, completed, follower, reset_backoff,
}

-- include/Config.h, in milliseconds.
abbrev pub heart_beat_time_out : ℕ
heart_beat_time_out = 50

abbrev pub election_time_out : ℕ
election_time_out = 1000

unfoldable pub emit : Effect → Raft → Raft
emit x s = record s { effects = x ∷ s.effects }

-- `ChannelResetConnectionBackoff(peers_.at(server).get())`; `at` throws for a server that is no peer.
unfoldable pub reset_channel : Config → ℕ → Raft → Option Raft
reset_channel c server s =
    if contains c.peers server then some (emit (reset_backoff server) s) else none

unfoldable pub reset_election_deadline : Env → Raft → Raft
reset_election_deadline e s = record s {
  timers = record (s.timers) {
    last_reset_election_time = e.now;
    election_deadline = e.now + e.randomized_election_time_out;
  };
}

unfoldable pub reset_heartbeat_deadline : Env → Raft → Raft
reset_heartbeat_deadline e s = record s {
  timers = record (s.timers) {
    last_reset_heart_beat_time = e.now;
    heartbeat_deadline = e.now + heart_beat_time_out;
  };
}

unfoldable pub reset_quorum_deadline : Env → Raft → Raft
reset_quorum_deadline e s = record s {
  timers = record (s.timers) { quorum_deadline = e.now + election_time_out };
}

unfoldable pub reset_last_leader_contact : Env → Raft → Raft
reset_last_leader_contact e s = record s {
  timers = record (s.timers) { last_leader_contact = some (e.now) };
}

unfoldable pub mark_peer_active : ℕ → Env → Raft → Raft
mark_peer_active server e s = record s {
  timers = record (s.timers) {
    last_peer_contact = update s.timers.last_peer_contact server (some (e.now));
  };
}

pub contact_all : List ℕ → ℕ → (ℕ → Option ℕ) → ℕ → Option ℕ
contact_all [] now f = f
contact_all (p ∷ ps) now f = contact_all ps now (update f p (some now))

unfoldable pub reset_leader_contact_times : Config → Env → Raft → Raft
reset_leader_contact_times c e s = reset_quorum_deadline e (record s {
  timers = record (s.timers) {
    last_peer_contact = contact_all c.peers e.now s.timers.last_peer_contact;
  };
})

unfoldable pub quorum_size : Config → ℕ
quorum_size c = c.cluster_size / 2 + 1

-- `now - contact <= lease`, which a contact at `time_point::min()` never meets.
unfoldable pub is_recent : ℕ → Option ℕ → Bool
is_recent now none = false
is_recent now (some t) = leb (now - t) election_time_out

unfoldable pub count_recent : ℕ → (ℕ → Option ℕ) → List ℕ → ℕ
count_recent now contact [] = 1
count_recent now contact (p ∷ ps) =
    let others = count_recent now contact ps in
    if is_recent now (contact p) then suc others else others

unfoldable pub has_recent_quorum : Config → ℕ → Raft → Bool
has_recent_quorum c now s =
    leb (quorum_size c) (count_recent now s.timers.last_peer_contact c.peers)

-- The commands are texts, so the dump of the JSON value does not throw.
unfoldable pub persist_data : Raft → RaftState
persist_data s = record {
  current_term = s.current_term;
  voted_for = s.voted_for;
  last_include_snapshot_index = s.log.last_include_index;
  last_include_snapshot_term = s.log.last_include_term;
  logs = s.log.logs;
}

unfoldable pub persist : Raft → Raft
persist s = record s { persister = save_raft_state (persist_data s) s.persister }

-- The callbacks run in order, so the last one is the newest effect.
unfoldable pub answer_all : List ℕ → ReadResult → List Effect → List Effect
answer_all [] r done = done
answer_all (k ∷ ks) r done = answer_all ks r (callback k r ∷ done)

-- Every pending retry of the round is cleared.
unfoldable pub forget_round : ℕ → (ℕ → ℕ) → ℕ → ℕ
forget_round round f p = if f p == round then 0 else f p

unfoldable pub finish_read : (ℕ → ℕ → ReadResult) → Raft → Raft
finish_read result s = elim s.active_read [
  | none ↦ s
  | some p ↦ record s {
    active_read = none;
    effects = answer_all p.callbacks (result p.round p.read_index) s.effects;
    read_index_pending = forget_round p.round s.read_index_pending;
  }
]

unfoldable pub fail_all_pending_read_index : Raft → Raft
fail_all_pending_read_index s = finish_read failed s

unfoldable pub complete_active_read : Raft → Raft
complete_active_read s = finish_read completed s

-- `if (term > currentTerm_) { … persist(); }`
unfoldable pub adopt_term : ℕ → Raft → Raft
adopt_term term s =
    if ltb s.current_term term
    then persist (record s { current_term = term; voted_for = none })
    else s

unfoldable pub become_follower : Env → ℕ → Raft → Raft
become_follower e term s =
    let s' = adopt_term term s in
    let s'' =
      reset_election_deadline e
        (record s' { status = follower; votes_granted = 0; pre_votes_granted = 0 }) in
    fail_all_pending_read_index (record s'' { current_term_committed = false })

unfoldable pub step_down : Env → Raft → Raft
step_down e s =
    let s' = record s {
      status = follower;
      votes_granted = 0;
      pre_votes_granted = 0;
      replication_pending = λ p. false;
      replication_in_flight = λ p. false;
    } in
    fail_all_pending_read_index
      (record (reset_election_deadline e s') { current_term_committed = false })
