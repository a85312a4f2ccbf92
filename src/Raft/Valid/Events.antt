-- ===== src/Raft/Valid/Events.antt =====
-- No event that the protocol allows makes an assertion of Raft/Raft.cc fail.
use raft_storage.Common.{
  ◌+◌, ◌≤◌, ◌≡◌, refl, sym, subst, inl, inr, true, ◌&&◌, none, some, arith, ltb, ◌==◌, Bool-cases,
  is_some, length, All, contains,
}
use raft_storage.Raft.Start.{construct, read_persist, blank}
use raft_storage.Persister.{Persister, read_raft_state}
use raft_storage.Raft.State.{Raft, Config, Env, failed}
use raft_storage.Raft.Loop.{
  Event, client_start, client_read, request_vote, pre_vote, vote_reply, pre_vote_reply,
  append_stream, append_request, append_answer, snapshot_stream, snapshot_request, snapshot_answer,
  own_snapshot, deadlines, halt, step,
}
use raft_storage.Raft.Durable.{IsSaved}
use raft_storage.Raft.Frame.{core, if_both, finish_read-core}
use raft_storage.Raft.Valid.{last_of, IsValid, Ensures, Ensures-out, Valid}
use raft_storage.Raft.Valid.Sending.{Ahead}
use raft_storage.Raft.Valid.Following.{
  Honest, handle_read_heart_beat-Valid, handle_append_entries-Valid,
}
use raft_storage.Raft.Valid.Snapshots.{Covers, handle_install_snapshot-Valid, do_snapshot-Valid}
use raft_storage.Raft.Replication.{is_leader}
use raft_storage.Raft.Role.{
  emit, fail_all_pending_read_index, persist_data, reset_quorum_deadline, reset_heartbeat_deadline,
  reset_election_deadline,
}
use raft_storage.Raft.Valid.Replying.{
  start-Valid, read_index-Valid, handle_append_reply-Valid, handle_snapshot_reply-Valid,
  handle_deadlines-Valid,
}
use raft_storage.Raft.Valid.Electing.{
  handle_request_vote-Valid, handle_vote_reply-Valid, handle_pre_vote_reply-Valid,
}

-- What the protocol promises of an event at a node: requests that are not of an earlier term agree
-- with what is committed here, replies come from peers and belong to requests that this leader's
-- log could make, a client's command can be printed, snapshots are JSON texts and cover what is committed, and a read finds every
-- peer's next entry in the log.
abbrev pub Allowed : Config → Env → Event → Raft → Type 0
Allowed c e (client_start command) s = is_some command ≡ true
Allowed c e (vote_reply p term ok r) s = contains c.peers p ≡ true
Allowed c e (pre_vote_reply p term round ok r) s = contains c.peers p ≡ true
Allowed c e (client_read cb) s = All (Ahead (core s)) c.peers
Allowed c e (append_request r server) s = s.current_term ≤ r.term → Honest s.log s.commit_index r
Allowed c e (append_answer p term r ok reply) s =
    (contains c.peers p ≡ true)
    × (is_leader s.status ≡ true
        → term ≡ s.current_term
        → r.prev_log_index + length r.entries ≤ last_of s.log)
Allowed c e (snapshot_request r server) s =
    s.current_term ≤ r.term → Covers s.log s.commit_index r × (e.parses r.snapshot ≡ true)
Allowed c e (snapshot_answer p term ok reply_term) s = contains c.peers p ≡ true
Allowed c e (own_snapshot i snap) s = e.parses snap ≡ true
Allowed c e _ s = Unit {0}

module _ (c : Config) (e : Env) where
  step-Ensures :
      (ev : Event) (s : Raft) → Valid c s → Allowed c e ev s → Ensures (Valid c) (step c e ev s)
  unfolding step emit fail_all_pending_read_index
  step-Ensures (client_start none) s v a = cc a
  step-Ensures (client_start (some command)) s v a = start-Valid c e command s v
  step-Ensures (client_read cb) s v a = read_index-Valid c e cb s v a
  step-Ensures (request_vote r) s v a = handle_request_vote-Valid c e r s v
  step-Ensures (pre_vote r) s v a = v
  step-Ensures (vote_reply server term ok r) s v a =
      handle_vote_reply-Valid c e server term ok r s v a
  step-Ensures (pre_vote_reply server term round ok r) s v a =
      handle_pre_vote_reply-Valid c e server term round ok r s v a
  step-Ensures (append_stream server up) s v a = v
  step-Ensures (append_request r server) s v a =
      if_both (Ensures (Valid c)) (is_some r.read_round && (length r.entries == 0)) _ _
        (handle_read_heart_beat-Valid c e r server s v)
        (handle_append_entries-Valid c e r server s v a)
  step-Ensures (append_answer p term r ok reply) s v a =
      handle_append_reply-Valid c e p term r ok reply s v a.0 a.1
  step-Ensures (snapshot_stream server up) s v a = v
  step-Ensures (snapshot_request r server) s v a = handle_install_snapshot-Valid c e r server s v a
  step-Ensures (snapshot_answer p term ok reply_term) s v a =
      handle_snapshot_reply-Valid c e p term ok reply_term s v a
  step-Ensures (own_snapshot i snap) s v a = do_snapshot-Valid c e i snap s v a
  step-Ensures deadlines s v a = handle_deadlines-Valid c e s v
  step-Ensures halt s v a =
      subst (IsValid c) (sym (finish_read-core failed (record s { stop = true }))) v

  -- From a valid node every allowed event goes through: no assertion fails, no vector is read out
  -- of range, no exception escapes. The node is valid again.
  pub step-Valid :
      (ev : Event) (s : Raft)
      → Valid c s
      → Allowed c e ev s
      → (s' : Raft) × (step c e ev s ≡ some s') × Valid c s'
  step-Valid ev s v a = Ensures-out (Valid c) (step c e ev s) (step-Ensures ev s v a)

-- A node's history: allowed events, one after the other.
pub data Reaches (c : Config) (s : Raft) : Raft → Type 0 where
  here : Reaches c s s
  next :
      {t u : Raft} (e : Env) (ev : Event)
      → Reaches c s t
      → Allowed c e ev t
      → step c e ev t ≡ some u
      → Reaches c s u

-- Whatever allowed history a valid node has, it is valid at its end.
pub Reaches-Valid : (c : Config) {s t : Raft} → Valid c s → Reaches c s t → Valid c t
Reaches-Valid c v here = v
Reaches-Valid c v (next {t} {u} e ev r a h) =
    rw h at (step-Ensures c e ev t (Reaches-Valid c v r) a)

-- What a restart shares with the node that wrote the files.
abbrev pub Recovers : Config → Raft → Raft → Type 0
Recovers c s t =
    Valid c t × (t.current_term ≡ s.current_term) × (t.voted_for ≡ s.voted_for) × (t.log ≡ s.log)

-- The files with the present state in the state file.
abbrev saved_files : Raft → Persister
saved_files s = record (s.persister) { raft_state_file = some (persist_data s) }

Recovers-from_saved :
    (c : Config) (e : Env) (s : Raft) → Valid c s → Recovers c s (construct c e (saved_files s))
unfolding construct read_persist blank read_raft_state persist_data reset_quorum_deadline
    reset_heartbeat_deadline reset_election_deadline
Recovers-from_saved c e s v = elim (Bool-cases (ltb 0 s.log.last_include_index)) [
  | inl some_snapshot ↦ rw some_snapshot (
    record {
      contiguous = v.contiguous;
      applied = omega arith;
      committed = omega arith;
      logged = omega arith;
      snapped = v.snapped;
      tracked = λ q. cc;
    },
    refl,
    refl,
    refl,
  )
  | inr no_snapshot ↦
      let z : s.log.last_include_index ≡ 0 = ground arith in
      rw no_snapshot (
        record {
          contiguous = v.contiguous;
          applied = omega arith;
          committed = omega arith;
          logged = omega arith;
          snapped = v.snapped;
          tracked = λ q. cc;
        },
        refl,
        refl,
        refl,
      )
]

-- A node that is started again on the files of a valid node, whose state file was up to date, is
-- valid, and has the term, the vote and the log of that node.
pub construct-Recovers :
    (c : Config) (e : Env) (s : Raft)
    → Valid c s
    → IsSaved s
    → Recovers c s (construct c e s.persister)
construct-Recovers c e s v h =
    let same : saved_files s ≡ s.persister =
      λ i. record (s.persister) { raft_state_file = sym h i } in
    subst (λ p. Recovers c s (construct c e p)) same (Recovers-from_saved c e s v)
