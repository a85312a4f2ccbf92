-- ===== src/Raft/Valid/Snapshots.antt =====
-- Snapshots, made here or received, keep a node valid.
use raft_storage.Common.{
  ℕ, suc, ◌+◌, ◌-◌, ◌≤◌, ◌<◌, String, ◌≡◌, refl, sym, ◌∙◌, ◌⊎◌, inl, inr, true, false, ◌||◌, some,
  List, [], arith, ltb, leb, ◌==◌, ltb→lt, leb→le, le→leb, Bool-cases, length, drop, length-drop,
}
use raft_storage.Log.{Log, LogEntry, get_last_log_index, get_log_term_from_index}
use raft_storage.Log.Shape.{
  Consecutive, IsContiguous, get_last_log_index_lem, get_log_term_in, erase_through_in,
}
use raft_storage.Raft.State.{Raft, Config, Env, InstallSnapshotArgs}
use raft_storage.Raft.Frame.{if_both}
use raft_storage.Raft.Valid.{last_of, Ensures, Ensures-bind, Valid, Valid-last, if_either, All-imp}
use raft_storage.Raft.Valid.Electing.{meet_term-Valid}
use raft_storage.Raft.Snapshot.{
  remaining, keep_suffix, handle_install_snapshot, reply_snapshot, install, do_snapshot,
  persist_snapshot,
}
use raft_storage.Raft.Role.{emit, reset_election_deadline, reset_last_leader_contact}
use raft_storage.Raft.Append.{hear_leader}
use raft_storage.Persister.{save, clear_raft_state, clear_snap_shot}
use raft_storage.Raft.Election.{meet_term}
use raft_storage.Raft.Replication.{is_leader}
use raft_storage.Raft.Valid.Following.{hear_leader-Valid, same_log}
use raft_storage.Raft.Durable.Handlers.{meet_term-Evolves}

-- What the protocol promises of a snapshot: it covers what is committed here, or this log has its
-- last index with its term.
abbrev pub Covers : Log → ℕ → InstallSnapshotArgs → Type 0
Covers l commit r =
    (commit ≤ r.last_snapshot_include_index)
    ⊎ ((r.last_snapshot_include_index ≤ get_last_log_index l)
        × (get_log_term_from_index l r.last_snapshot_include_index
            ≡ some r.last_snapshot_include_term))

-- With another term at its index, the snapshot covers what is committed.
covered :
    (l : Log) (commit : ℕ) (r : InstallSnapshotArgs) (t : ℕ)
    → Covers l commit r
    → get_log_term_from_index l r.last_snapshot_include_index ≡ some t
    → (t == r.last_snapshot_include_term) ≡ false
    → commit ≤ r.last_snapshot_include_index
covered l commit r t (inl h) e d = h
covered l commit r t (inr (hi, q)) e d =
    let same : some t ≡ some (r.last_snapshot_include_term) = sym e ∙ q in absurd (ground arith)

-- The entries that a received snapshot leaves: consecutive from its index on, up to the old last
-- index if the log agrees with it.
remaining_in :
    (l : Log) (commit : ℕ) (r : InstallSnapshotArgs)
    → IsContiguous l
    → commit ≤ last_of l
    → l.last_include_index < r.last_snapshot_include_index
    → Covers l commit r
    → (xs : List LogEntry) × (remaining l r.last_snapshot_include_index r.last_snapshot_include_term
        ≡ some xs)
      × Consecutive (suc r.last_snapshot_include_index) xs
      × (commit ≤ r.last_snapshot_include_index + length xs)
unfolding remaining keep_suffix
remaining_in l commit r c h lo k =
    let i = r.last_snapshot_include_index in
    let last = get_last_log_index_lem l c in
    elim (Bool-cases (leb i (get_last_log_index l))) [
      | inr out ↦ ([], rw out refl, tt, ground (arith, last))
      | inl inside ↦
          let hi : i ≤ get_last_log_index l = leb→le _ _ inside in
          let (t, e) = get_log_term_in l i c (omega arith) hi in
          let (erased, shape) = erase_through_in l i c lo hi in
          let low : leb l.last_include_index i ≡ true = le→leb _ _ (omega arith) in
          elim (Bool-cases (t == r.last_snapshot_include_term)) [
            | inr other ↦ (
              [],
              rw (inside, low, e, other) refl,
              tt,
              omega (arith, covered l commit r t k e other),
            )
            | inl same ↦ elim (Bool-cases (ltb i (get_last_log_index l))) [
              | inl more ↦ (
                drop (i - l.last_include_index) l.logs,
                rw (inside, low, e, same, more) erased,
                shape,
                omega (arith, last, length-drop (i - l.last_include_index) l.logs),
              )
              | inr end ↦ ([], rw (inside, low, e, same, end) refl, tt, ground (arith, last))
            ]
          ]
    ]

module _ (c : Config) (e : Env) where
  install-Valid :
      (r : InstallSnapshotArgs) (s : Raft)
      → Valid c s
      → is_leader s.status ≡ false
      → s.log.last_include_index < r.last_snapshot_include_index
      → Covers s.log s.commit_index r
      → e.parses r.snapshot ≡ true
      → Ensures (Valid c) (install e r s)
  unfolding install persist_snapshot save clear_raft_state clear_snap_shot
  install-Valid r s v f lo k p =
      let (xs, kept, shape, holds) =
        remaining_in s.log s.commit_index r v.contiguous v.logged lo k in
      rw (kept, p)
        (record {
          contiguous = shape;
          applied = omega arith;
          committed = omega (arith, v.committed);
          logged = omega (arith, holds);
          snapped = λ h. refl;
          tracked = λ q. cc;
        })

  reply-Valid : (server : ℕ) (s : Raft) → Valid c s → Valid c (reply_snapshot server s)
  unfolding reply_snapshot emit
  reply-Valid server s v = if_both (Valid c) (s.is_responder server) _ _ v v

  pub handle_install_snapshot-Valid :
      (r : InstallSnapshotArgs) (server : ℕ) (s : Raft)
      → Valid c s
      → (s.current_term ≤ r.term → Covers s.log s.commit_index r × (e.parses r.snapshot ≡ true))
      → Ensures (Valid c) (handle_install_snapshot e r server s)
  unfolding handle_install_snapshot hear_leader reset_election_deadline reset_last_leader_contact
  handle_install_snapshot-Valid r server s v k =
      let s' = meet_term e r.term s in
      let met = meet_term-Valid c e r.term s v in
      let w = hear_leader-Valid c e s' met in
      let (l, m) = same_log c e r.term s in
      let rising = meet_term-Evolves e r.term s in
      if_either (Ensures (Valid c)) (ltb r.term s'.current_term) _ _
        (λ stale. reply-Valid server s' met)
        (λ current.
          let not_stale : s.current_term ≤ r.term = ground (arith, rising.term) in
          let (covers, parses) = k not_stale in
          if_either (Ensures (Valid c))
            (ltb (hear_leader e s').log.last_include_index r.last_snapshot_include_index) _ _
            (λ newer.
              Ensures-bind (Valid c) (Valid c) (install e r (hear_leader e s')) _
                (install-Valid r (hear_leader e s') w refl (ltb→lt _ _ newer) (rw (l, m) covers)
                  parses)
                λ t h. reply-Valid server t h)
            (λ older. reply-Valid server _ w))

  -- A snapshot that the state machine makes of what it has applied.
  pub do_snapshot-Valid :
      (i : ℕ) (snap : String) (s : Raft)
      → Valid c s
      → e.parses snap ≡ true
      → Ensures (Valid c) (do_snapshot e i snap s)
  unfolding do_snapshot persist_snapshot save clear_raft_state clear_snap_shot
  do_snapshot-Valid i snap s v p =
      if_either (Ensures (Valid c)) (leb i s.log.last_include_index || ltb s.commit_index i) _ _
        (λ skip. v)
        (λ go.
          let lo : s.log.last_include_index < i = ground arith in
          let hi : i ≤ s.commit_index = ground arith in
          let below = v.logged in
          let last = Valid-last c s v in
          let (t, at) = get_log_term_in s.log i v.contiguous (omega arith) (omega arith) in
          let (erased, shape) = erase_through_in s.log i v.contiguous lo (omega arith) in
          let n = length-drop (i - s.log.last_include_index) s.log.logs in
          rw (at, erased, p)
            (record {
              contiguous = shape;
              applied = omega arith;
              committed = omega (arith, v.committed);
              logged = omega (arith, n);
              snapped = λ h. refl;
              tracked = λ q.
                  All-imp _ _ c.peers (λ a x. (x.0, omega (arith, x.1, n), omega (arith, x.2, n)))
                    (v.tracked q);
            }))
