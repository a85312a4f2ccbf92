-- ===== src/Raft/Durable/Followers.antt =====
-- The follower's handlers of Raft/Raft.cc let the node evolve: entries and snapshots are on disk
-- before the reply.
use raft_storage.Common.{
  ℕ, String, ◌≡◌, refl, ◌∙◌, inl, inr, Bool, false, ◌||◌, some, List, [], ◌∷◌, arith, ltb, leb,
  Bool-cases, Option-cases, >>=-eq-some, get_elem?,
}
use raft_storage.Log.{
  Log, LogEntry, append_one, append_entries, get_slices_index, get_last_log_index, conflict_index,
  get_log_term_from_index, erase_through,
}
use raft_storage.Persister.{save}
use raft_storage.Raft.State.{AppendEntriesReply, Raft, Env, AppendEntriesArgs, InstallSnapshotArgs}
use raft_storage.Raft.Role.{emit, persist_data, reset_election_deadline, reset_last_leader_contact}
use raft_storage.Raft.Election.{meet_term}
use raft_storage.Raft.Append.{
  matches, take_entries, follow_commit, hear_leader, append_or_refuse, reply_append,
  handle_append_entries, handle_read_heart_beat,
}
use raft_storage.Raft.Snapshot.{
  remaining, persist_snapshot, install, reply_snapshot, handle_install_snapshot, do_snapshot,
}
use raft_storage.Raft.Frame.{OnSome, OnSome-any, OnSome-bind, OnSome-map, if_both}
use raft_storage.Raft.Durable.{
  Evolves, Evolves-of_ballot, Evolves-refl, Evolves-trans, Goes, Goes-from, Evolves-persist,
}
use raft_storage.Raft.Durable.Handlers.{apply_committed-Goes, meet_term-Evolves}

append_one_unchanged :
    (l : Log) (x : LogEntry) (r : Log × Bool) → append_one l x ≡ some r → r.1 ≡ false → r.0 ≡ l
unfolding append_one
append_one_unchanged l x r h k = elim (Bool-cases (leb x.log_index (get_last_log_index l))) [
  | inl inside ↦
      let (pos, at, h') = >>=-eq-some (get_slices_index l x.log_index) _ (rw inside at h) in
      let (y, found, h'') = >>=-eq-some (get_elem? l.logs pos) _ h' in ground arith
  | inr past ↦ let g = rw past at h in ground arith
]

append_entries_unchanged :
    (es : List LogEntry) (l : Log) (changed : Bool) (r : Log × Bool)
    → append_entries l es changed ≡ some r
    → r.1 ≡ false
    → (r.0 ≡ l) × (changed ≡ false)
unfolding append_entries
append_entries_unchanged [] l changed r h k = (ground arith, ground arith)
append_entries_unchanged (x ∷ es) l changed r h k =
    let (p, one, rest) = >>=-eq-some (append_one l x) _ h in
    let (same, off) = append_entries_unchanged es p.0 (changed || p.1) r rest k in
    let quiet : p.1 ≡ false = ground arith in
    (same ∙ append_one_unchanged l x p one quiet, ground arith)

take_entries-Goes : (es : List LogEntry) (s : Raft) → Goes s (take_entries es s)
unfolding take_entries
take_entries-Goes es s = elim (Option-cases (append_entries s.log es false)) [
  | inl failed ↦ rw failed tt
  | inr (r, done) ↦ rw done (elim (Bool-cases r.1) [
    | inl changed ↦ rw changed (Evolves-persist s _ (omega arith) (λ a p q. q))
    | inr unchanged ↦
        let same = (append_entries_unchanged es s.log false r done unchanged).0 in
        rw (unchanged, same) (Evolves-of_ballot s _ refl)
  ])
]

follow_commit-Goes : (i : ℕ) (s : Raft) → Goes s (follow_commit i s)
unfolding follow_commit
follow_commit-Goes i s =
    if_both (Goes s) (ltb s.commit_index i) _ _
      (Goes-from _ (Evolves-of_ballot s _ refl) (apply_committed-Goes _)) (Evolves-refl s)

pub reply_append-Evolves :
    (server : ℕ) (reply : AppendEntriesReply) (s : Raft) → Evolves s (reply_append server reply s)
unfolding reply_append emit
reply_append-Evolves server reply s =
    if_both (Evolves s) (s.ae_responder server) _ _ (Evolves-of_ballot s _ refl) (Evolves-refl s)

pub reply_snapshot-Evolves : (server : ℕ) (s : Raft) → Evolves s (reply_snapshot server s)
unfolding reply_snapshot emit
reply_snapshot-Evolves server s =
    if_both (Evolves s) (s.is_responder server) _ _ (Evolves-of_ballot s _ refl) (Evolves-refl s)

module _ (e : Env) where
  persist_snapshot-Evolves :
      (snap : String) (s t : Raft)
      → t.current_term ≡ s.current_term
      → t.voted_for ≡ s.voted_for
      → Evolves s (persist_snapshot e snap t)
  unfolding persist_snapshot save persist_data
  persist_snapshot-Evolves snap s t h k = record {
    term = omega arith;
    vote = λ a p q. k ∙ q;
    saved = λ x. refl;
  }

  append_or_refuse-Goes :
      (r : AppendEntriesArgs) (s : Raft)
      → OnSome (λ (p : Raft × AppendEntriesReply). Evolves s p.0) (append_or_refuse e r s)
  unfolding append_or_refuse
  append_or_refuse-Goes r s = OnSome-any _ (matches s.log r.prev_log_index r.prev_log_term) _ λ ok.
      if_both (OnSome (λ (p : Raft × AppendEntriesReply). Evolves s p.0)) ok _ _
        (OnSome-bind (Evolves s) _ (take_entries r.entries s) _ (take_entries-Goes r.entries s)
          λ s' h.
            OnSome-bind (Evolves s') _ (follow_commit r.leader_commit s') _
              (follow_commit-Goes r.leader_commit s') λ s'' k. Evolves-trans h k)
        (OnSome-any _ (conflict_index s.log r.prev_log_index) _ λ next. Evolves-refl s)

  pub hear_leader-Evolves : (s : Raft) → Evolves s (hear_leader e s)
  unfolding hear_leader reset_election_deadline reset_last_leader_contact
  hear_leader-Evolves s = Evolves-of_ballot s _ refl

  pub handle_append_entries-Goes :
      (r : AppendEntriesArgs) (server : ℕ) (s : Raft) → Goes s (handle_append_entries e r server s)
  unfolding handle_append_entries
  handle_append_entries-Goes r server s =
      let s' = meet_term e r.term s in
      let met = meet_term-Evolves e r.term s in
      if_both (Goes s) (ltb r.term s'.current_term) _ _
        (Evolves-trans met (reply_append-Evolves server _ s'))
        (OnSome-bind (λ (p : Raft × AppendEntriesReply). Evolves s p.0) (Evolves s)
          (append_or_refuse e r (hear_leader e s')) _
          (OnSome-map _ _ (append_or_refuse e r (hear_leader e s')) (append_or_refuse-Goes r _)
            (λ p h. Evolves-trans (Evolves-trans met (hear_leader-Evolves s')) h))
          (λ p h. Evolves-trans h (reply_append-Evolves server p.1 p.0)))

  pub handle_read_heart_beat-Evolves :
      (r : AppendEntriesArgs) (server : ℕ) (s : Raft)
      → Evolves s (handle_read_heart_beat e r server s)
  unfolding handle_read_heart_beat
  handle_read_heart_beat-Evolves r server s =
      let s' = meet_term e r.term s in
      let met = meet_term-Evolves e r.term s in
      if_both (Evolves s) (ltb r.term s'.current_term) _ _
        (Evolves-trans met (reply_append-Evolves server _ s'))
        (Evolves-trans met
          (Evolves-trans (hear_leader-Evolves s') (reply_append-Evolves server _ _)))

  install-Goes : (r : InstallSnapshotArgs) (s : Raft) → Goes s (install e r s)
  unfolding install
  install-Goes r s =
      OnSome-any _ (remaining s.log r.last_snapshot_include_index r.last_snapshot_include_term) _
        λ logs.
          if_both (Goes s) (e.parses r.snapshot) _ _
            (Evolves-trans (persist_snapshot-Evolves r.snapshot s _ refl refl)
              (Evolves-of_ballot _ _ refl))
            tt

  pub handle_install_snapshot-Goes :
      (r : InstallSnapshotArgs) (server : ℕ) (s : Raft)
      → Goes s (handle_install_snapshot e r server s)
  unfolding handle_install_snapshot
  handle_install_snapshot-Goes r server s =
      let s' = meet_term e r.term s in
      let met = meet_term-Evolves e r.term s in
      let s'' = hear_leader e s' in
      let heard = Evolves-trans met (hear_leader-Evolves s') in
      if_both (Goes s) (ltb r.term s'.current_term) _ _
        (Evolves-trans met (reply_snapshot-Evolves server s'))
        (if_both (Goes s) (ltb s''.log.last_include_index r.last_snapshot_include_index) _ _
          (OnSome-bind (Evolves s'') (Evolves s) (install e r s'') _ (install-Goes r s'')
            λ t h. Evolves-trans heard (Evolves-trans h (reply_snapshot-Evolves server t)))
          (Evolves-trans heard (reply_snapshot-Evolves server s'')))

  pub do_snapshot-Goes : (i : ℕ) (snap : String) (s : Raft) → Goes s (do_snapshot e i snap s)
  unfolding do_snapshot
  do_snapshot-Goes i snap s =
      if_both (Goes s) (leb i s.log.last_include_index || ltb s.commit_index i) _ _ (Evolves-refl s)
        (OnSome-any _ (get_log_term_from_index s.log i) _ λ term.
          OnSome-any _ (erase_through s.log i) _ λ logs.
            if_both (Goes s) (e.parses snap) _ _ (persist_snapshot-Evolves snap s _ refl refl) tt)
