-- ===== src/Raft/Valid/Following.antt =====
-- A request of a leader whose log agrees with what is committed here keeps a node valid.
use raft_storage.Raft.Valid.Electing.{unled, persist-Valid, meet_term-Valid}
use raft_storage.Common.{
  ℕ, suc, ◌-◌, ◌≤◌, min, max, ◌≡◌, refl, ap, subst, ◌∙◌, inl, inr, Bool, true, false, ◌&&◌, ◌||◌,
  some, List, arith, ltb, leb, ◌==◌, ltb→lt, Bool-cases, take, drop, length-append, length-drop,
  length-take,
}
use raft_storage.Log.{Log, LogEntry, get_last_log_index, match_log}
use raft_storage.Log.Shape.{Consecutive, IsContiguous, get_log_term_in}
use raft_storage.Log.Agree.{
  AgreesBelow, merged, append_entries_lem, merged-IsContiguous, length-merge_keeps,
}
use raft_storage.Raft.State.{Raft, Config, Env, AppendEntriesArgs, AppendEntriesReply}
use raft_storage.Raft.Frame.{if_both}
use raft_storage.Raft.Valid.{last_of, Ensures, Ensures-bind, Valid, Valid-last, if_either}
use raft_storage.Raft.Append.{
  take_entries, matches, follow_commit, hear_leader, handle_read_heart_beat, reply_append,
  append_or_refuse, handle_append_entries,
}
use raft_storage.Log.Merge.{merge, differs}
use raft_storage.Raft.Replication.{is_leader}
use raft_storage.Raft.Role.{
  persist, reset_election_deadline, emit, become_follower, reset_last_leader_contact, adopt_term,
  fail_all_pending_read_index, finish_read,
}
use raft_storage.Raft.Valid.Committing.{apply_committed_lem}
use raft_storage.Raft.Election.{meet_term}
use raft_storage.Log.Conflict.{conflict_index_lem}
use raft_storage.Raft.Durable.Handlers.{meet_term-Evolves}

-- What the protocol promises of a request: its entries follow `prev_log_index` one by one, and
-- they agree by their terms with the entries that are committed here.
pub record Honest (l : Log) (commit : ℕ) (r : AppendEntriesArgs) : Type 0 where
  pub consecutive : Consecutive (suc r.prev_log_index) r.entries
  pub agrees :
      l.last_include_index ≤ r.prev_log_index
      → AgreesBelow
          (commit - r.prev_log_index)
          (drop (r.prev_log_index - l.last_include_index) l.logs)
          r.entries

pub matches_in :
    (l : Log) (prev term : ℕ)
    → IsContiguous l
    → (b : Bool) × (matches l prev term ≡ some b)
      × (b ≡ true → (l.last_include_index ≤ prev) × (prev ≤ get_last_log_index l))
unfolding matches match_log
matches_in l prev term c =
    elim (Bool-cases (leb l.last_include_index prev && leb prev (get_last_log_index l))) [
      | inr out ↦ (false, rw out refl, λ h. cc)
      | inl inside ↦
          let lo : l.last_include_index ≤ prev = ground arith in
          let hi : prev ≤ get_last_log_index l = ground arith in
          let (t, e) = get_log_term_in l prev c lo hi in
          let known : (ltb prev l.last_include_index || ltb (get_last_log_index l) prev) ≡ false =
            ground arith in
          (t == term, rw (inside, known, e) refl, λ h. (lo, hi))
    ]

-- The merged log still holds everything that is committed.
merged_holds :
    (l : Log) (commit prev : ℕ) (es : List LogEntry)
    → l.last_include_index ≤ prev
    → prev ≤ last_of l
    → commit ≤ last_of l
    → AgreesBelow (commit - prev) (drop (prev - l.last_include_index) l.logs) es
    → commit ≤ last_of (merged l prev es)
merged_holds l commit prev es lo hi h a =
    let k = prev - l.last_include_index in
    let tail = drop k l.logs in
    omega (
      arith,
      length-take k l.logs (omega arith),
      length-drop k l.logs,
      length-append (take k l.logs) (merge tail es),
      length-merge_keeps (commit - prev) tail es (omega (arith, length-drop k l.logs)) a,
    )

-- The node after the loop over the entries of a request.
pub record Took (c : Config) (r : AppendEntriesArgs) (s s' : Raft) : Type 0 where
  pub valid : Valid c s'
  pub unled : is_leader s'.status ≡ false
  pub merge : s'.log ≡ merged s.log r.prev_log_index r.entries
  pub commit : s'.commit_index ≡ s.commit_index

-- A request that matches is taken in: the node is valid, its log is the merged one, and its commit
-- index is the leader's or its last index, if the leader's is ahead.
pub record Accepts (c : Config) (r : AppendEntriesArgs) (s s' : Raft) : Type 0 where
  pub valid : Valid c s'
  pub unled : is_leader s'.status ≡ false
  pub merge : s'.log ≡ merged s.log r.prev_log_index r.entries
  pub commit :
      s'.commit_index ≡ max s.commit_index (min (get_last_log_index s'.log) r.leader_commit)

module _ (c : Config) where
  pub take_entries-Took :
      (r : AppendEntriesArgs) (s : Raft)
      → Valid c s
      → is_leader s.status ≡ false
      → Honest s.log s.commit_index r
      → s.log.last_include_index ≤ r.prev_log_index
      → r.prev_log_index ≤ get_last_log_index s.log
      → Ensures (Took c r s) (take_entries r.entries s)
  unfolding take_entries persist
  take_entries-Took r s v f h lo hi =
      let l = Valid-last c s v in
      let t = record s { log = merged s.log r.prev_log_index r.entries } in
      let w : Valid c t = record {
        contiguous =
            merged-IsContiguous s.log r.prev_log_index r.entries v.contiguous lo hi h.consecutive;
        applied = v.applied;
        committed = v.committed;
        logged =
            merged_holds s.log s.commit_index r.prev_log_index r.entries lo (omega (arith, l))
              v.logged (h.agrees lo);
        snapped = v.snapped;
        tracked = λ q. cc;
      } in
      rw (append_entries_lem s.log r.prev_log_index r.entries v.contiguous lo hi h.consecutive) (
        if_both (Took c r s)
          (differs (drop (r.prev_log_index - s.log.last_include_index) s.log.logs) r.entries) _ _
          (record { valid = persist-Valid c t w; unled = f; merge = refl; commit = refl })
          (record { valid = w; unled = f; merge = refl; commit = refl }))

  pub follow_commit-Accepts :
      (r : AppendEntriesArgs) (s t : Raft)
      → s.commit_index ≤ last_of t.log
      → Took c r s t
      → Ensures (Accepts c r s) (follow_commit r.leader_commit t)
  unfolding follow_commit
  follow_commit-Accepts r s t h k = elim (Bool-cases (ltb t.commit_index r.leader_commit)) [
    | inr same ↦ rw same (record {
      valid = k.valid;
      unled = k.unled;
      merge = k.merge;
      commit = ground (arith, k.commit);
    })
    | inl ahead ↦
        let u = record t { commit_index = min (get_last_log_index t.log) r.leader_commit } in
        let v = k.valid in
        let l = Valid-last c t v in
        let lt = ltb→lt _ _ ahead in
        let w : Valid c u = record {
          contiguous = v.contiguous;
          applied = v.applied;
          committed = omega (arith, v.committed, v.logged);
          logged = omega arith;
          snapped = v.snapped;
          tracked = v.tracked;
        } in
        let (s', run, _, _, log, commit, status, valid) = apply_committed_lem c u w in
        rw (ahead, run)
          (record {
            valid = valid;
            unled = ap is_leader status ∙ k.unled;
            merge = log ∙ k.merge;
            commit = commit ∙ rw log (omega (arith, k.commit, v.logged));
          })
  ]

  -- A request of a leader of this term or a later one, of which the entry before its entries
  -- matches: the loop, the write and the commit go through; otherwise the node stays as it is and
  -- an index to try next is proposed.
  append_or_refuse-Valid :
      (e : Env) (r : AppendEntriesArgs) (s : Raft)
      → Valid c s
      → is_leader s.status ≡ false
      → Honest s.log s.commit_index r
      → Ensures (λ (p : Raft × AppendEntriesReply). Valid c p.0) (append_or_refuse e r s)
  unfolding append_or_refuse
  append_or_refuse-Valid e r s v f h =
      let (b, m, inside) = matches_in s.log r.prev_log_index r.prev_log_term v.contiguous in
      rw m (
        if_either (Ensures (λ (p : Raft × AppendEntriesReply). Valid c p.0)) b _ _
          (λ hit.
            let (lo, hi) = inside hit in
            Ensures-bind (Took c r s) _ (take_entries r.entries s) _
              (take_entries-Took r s v f h lo hi)
              λ t k.
                Ensures-bind (Accepts c r s) _ (follow_commit r.leader_commit t) _
                  (follow_commit-Accepts r s t
                    (subst (λ n. n ≤ last_of t.log) k.commit k.valid.logged) k)
                  λ u a. a.valid)
          (λ miss.
            let (found, e', _, _, _, _) = conflict_index_lem s.log r.prev_log_index v.contiguous in
            rw e' v))

  module _ (e : Env) where
    abbrev pub heard : (term : ℕ) (s : Raft) → Raft
    heard term s = hear_leader e (meet_term e term s)

    -- Meeting a term and a leader changes neither the log nor the commit index.
    pub same_log :
        (term : ℕ) (s : Raft)
        → ((heard term s).log ≡ s.log) × ((heard term s).commit_index ≡ s.commit_index)
    unfolding hear_leader meet_term become_follower adopt_term persist reset_election_deadline
        reset_last_leader_contact fail_all_pending_read_index finish_read
    same_log term s = (ground arith, ground arith)

    pub hear_leader-Valid : (s : Raft) → Valid c s → Valid c (hear_leader e s)
    unfolding hear_leader reset_election_deadline reset_last_leader_contact
    hear_leader-Valid s v = unled c s _ refl refl refl refl refl v

    pub reply-Valid :
        (server : ℕ) (reply : AppendEntriesReply) (s : Raft)
        → Valid c s
        → Valid c (reply_append server reply s)
    unfolding reply_append emit
    reply-Valid server reply s v = if_both (Valid c) (s.ae_responder server) _ _ v v

    pub handle_append_entries-Valid :
        (r : AppendEntriesArgs) (server : ℕ) (s : Raft)
        → Valid c s
        → (s.current_term ≤ r.term → Honest s.log s.commit_index r)
        → Ensures (Valid c) (handle_append_entries e r server s)
    unfolding handle_append_entries hear_leader reset_election_deadline reset_last_leader_contact
    handle_append_entries-Valid r server s v h =
        let s' = meet_term e r.term s in
        let met = meet_term-Valid c e r.term s v in
        let w = hear_leader-Valid s' met in
        let (l, k) = same_log r.term s in
        let rising = meet_term-Evolves e r.term s in
        if_either (Ensures (Valid c)) (ltb r.term s'.current_term) _ _
          (λ stale. reply-Valid server _ s' met)
          (λ current.
            let not_stale : s.current_term ≤ r.term = ground (arith, rising.term) in
            let h' : Honest (heard r.term s).log (heard r.term s).commit_index r =
              rw (l, k) (h not_stale) in
            Ensures-bind (λ (p : Raft × AppendEntriesReply). Valid c p.0) (Valid c)
              (append_or_refuse e r (hear_leader e s')) _
              (append_or_refuse-Valid e r (hear_leader e s') w refl h')
              λ p q. reply-Valid server p.1 p.0 q)

    pub handle_read_heart_beat-Valid :
        (r : AppendEntriesArgs) (server : ℕ) (s : Raft)
        → Valid c s
        → Valid c (handle_read_heart_beat e r server s)
    unfolding handle_read_heart_beat
    handle_read_heart_beat-Valid r server s v =
        let s' = meet_term e r.term s in
        let met = meet_term-Valid c e r.term s v in
        if_both (Valid c) (ltb r.term s'.current_term) _ _ (reply-Valid server _ s' met)
          (reply-Valid server _ _ (hear_leader-Valid s' met))
