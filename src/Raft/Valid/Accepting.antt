-- ===== src/Raft/Valid/Accepting.antt =====
-- What a follower's log and commit index are after a request that matches.
use mathlib.Core.Option.{some-injective}
use raft_storage.Common.{
  ℕ, ◌≤◌, min, max, ◌≡◌, refl, sym, ap, subst, ◌∙◌, true, false, some, arith, ltb, ge→ltb,
}
use raft_storage.Raft.State.{Config, Env, AppendEntriesArgs, Raft, AppendEntriesReply}
use raft_storage.Raft.Election.{meet_term}
use raft_storage.Raft.Role.{
  become_follower, adopt_term, emit, persist, reset_election_deadline, fail_all_pending_read_index,
  finish_read, reset_last_leader_contact,
}
use raft_storage.Raft.Append.{
  append_or_refuse, reply_append, handle_append_entries, matches, accepted, take_entries,
  follow_commit, hear_leader,
}
use raft_storage.Raft.Valid.{Valid, Ensures, Ensures-bind, last_of, Ensures-out}
use raft_storage.Log.Agree.{merged}
use raft_storage.Raft.Valid.Following.{
  Honest, same_log, Accepts, hear_leader-Valid, matches_in, Took, take_entries-Took,
  follow_commit-Accepts,
}
use raft_storage.Raft.Replication.{is_leader}
use raft_storage.Raft.Frame.{if_both}
use raft_storage.Log.{get_last_log_index}
use raft_storage.Raft.Valid.Electing.{meet_term-Valid}

meet_term-current :
    (e : Env) (term : ℕ) (s : Raft)
    → s.current_term ≤ term
    → (meet_term e term s).current_term ≡ term
unfolding meet_term become_follower adopt_term persist reset_election_deadline
    fail_all_pending_read_index finish_read
meet_term-current e term s h = ground arith

hear_leader-status : (e : Env) (s : Raft) → is_leader (hear_leader e s).status ≡ false
unfolding hear_leader reset_election_deadline reset_last_leader_contact
hear_leader-status e s = refl

-- The node after a request that matched.
abbrev pub Follows : Config → AppendEntriesArgs → Raft → Raft → Type 0
Follows c r s t =
    Valid c t
    × (t.log ≡ merged s.log r.prev_log_index r.entries)
    × (t.commit_index ≡ max s.commit_index (min (get_last_log_index t.log) r.leader_commit))

module _ (c : Config) (e : Env) (r : AppendEntriesArgs) where
  append_or_refuse-Accepts :
      (s : Raft)
      → Valid c s
      → is_leader s.status ≡ false
      → Honest s.log s.commit_index r
      → matches s.log r.prev_log_index r.prev_log_term ≡ some true
      → Ensures
          (λ (p : Raft × AppendEntriesReply). Accepts c r s p.0 × (p.1 ≡ accepted p.0))
          (append_or_refuse e r s)
  unfolding append_or_refuse
  append_or_refuse-Accepts s v f h hit =
      let (b, m, inside) = matches_in s.log r.prev_log_index r.prev_log_term v.contiguous in
      let (lo, hi) = inside (some-injective _ _ (sym m ∙ hit)) in
      rw hit (
        Ensures-bind (Took c r s) _ (take_entries r.entries s) _
          (take_entries-Took c r s v f h lo hi)
          λ t k.
            Ensures-bind (Accepts c r s) _ (follow_commit r.leader_commit t) _
              (follow_commit-Accepts c r s t
                (subst (λ n. n ≤ last_of t.log) k.commit k.valid.logged) k)
              λ u a. (a, refl))

  reply-Follows :
      (server : ℕ) (reply : AppendEntriesReply) (s t : Raft)
      → Follows c r s t
      → Follows c r s (reply_append server reply t)
  unfolding reply_append emit
  reply-Follows server reply s t h = if_both (Follows c r s) (t.ae_responder server) _ _ h h

  Follows-step :
      (server : ℕ) (s : Raft)
      → Valid c s
      → s.current_term ≤ r.term
      → Honest s.log s.commit_index r
      → matches s.log r.prev_log_index r.prev_log_term ≡ some true
      → Ensures (Follows c r s) (handle_append_entries e r server s)
  unfolding handle_append_entries
  Follows-step server s v h honest hit =
      let s' = meet_term e r.term s in
      let met = meet_term-current e r.term s h in
      let (l, k) = same_log c e r.term s in
      let w = hear_leader-Valid c e s' (meet_term-Valid c e r.term s v) in
      let current : ltb r.term s'.current_term ≡ false = ge→ltb _ _ (omega (arith, met)) in
      let prev = r.prev_log_index in
      rw current (
        Ensures-bind _ (Follows c r s) (append_or_refuse e r (hear_leader e s')) _
          (append_or_refuse-Accepts (hear_leader e s') w (hear_leader-status e s')
            (rw (l, k) honest) (ap (λ x. matches x prev r.prev_log_term) l ∙ hit))
          λ p q. reply-Follows server p.1 s p.0 (
            q.0.valid,
            q.0.merge ∙ ap (λ x. merged x prev r.entries) l,
            q.0.commit ∙ ap (λ n. max n (min (get_last_log_index p.0.log) r.leader_commit)) k,
          ))

-- A request of a leader of this or a later term, whose entry before its entries matches, is always
-- taken in: the node's log is the old one up to that entry with the sent entries merged into the
-- rest, its commit index is the old one or the smaller of the leader's and the last index, if that
-- is greater, and the node is valid.
pub handle_append_entries_taken :
    (c : Config) (e : Env) (r : AppendEntriesArgs) (server : ℕ) (s : Raft)
    → Valid c s
    → s.current_term ≤ r.term
    → Honest s.log s.commit_index r
    → matches s.log r.prev_log_index r.prev_log_term ≡ some true
    → (t : Raft) × (handle_append_entries e r server s ≡ some t)
      × Valid c t
      × (t.log ≡ merged s.log r.prev_log_index r.entries)
      × (t.commit_index ≡ max s.commit_index (min (get_last_log_index t.log) r.leader_commit))
handle_append_entries_taken c e r server s v h honest hit =
    let (t, run, f) =
      Ensures-out (Follows c r s) (handle_append_entries e r server s)
        (Follows-step c e r server s v h honest hit) in
    (t, run, f.0, f.1, f.2)
