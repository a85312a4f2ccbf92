-- ===== src/Raft/Votes.antt =====
-- Votes: what a granted vote and a won election rest on.
use mathlib.Core.Option.{some-injective}
use raft_storage.Common.{
  ℕ, ◌≤◌, ◌<◌, ◌≡◌, refl, sym, subst, ◌∙◌, ◌⊎◌, inl, inr, true, Option, none, some, List, arith,
  ltb, ltb→lt, Bool-cases,
}
use raft_storage.Log.{Log, get_last_log_index, get_last_log_term, whether_vote_for}
use raft_storage.Raft.State.{Raft, Config, Env, RequestVoteArgs, RequestVoteReply}
use raft_storage.Raft.Loop.{Event, run}
use raft_storage.Raft.Durable.Handlers.{handle_request_vote-Evolves}
use raft_storage.Raft.Durable.Events.{run-Evolves}
use raft_storage.Raft.Election.{decide_vote, meet_term, cast_vote, has_voted, handle_request_vote}
use raft_storage.Raft.Role.{
  reset_election_deadline, become_follower, persist, adopt_term, fail_all_pending_read_index,
  finish_read,
}

-- A candidate's log is at least as up to date as the node's.
abbrev pub IsUpToDate : Log → RequestVoteArgs → Type 0
IsUpToDate l r =
    (get_last_log_term l < r.last_log_term)
    ⊎ ((r.last_log_term ≡ get_last_log_term l) × (get_last_log_index l ≤ r.last_log_index))

-- What stands when a node has granted the vote.
pub record Granted (r : RequestVoteArgs) (s t : Raft) (reply : RequestVoteReply) : Type 0 where
  pub vote : t.voted_for ≡ some (r.candidate_id)
  pub term : t.current_term ≡ r.term
  pub answered : reply.term ≡ r.term
  pub up_to_date : IsUpToDate s.log r

meet_term-ge : (e : Env) (term : ℕ) (s : Raft) → term ≤ (meet_term e term s).current_term
unfolding meet_term become_follower adopt_term persist reset_election_deadline
    fail_all_pending_read_index finish_read
meet_term-ge e term s = ground arith

meet_term-log : (e : Env) (term : ℕ) (s : Raft) → (meet_term e term s).log ≡ s.log
unfolding meet_term become_follower adopt_term persist reset_election_deadline
    fail_all_pending_read_index finish_read
meet_term-log e term s = ground arith

vote_of : (o : Option ℕ) (x : ℕ) → has_voted o x ≡ true → o ≡ some x
vote_of none x h = cc
vote_of (some v) x h = ground arith

cast_vote_for :
    (e : Env) (x : ℕ) (s : Raft)
    → ((cast_vote e x s).voted_for ≡ some x) × ((cast_vote e x s).current_term ≡ s.current_term)
unfolding cast_vote reset_election_deadline persist
cast_vote_for e x s = elim (Bool-cases (has_voted s.voted_for x)) [
  | inl repeated ↦ rw repeated (vote_of s.voted_for x repeated, refl)
  | inr first ↦ rw first (refl, refl)
]

IsUpToDate-of :
    (l : Log) (r : RequestVoteArgs)
    → whether_vote_for l r.last_log_index r.last_log_term ≡ true
    → IsUpToDate l r
unfolding whether_vote_for
IsUpToDate-of l r h = elim (Bool-cases (ltb (get_last_log_term l) r.last_log_term)) [
  | inl newer ↦ inl (ltb→lt _ _ newer)
  | inr not_newer ↦ inr (ground arith, ground arith)
]

decide-Granted :
    (e : Env) (r : RequestVoteArgs) (s : Raft)
    → s.current_term ≡ r.term
    → (decide_vote e r s).1.vote_granted ≡ true
    → Granted r s (decide_vote e r s).0 (decide_vote e r s).1
unfolding decide_vote
decide-Granted e r s h g =
    let cast = cast_vote_for e r.candidate_id s in
    rw g (record {
      vote = cast.0;
      term = cast.1 ∙ h;
      answered = h;
      up_to_date = IsUpToDate-of s.log r (ground arith);
    })

-- A granted vote is the node's vote in the term of the request, the answer carries that term, and
-- the candidate's log is at least as up to date as the node's.
pub handle_request_vote-Granted :
    (e : Env) (r : RequestVoteArgs) (s : Raft)
    → (handle_request_vote e r s).1.vote_granted ≡ true
    → Granted r s (handle_request_vote e r s).0 (handle_request_vote e r s).1
unfolding handle_request_vote
handle_request_vote-Granted e r s g =
    let s' = meet_term e r.term s in
    elim (Bool-cases (ltb r.term s'.current_term)) [
      | inl stale ↦ let no_vote = rw stale at g in cc no_vote
      | inr current ↦
          let same : s'.current_term ≡ r.term = ground (arith, meet_term-ge e r.term s) in
          let d = decide-Granted e r s' same (rw current at g) in
          rw current (record {
            vote = d.vote;
            term = d.term;
            answered = d.answered;
            up_to_date = subst (λ l. IsUpToDate l r) (meet_term-log e r.term s) d.up_to_date;
          })
    ]

-- A node votes once in a term: if it grants a request, and after any schedule of events grants
-- another one of the same term, both come from the same candidate.
pub votes_once :
    (c : Config) (e e' : Env) (r r' : RequestVoteArgs) (s u : Raft) (evs : List (Env × Event))
    → (handle_request_vote e r s).1.vote_granted ≡ true
    → run c evs (handle_request_vote e r s).0 ≡ some u
    → (handle_request_vote e' r' u).1.vote_granted ≡ true
    → r'.term ≡ r.term
    → r'.candidate_id ≡ r.candidate_id
votes_once c e e' r r' s u evs g h g' same =
    let first = handle_request_vote-Granted e r s g in
    let second = handle_request_vote-Granted e' r' u g' in
    let between = run-Evolves c evs _ u h in
    let after = handle_request_vote-Evolves e' r' u in
    let here : u.current_term ≡ r.term =
      omega (arith, between.term, after.term, first.term, second.term) in
    let kept : u.voted_for ≡ some (r.candidate_id) =
      between.vote (r.candidate_id) (omega (arith, first.term)) first.vote in
    let still = after.vote (r.candidate_id) (omega (arith, second.term)) kept in
    some-injective _ _ (sym second.vote ∙ still)
