-- ===== src/Raft/Durable.antt =====
-- Terms, votes and the state file: what no handler of Raft/Raft.cc may undo.
pub mod Handlers
pub mod Followers
pub mod Events
use raft_storage.Common.{
  ℕ, zero, suc, ◌+◌, ◌-◌, ◌*◌, ◌/◌, ◌%◌, ◌^◌, ◌≤◌, ◌<◌, min, max, String, ◌≡◌, refl, sym, ap, subst,
  ◌∙◌, ◌≢◌, ◌↔◌, ◌⊎◌, inl, inr, Bool, true, false, not, ◌&&◌, ◌||◌, Option, none, some, List, [],
  ◌∷◌, ◌++◌, map, Mem, arith, ltb, leb, ◌==◌, if◌then◌else◌, ltb→lt, lt→ltb, ge→ltb, leb→le, le→leb,
  gt→leb, eq→==, tests, Bool-cases, Option-cases, is_some, ◌>>=◌, >>=-eq-some, length, get_elem?,
  take, drop, All, length-append, length-drop, length-take, take-append-drop, get_elem?-append_cons,
  take-append, get_elem?-append_left, get_elem?_in, drop-cons_get, update, update_self, update_ne,
}
use raft_storage.Log.{Log, LogEntry, append_entries}
use raft_storage.Persister.{RaftState, Persister, save_raft_state, save}
use raft_storage.Raft.State.{Raft, Config, Env, ReadResult, Effect}
use raft_storage.Raft.Role.{
  emit, persist, persist_data, adopt_term, become_follower, step_down, finish_read,
  fail_all_pending_read_index, complete_active_read, reset_election_deadline,
  reset_heartbeat_deadline, reset_quorum_deadline, reset_last_leader_contact,
  reset_leader_contact_times, mark_peer_active,
}
use raft_storage.Raft.Commit.{
  apply_next, apply_rounds, apply_committed, find_commit, update_commit_index,
}
use raft_storage.Raft.Frame.{OnSome, OnSome-map, Core, core, Keeps, finish_read-core}

-- The state file holds the present term, vote and log.
abbrev pub IsSaved : Raft → Type 0
IsSaved s = s.persister.raft_state_file ≡ some (persist_data s)

-- The term does not fall, a vote of the same term stays, and the state file keeps up.
pub record Evolves (s s' : Raft) : Type 0 where
  pub term : s.current_term ≤ s'.current_term
  pub vote :
      (a : ℕ) → s.current_term ≡ s'.current_term → s.voted_for ≡ some a → s'.voted_for ≡ some a
  pub saved : IsSaved s → IsSaved s'

-- The part of the state that this is about.
pub record Ballot : Type 0 where
  pub term : ℕ
  pub voted_for : Option ℕ
  pub log : Log
  pub persister : Persister

abbrev pub ballot : Raft → Ballot
ballot s = record {
  term = s.current_term;
  voted_for = s.voted_for;
  log = s.log;
  persister = s.persister;
}

pub Evolves-of_ballot : (s s' : Raft) → ballot s' ≡ ballot s → Evolves s s'
unfolding persist_data
Evolves-of_ballot s s' e = record {
  term = ground arith;
  vote = λ a p q. ground arith;
  saved = λ h. ground arith;
}

pub Evolves-of_core : (s s' : Raft) → core s' ≡ core s → Evolves s s'
Evolves-of_core s s' e = Evolves-of_ballot s s' (
    ap
      (λ (k : Core). record {
        term = k.current_term;
        voted_for = k.voted_for;
        log = k.log;
        persister = k.persister;
      })
      e)

pub Evolves-refl : (s : Raft) → Evolves s s
Evolves-refl s = record { term = omega arith; vote = λ a p q. q; saved = λ h. h }

pub Evolves-trans : {s t u : Raft} → Evolves s t → Evolves t u → Evolves s u
Evolves-trans {s} {t} {u} h k = record {
  term = omega arith;
  vote = λ a p q.
      k.vote a (omega (arith, h.term, k.term)) (h.vote a (omega (arith, h.term, k.term)) q);
  saved = λ x. k.saved (h.saved x);
}

abbrev pub Goes : Raft → Option Raft → Type 0
Goes s = OnSome (Evolves s)

pub Goes-bind :
    (s : Raft) (m : Option Raft) (f : Raft → Option Raft)
    → Goes s m
    → ((s' : Raft) → Goes s' (f s'))
    → Goes s (m >>= f)
Goes-bind s none f h k = tt
Goes-bind s (some s') f h k = OnSome-map _ _ (f s') (k s') (λ s'' e. Evolves-trans h e)

pub Goes-from : {s t : Raft} (m : Option Raft) → Evolves s t → Goes t m → Goes s m
Goes-from m h k = OnSome-map _ _ m k (λ s'' e. Evolves-trans h e)

pub Goes-of_Keeps : (s : Raft) (m : Option Raft) → Keeps s m → Goes s m
Goes-of_Keeps s m h = OnSome-map _ _ m h (λ s' e. Evolves-of_core s s' e)

-- A write of the present state.
pub persist-IsSaved : (s : Raft) → IsSaved (persist s)
unfolding persist persist_data save_raft_state
persist-IsSaved s = refl

-- A change followed by a write: what is left to show is about the term and the vote.
pub Evolves-persist :
    (s t : Raft)
    → s.current_term ≤ t.current_term
    → ((a : ℕ) → s.current_term ≡ t.current_term → s.voted_for ≡ some a → t.voted_for ≡ some a)
    → Evolves s (persist t)
unfolding persist persist_data save_raft_state
Evolves-persist s t h k = record { term = h; vote = k; saved = λ x. refl }
