-- ===== src/Raft/Commit.antt =====
-- Raft/Raft.cc: the commit index and the delivery of committed entries to the state machine.
use raft_storage.Common.{
  ℕ, zero, suc, ◌+◌, ◌-◌, Bool, true, false, Option, none, some, List, [], ◌∷◌, ◌++◌, ltb, leb,
  ◌==◌, if◌then◌else◌, ◌>>=◌,
}
use raft_storage.Log.{get_last_log_index, get_log_term_from_index, entry_at}
use raft_storage.Raft.State.{Raft, Config, command_msg}
use raft_storage.Raft.Role.{quorum_size}

-- One round of the loop of `applyCommitted`.
unfoldable pub apply_next : Raft → Option Raft
apply_next s = do
  x ← entry_at s.log (s.last_applied + 1)
  some (record s {
    last_applied = s.last_applied + 1;
    apply_queue = s.apply_queue ++ (command_msg x.command (s.last_applied + 1) x.log_term ∷ []);
  })

unfoldable pub apply_rounds : ℕ → Raft → Option Raft
apply_rounds zero s = some s
apply_rounds (suc n) s = do s' ← apply_next s; apply_rounds n s'

-- `while (lastApplied_ < commitIndex_)`: each round moves `lastApplied_` by one.
unfoldable pub apply_committed : Raft → Option Raft
apply_committed s = apply_rounds (s.commit_index - s.last_applied) s

-- Peers known to hold the index, counting the leader itself.
unfoldable pub count_replicated : (ℕ → ℕ) → ℕ → List ℕ → ℕ
count_replicated match_index index [] = 1
count_replicated match_index index (p ∷ ps) =
    let others = count_replicated match_index index ps in
    if leb index (match_index p) then suc others else others

-- The test of one round; the term is only looked up under a quorum.
unfoldable pub may_commit : Config → Raft → ℕ → Option Bool
may_commit c s index =
    if leb (quorum_size c) (count_replicated s.match_index index c.peers)
    then (do t ← get_log_term_from_index s.log index; some (t == s.current_term))
    else some false

-- `for (index = getLastLogIndex(); index > commitIndex_; --index)` up to its `break`.
unfoldable pub find_commit : Config → Raft → ℕ → Option (Option ℕ)
find_commit c s zero = some none
find_commit c s (suc i) =
    let lower = find_commit c s i in
    if ltb s.commit_index (suc i)
    then (do found ← may_commit c s (suc i); if found then some (some (suc i)) else lower)
    else some none

unfoldable pub update_commit_index : Config → Raft → Option Raft
update_commit_index c s = do
  found ← find_commit c s (get_last_log_index s.log)
  elim found [
    | none ↦ some s
    | some index ↦
        apply_committed (record s { commit_index = index; current_term_committed = true })
  ]
