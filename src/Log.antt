-- ===== src/Log.antt =====
-- The log behind the snapshot: the log accessors of Raft/Raft.cc and the loops over entries of
-- `handleAppendEntries`. `none` is the exit of the process by a failed `myAssert`.
pub mod Shape
pub mod Merge
pub mod Agree
pub mod Conflict
mod Tests
use raft_storage.Common.{
  ℕ, zero, suc, ◌+◌, ◌-◌, String, Bool, true, false, ◌&&◌, ◌||◌, Option, none, some, List, [], ◌∷◌,
  ◌++◌, ltb, leb, ◌==◌, if◌then◌else◌, ◌>>=◌, length, get_elem?, take, drop, min,
}

-- `RaftRpc::LogEntry`
pub record LogEntry : Type 0 where
  pub log_index : ℕ
  pub log_term : ℕ
  pub command : String

-- `logs_`, `lastIncludeSnapshotIndex_` and `lastIncludeSnapshotTerm_`
pub record Log : Type 0 where
  pub logs : List LogEntry
  pub last_include_index : ℕ
  pub last_include_term : ℕ

-- `logs_.back()` of a non-empty vector
unfoldable pub back : LogEntry → List LogEntry → LogEntry
back x [] = x
back x (y ∷ ys) = back y ys

unfoldable pub get_last_log_index : Log → ℕ
get_last_log_index l = elim l.logs [ [] ↦ l.last_include_index | x ∷ xs ↦ (back x xs).log_index ]

unfoldable pub get_last_log_term : Log → ℕ
get_last_log_term l = elim l.logs [ [] ↦ l.last_include_term | x ∷ xs ↦ (back x xs).log_term ]

unfoldable pub get_new_command_index : Log → ℕ
get_new_command_index l = get_last_log_index l + 1

-- `logIndex - lastIncludeSnapshotIndex_ - 1`, which the assertion wants in range.
unfoldable pub get_slices_index : Log → ℕ → Option ℕ
get_slices_index l i =
    if leb i l.last_include_index
    then none
    else let result = i - l.last_include_index - 1 in
      if ltb result (length l.logs) then some result else none

-- `logs_[getSlicesIndexFromLogIndex(logIndex)]`
unfoldable pub entry_at : Log → ℕ → Option LogEntry
entry_at l i = do pos ← get_slices_index l i; get_elem? l.logs pos

unfoldable pub get_log_term_from_index : Log → ℕ → Option ℕ
get_log_term_from_index l i =
    if leb l.last_include_index i && leb i (get_last_log_index l)
    then (if i == l.last_include_index
        then some l.last_include_term
        else do x ← entry_at l i; some x.log_term)
    else none

unfoldable pub match_log : Log → ℕ → ℕ → Option Bool
match_log l i term =
    if ltb i l.last_include_index || ltb (get_last_log_index l) i
    then some false
    else do t ← get_log_term_from_index l i; some (t == term)

unfoldable pub whether_vote_for : Log → ℕ → ℕ → Bool
whether_vote_for l i term =
    ltb (get_last_log_term l) term || (term == get_last_log_term l && leb (get_last_log_index l) i)

-- One round of the loop over the incoming entries, with whether it changed the log.
unfoldable pub append_one : Log → LogEntry → Option (Log × Bool)
append_one l incoming =
    if leb incoming.log_index (get_last_log_index l)
    then (do
      pos ← get_slices_index l incoming.log_index
      x ← get_elem? l.logs pos
      some (
          if x.log_term == incoming.log_term
          then (l, false)
          else (record l { logs = take pos l.logs ++ (incoming ∷ []) }, true)))
    else some (record l { logs = l.logs ++ (incoming ∷ []) }, true)

unfoldable pub append_entries : Log → List LogEntry → Bool → Option (Log × Bool)
append_entries l [] changed = some (l, changed)
append_entries l (incoming ∷ rest) changed = do
  r ← append_one l incoming
  append_entries r.0 rest (changed || r.1)

-- `while (conflictIndex > lastIncludeSnapshotIndex_ + 1 && term(conflictIndex - 1) == conflictTerm)`
unfoldable pub fast_back : Log → ℕ → ℕ → Option ℕ
fast_back l term zero = some zero
fast_back l term (suc i) =
    let earlier = fast_back l term i in
    if ltb (l.last_include_index + 1) (suc i)
    then (do t ← get_log_term_from_index l i; if t == term then earlier else some (suc i))
    else some (suc i)

-- The index that a rejected `AppendEntries` proposes.
unfoldable pub conflict_index : Log → ℕ → Option ℕ
conflict_index l prev =
    let start = min prev (get_last_log_index l) in
    if leb start l.last_include_index
    then some (l.last_include_index + 1)
    else do term ← get_log_term_from_index l start; fast_back l term start

-- `logs_.erase(logs_.begin(), logs_.begin() + getSlicesIndexFromLogIndex(snapshotIndex) + 1)`
unfoldable pub erase_through : Log → ℕ → Option (List LogEntry)
erase_through l i = do pos ← get_slices_index l i; some (drop (pos + 1) l.logs)
