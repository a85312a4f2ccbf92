-- ===== src/Log/Tests.antt =====
-- The log's theorems at a log of three entries behind a snapshot.
use raft_storage.Common.{ℕ, suc, ◌≤◌, ◌<◌, min, ◌≡◌, refl, false, some, List, [], ◌∷◌, arith, drop}
use raft_storage.Log.{
  append_entries, conflict_index, Log, LogEntry, get_last_log_index, fast_back, back,
  get_log_term_from_index, entry_at, get_slices_index,
}
use raft_storage.Log.Shape.{Consecutive, IsContiguous}
use raft_storage.Log.Conflict.{conflict_index_lem, FirstOfRun}
use raft_storage.Log.Merge.{merge, differs}
use raft_storage.Log.Agree.{merged, append_entries-repeated, append_entries_lem}

abbrev entry : ℕ → ℕ → LogEntry
entry index term = record { log_index = index; log_term = term; command = "x" }

abbrev sample : Log
sample = record {
  logs = entry 5 2 ∷ entry 6 2 ∷ entry 7 3 ∷ [];
  last_include_index = 4;
  last_include_term = 1;
}

abbrev sent : List LogEntry
sent = entry 7 4 ∷ entry 8 4 ∷ []

sample-IsContiguous : IsContiguous sample
sample-IsContiguous = (refl, (refl, (refl, tt)))

sent-Consecutive : Consecutive 7 sent
sent-Consecutive = (refl, (refl, tt))

sample-last : 6 ≤ get_last_log_index sample
unfolding get_last_log_index back
sample-last = omega arith

append_entries_lem_example :
    append_entries sample sent false
    ≡ some (merged sample 6 sent, differs (drop 2 sample.logs) sent)
append_entries_lem_example =
    append_entries_lem sample 6 sent sample-IsContiguous (omega arith) sample-last sent-Consecutive

append_entries-repeated_example :
    append_entries (merged sample 6 sent) sent false ≡ some (merged sample 6 sent, false)
append_entries-repeated_example =
    append_entries-repeated sample 6 sent sample-IsContiguous (omega arith) sample-last
      sent-Consecutive

conflict_index_lem_example :
    (found : ℕ) × (conflict_index sample 6 ≡ some found)
    × (sample.last_include_index < found)
    × (found ≤ suc (get_last_log_index sample))
    × (min 6 (get_last_log_index sample) ≤ sample.last_include_index
        → found ≡ suc sample.last_include_index)
    × (sample.last_include_index < min 6 (get_last_log_index sample)
        → (t : ℕ) × FirstOfRun sample t (min 6 (get_last_log_index sample)) found)
conflict_index_lem_example = conflict_index_lem sample 6 sample-IsContiguous

-- Runs of the code on the sample.
merged-sample : merged sample 6 sent ≡ record sample { logs = entry 5 2 ∷ entry 6 2 ∷ sent }
unfolding merge
merged-sample = refl

conflict_at_7 : conflict_index sample 6 ≡ some 5
unfolding conflict_index fast_back get_log_term_from_index entry_at get_slices_index
    get_last_log_index back
conflict_at_7 = refl
