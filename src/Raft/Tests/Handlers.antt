-- ===== src/Raft/Tests/Handlers.antt =====
-- The theorems about single handlers, at one node.
use raft_storage.Raft.Valid.Behind.{read_index_behind}
use raft_storage.Common.{
  ℕ, suc, ◌≤◌, ◌<◌, min, max, ◌≡◌, refl, true, Option, some, [], ◌∷◌, ◌++◌, arith, length, none,
}
use raft_storage.Raft.State.{Config, Raft, AppendEntriesArgs, leader, PendingReadIndex}
use raft_storage.Raft.Loop.{step, append_request, read_index}
use raft_storage.Log.{
  get_last_log_index, back, match_log, get_log_term_from_index, entry_at, get_slices_index,
}
use raft_storage.Raft.Valid.{Valid}
use raft_storage.Raft.Commit.{apply_committed, update_commit_index}
use raft_storage.Raft.Valid.Committing.{
  messages, IsGreatest, entries_after, apply_committed_lem, CommitsTo, update_commit_index_lem,
}
use raft_storage.Raft.Valid.Events.{step-Valid}
use raft_storage.Raft.Role.{quorum_size}
use raft_storage.Raft.Replication.{build_append_entries}
use raft_storage.Raft.Reply.{suggest_next}
use raft_storage.Raft.Valid.Replying.{suggest_next_bounds}
use raft_storage.Raft.Reads.{read_index_alone}
use raft_storage.Raft.Append.{handle_append_entries, matches}
use raft_storage.Raft.Valid.Requests.{FromLog, build_append_entries_lem}
use raft_storage.Log.Agree.{merged}
use raft_storage.Raft.Valid.Accepting.{handle_append_entries_taken}
use raft_storage.Raft.Tests.Nodes.{at_time, node, three, node-Valid, entry, request-Honest, request}

step-Valid_example :
    (s' : Raft) × (step three (at_time 60) (append_request request 2) node ≡ some s')
    × Valid three s'
step-Valid_example =
    step-Valid three (at_time 60) (append_request request 2) node node-Valid (λ h. request-Honest)

update_commit_index_lem_example :
    (s' : Raft) × (r : Option ℕ) × (update_commit_index three node ≡ some s')
    × IsGreatest three node (get_last_log_index node.log) r
    × CommitsTo three node s' r
    × (s'.log ≡ node.log)
    × Valid three s'
update_commit_index_lem_example = update_commit_index_lem three node node-Valid

apply_committed_lem_example :
    (s' : Raft) × (apply_committed node ≡ some s')
    × (s'.last_applied ≡ 2)
    × (s'.apply_queue ≡ [] ++ messages (entries_after node.log 1 1))
    × (s'.log ≡ node.log)
    × (s'.commit_index ≡ 2)
    × (s'.status ≡ leader)
    × Valid three s'
apply_committed_lem_example = apply_committed_lem three node node-Valid

node-top : 4 ≤ suc (get_last_log_index node.log)
unfolding get_last_log_index back
node-top = omega arith

suggest_next_bounds_example :
    (1 ≤ suggest_next node 2 (some 9))
    × (suggest_next node 2 (some 9) ≤ suc (get_last_log_index node.log))
    × (1 < 4 → suggest_next node 2 (some 9) < 4)
suggest_next_bounds_example = suggest_next_bounds node 2 (some 9) (omega arith) node-top

-- The node with a snapshot up to 4, and a peer that needs entry 4.
abbrev ahead : Raft
ahead = record node { log = record { logs = []; last_include_index = 4; last_include_term = 2 } }

read_index_behind_example : read_index three (at_time 5) 8 ahead ≡ none
read_index_behind_example =
    read_index_behind three (at_time 5) 8 2 ahead refl refl refl refl refl refl (omega arith)

-- A read of round 4 that the node itself has acknowledged, for two callbacks.
abbrev pending_read : PendingReadIndex
pending_read = record { round = 4; term = 2; read_index = 2; acks = 1 ∷ []; callbacks = 5 ∷ 6 ∷ [] }

abbrev reading : Raft
reading = record node { active_read = some pending_read }

abbrev one : Config
one = record { id = 1; peers = []; cluster_size = 1 }

read_index_alone_example :
    (p : PendingReadIndex) × (s' : Raft) × (read_index one (at_time 5) 8 node ≡ some s')
    × (s'.active_read ≡ some p)
    × (p.callbacks ≡ 8 ∷ [])
    × (quorum_size one ≤ length p.acks)
    × (s'.effects ≡ node.effects)
read_index_alone_example = read_index_alone one (at_time 5) 8 node refl refl refl refl refl

build_append_entries_lem_example :
    (r : AppendEntriesArgs) × (build_append_entries three node 2 ≡ some r)
    × (suc r.prev_log_index ≡ 4)
    × FromLog node r
build_append_entries_lem_example =
    build_append_entries_lem three node 2 node-Valid refl refl (omega arith)

request_matches : matches node.log 2 2 ≡ some true
unfolding matches match_log get_last_log_index back get_log_term_from_index entry_at
    get_slices_index
request_matches = refl

handle_append_entries_taken_example :
    (t : Raft) × (handle_append_entries (at_time 60) request 2 node ≡ some t)
    × Valid three t
    × (t.log ≡ merged node.log 2 (entry 3 3 ∷ []))
    × (t.commit_index ≡ max 2 (min (get_last_log_index t.log) 3))
handle_append_entries_taken_example =
    handle_append_entries_taken three (at_time 60) request 2 node node-Valid (omega arith)
      request-Honest request_matches
