-- ===== src/Kv/Tests.antt =====
-- The state machine and the waiting requests on concrete values: a list of pairs as the skip list,
-- and such a list as the JSON value of a snapshot.
use raft_storage.Common.{
  codes, ℕ, ◌≤◌, String, ◌≡◌, refl, true, false, Option, none, some, List, [], ◌∷◌, if◌then◌else◌,
  All,
}
use raft_storage.SkipList.Streams.{Streamed, Text}
use raft_storage.SkipList.Words.{text_order}
use raft_storage.Kv.Listed.{Kept, string_order, kept_list}
use raft_storage.SkipList.Assoc.{put as put_entry}
use raft_storage.Kv.Snapshots.{restore-snapshot, snapshot, IsReadBack, client_records}
use raft_storage.Kv.Refined.{
  Keeps, Refines, Entries, entry_list, restore-Refines, apply-Refines, apply_all-Refines,
}
use raft_storage.Kv.Machine.{
  SnapshotRoot, KvStateMachine, restore, apply_all, ApplyResult, apply, Op, SkipListOps, respond,
  json_object, execute, recorded_reply, covered,
}
use raft_storage.Kv.Pending.{
  Move, RequestKey, move_all, Pending, cancel, register_pending, move, register_move, take_move,
  take_pending, finish_in_hand, forget_move, forget_pending, finish, cancel_move, finish_move,
  call_move, call_finish,
}
use raft_storage.Kv.Once.{restore-keeps, apply_once, apply-replays}
use raft_storage.Kv.Finish.{count_answers, count_finished, finished_once, cancel-silent}
use raft_storage.Kv.Worker.{KvServer}
use raft_storage.SkipList.Reload.{new_list-Represents}
use raft_storage.SkipList.{new_list}

abbrev pairs : SkipListOps (List (String × String)) (List (String × String))
pairs = record {
  insert = λ k v s. (true, (k, v) ∷ s);
  erase = λ k s. (false, s);
  load_from_json = λ j s. some j;
}

abbrev empty_machine : KvStateMachine (List (String × String))
empty_machine = record { kv = []; dedup = λ c. none }

abbrev write : String → ℕ → Op
write client request = record {
  operation = "PUT";
  key = "k";
  value = "v";
  client_id = client;
  request_id = request;
}

abbrev others : List Op
others = write "b" 1 ∷ write "b" 2 ∷ []

apply_once_example :
    let later = apply_all pairs others (apply pairs (write "a" 1) empty_machine).0 in
    (apply pairs (write "a" 1) later).0 ≡ later
apply_once_example = apply_once pairs (write "a" 1) others empty_machine

apply-replays_example :
    (apply pairs
      (write "a" 1)
      (apply_all pairs others (apply pairs (write "a" 1) empty_machine).0)).1
    ≡ (apply pairs (write "a" 1) empty_machine).1
apply-replays_example = apply-replays pairs (write "a" 1) others empty_machine (refl, (refl, tt))

abbrev after_a : KvStateMachine (List (String × String))
after_a = (apply pairs (write "a" 1) empty_machine).0

abbrev root : SnapshotRoot (List (String × String))
root = record {
  snapshot = some (("k", "v") ∷ []);
  deduplication_kind = some json_object;
  deduplication = ("c", record { last_request_id = 9; last_reply_msg = "Success" }) ∷ [];
}

restores : restore pairs root after_a ≡ some (record after_a { kv = ("k", "v") ∷ [] })
unfolding restore
restores = refl

restore-keeps_example : after_a.dedup ≡ after_a.dedup
restore-keeps_example =
    restore-keeps pairs root after_a (record after_a { kv = ("k", "v") ∷ [] }) restores

-- A command after its own repetition is written to the list once.
written_once : (apply_all pairs (write "a" 1 ∷ write "a" 1 ∷ []) empty_machine).kv ≡ ("k", "v") ∷ []
unfolding apply_all apply respond execute recorded_reply covered
written_once = refl

abbrev idle : Pending
idle = record {
  pending_requests = λ c r. none;
  completions = λ cid. record { done = false; cancelled = false; attached = true };
  in_hand = none;
  sending = [];
  finished = [];
}

abbrev key : RequestKey
key = record { client_id = "a"; request_id = 1 }

abbrev answer : ApplyResult
answer = record { client_id = "a"; request_id = 1; reply_msg = "Success"; get_reply = "" }

-- The reactor is cancelled between the lock of `completePending` and its call of `finish`.
abbrev race : List Move
race =
    register_move 3 2 key 7
    ∷ take_move 3 2 answer
    ∷ forget_move key 7
    ∷ cancel_move 7
    ∷ finish_move
    ∷ call_move
    ∷ []

finished_once_example : count_finished 7 (move_all race idle).finished ≤ 1
finished_once_example = finished_once race idle refl refl 7

cancel-silent_example :
    (count_answers 7 (move_all race (cancel 7 idle)) ≡ 0)
    × (count_finished 7 idle.sending ≡ 0
        → count_finished 7 (move_all race (cancel 7 idle)).finished ≡ 0)
cancel-silent_example = cancel-silent race 7 idle

raced : (move_all race idle).finished ≡ []
unfolding move_all move register_pending take_pending forget_pending cancel finish_in_hand finish
    call_finish
raced = refl

-- The cancel falls between the lock of `RpcCompletion::finish` and its call of `Finish`: the call
-- is made all the same.
abbrev late : List Move
late =
    register_move 3 2 key 7
    ∷ take_move 3 2 answer
    ∷ finish_move
    ∷ forget_move key 7
    ∷ cancel_move 7
    ∷ call_move
    ∷ []

too_late : (move_all late idle).finished ≡ (7, "Success") ∷ []
unfolding move_all move register_pending take_pending forget_pending cancel finish_in_hand finish
    call_finish
too_late = refl

-- A server where no request waits.
abbrev server : KvServer (List (String × String))
server = record {
  machine = empty_machine;
  pending = idle;
  checked = 0;
  last_applied = 0;
  snapshots = [];
}

abbrev parse : String → Option Op
parse text = some (write "a" 1)

-- Texts read by a stream that knows one word.
abbrev one_word : Streamed String
one_word = record {
  print = codes;
  scan = λ t. if text_order.same t (codes "a") then some "a" else none;
  failed = "";
}

abbrev kept_machine : KvStateMachine Kept
kept_machine = record { kv = some (λ i. 1 ∷ [], new_list "" "" 2); dedup = λ c. none }

abbrev entry_machine : KvStateMachine Entries
entry_machine = record { kv = []; dedup = λ c. none }

start_alike : Refines kept_machine entry_machine
start_alike = (new_list-Represents string_order "" "" 2, refl)

apply-Refines_example :
    Refines
      (apply (kept_list one_word) (write "a" 1) kept_machine).0
      (apply (entry_list one_word) (write "a" 1) entry_machine).0
    × ((apply (kept_list one_word) (write "a" 1) kept_machine).1
        ≡ (apply (entry_list one_word) (write "a" 1) entry_machine).1)
apply-Refines_example = apply-Refines one_word (write "a" 1) kept_machine entry_machine start_alike

apply_all-Refines_example :
    Refines
      (apply_all (kept_list one_word) (write "a" 1 ∷ others) kept_machine)
      (apply_all (entry_list one_word) (write "a" 1 ∷ others) entry_machine)
apply_all-Refines_example =
    apply_all-Refines one_word (write "a" 1 ∷ others) kept_machine entry_machine start_alike

abbrev list_root : SnapshotRoot (List (Text × Text))
list_root = record {
  snapshot = some ((codes "a", codes "a") ∷ []);
  deduplication_kind = some json_object;
  deduplication = [];
}

restore-Refines_example :
    (c : KvStateMachine Kept) × (a : KvStateMachine Entries) × (restore
        (kept_list one_word)
        list_root
        kept_machine
      ≡ some c)
    × (restore (entry_list one_word) list_root entry_machine ≡ some a)
    × Refines c a
restore-Refines_example =
    restore-Refines one_word list_root ((codes "a", codes "a") ∷ []) json_object kept_machine
      entry_machine refl refl start_alike refl

abbrev write_a : Op
write_a = record { operation = "PUT"; key = "a"; value = "a"; client_id = "c"; request_id = 1 }

abbrev kept_a : KvStateMachine Kept
kept_a = (apply (kept_list one_word) write_a kept_machine).0

abbrev entries_a : KvStateMachine Entries
entries_a = (apply (entry_list one_word) write_a entry_machine).0

back_a : All (λ e. IsReadBack one_word e.0 × IsReadBack one_word e.1) entries_a.kv
unfolding apply respond recorded_reply covered execute codes put_entry
back_a = ((refl, refl), tt)

recorded_a :
    client_records ("c" ∷ []) kept_a.dedup
    ≡ (
      "c",
      record {
        last_request_id = 1;
        last_reply_msg = (execute (kept_list one_word) write_a kept_machine.kv).0;
      },
    )
      ∷ []
unfolding client_records apply respond recorded_reply covered
recorded_a = refl

-- A snapshot of the machine before any command.
abbrev bare_root : SnapshotRoot (List (Text × Text))
bare_root = record { snapshot = some []; deduplication_kind = none; deduplication = [] }

restore-snapshot_example :
    (root : SnapshotRoot (List (Text × Text))) × (snapshot ("c" ∷ []) kept_a ≡ some root)
    × (r : KvStateMachine Kept) × (restore (kept_list one_word) root kept_machine ≡ some r)
    × Keeps r.kv entries_a.kv
    × (r.dedup ≡ kept_machine.dedup)
restore-snapshot_example =
    restore-snapshot one_word ("c" ∷ []) kept_a kept_machine entries_a
      (apply-Refines one_word write_a kept_machine entry_machine start_alike).0
      (new_list-Represents string_order "" "" 2) back_a _ [] recorded_a
