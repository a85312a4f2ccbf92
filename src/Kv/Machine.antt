-- ===== src/Kv/Machine.antt =====
-- Server/KVServer.cc: `KVStateMachine`. The skip list is an interface, and so is the JSON library
-- where a snapshot is loaded.
use raft_storage.Common.{
  ℕ, String, Bool, true, false, ◌&&◌, Option, none, some, List, [], ◌∷◌, leb, if◌then◌else◌, ◌>>=◌,
  same_text,
}

-- `Op` of include/Util.h
pub record Op : Type 0 where
  pub operation : String
  pub key : String
  pub value : String
  pub client_id : String
  pub request_id : ℕ

pub record ClientRecord : Type 0 where
  pub last_request_id : ℕ
  pub last_reply_msg : String

pub record ApplyResult : Type 0 where
  pub client_id : String
  pub request_id : ℕ
  pub reply_msg : String
  pub get_reply : String

abbrev pub put : String
put = "PUT"

abbrev pub del : String
del = "DEL"

abbrev pub success_msg : String
success_msg = "Success"

abbrev pub execute_error_msg : String
execute_error_msg = "ExecuteError"

-- The operations of `SkipList` that the state machine calls, on a list `S` and a JSON value `J`.
-- `none` is an exception.
pub record SkipListOps (S J : Type 0) : Type 0 where
  pub insert : String → String → S → Bool × S
  pub erase : String → S → Bool × S
  pub load_from_json : J → S → Option S

pub record KvStateMachine (S : Type 0) : Type 0 where
  pub kv : S
  pub dedup : String → Option ClientRecord

abbrev pub set_record :
    (String → Option ClientRecord) → String → ClientRecord → String → Option ClientRecord
set_record f client r c = if same_text client c then some r else f c

-- The reply of a record, if the request is not newer than it.
unfoldable pub covered : Op → Option ClientRecord → Option String
covered op none = none
covered op (some r) = if leb op.request_id r.last_request_id then some r.last_reply_msg else none

unfoldable pub recorded_reply : Op → (String → Option ClientRecord) → Option String
recorded_reply op dedup = covered op (dedup op.client_id)

-- The kind of a JSON value.
pub data JsonKind : Type 0 where
  json_null json_boolean json_number json_string json_array json_object : JsonKind

abbrev pub is_array : JsonKind → Bool
is_array json_array = true
is_array _ = false

abbrev pub is_object : JsonKind → Bool
is_object json_object = true
is_object _ = false

-- The members of a snapshot that `restore` reads; `none` is a member that is missing.
pub record SnapshotRoot (J : Type 0) : Type 0 where
  pub snapshot : Option J
  pub deduplication_kind : Option JsonKind
  pub deduplication : List (String × ClientRecord)

-- `emplace` keeps the first entry of a key.
unfoldable pub emplace :
    String → ClientRecord → (String → Option ClientRecord) → String → Option ClientRecord
emplace client r f = elim (f client) [ none ↦ set_record f client r | some x ↦ f ]

unfoldable pub emplace_all :
    List (String × ClientRecord) → (String → Option ClientRecord) → String → Option ClientRecord
emplace_all [] f = f
emplace_all ((client, r) ∷ rest) f = emplace_all rest (emplace client r f)

module _ {S J : Type 0} (list : SkipListOps S J) where
  -- The reply and the list after a command; other operations leave both alone.
  unfoldable pub execute : Op → S → String × S
  execute op kv =
      let inserted = list.insert op.key op.value kv in
      let erased = list.erase op.key kv in
      if same_text op.operation put
      then ((if inserted.0 then success_msg else execute_error_msg), inserted.1)
      else (if same_text op.operation del
          then ((if erased.0 then success_msg else execute_error_msg), erased.1)
          else ("", kv))

  unfoldable pub reply_of : Op → String → ApplyResult
  reply_of op msg = record {
    client_id = op.client_id;
    request_id = op.request_id;
    reply_msg = msg;
    get_reply = "";
  }

  -- A recorded reply is given again; else the command runs and its reply is recorded.
  unfoldable pub respond : Op → KvStateMachine S → Option String → KvStateMachine S × ApplyResult
  respond op m (some msg) = (m, reply_of op msg)
  respond op m none =
      let done = execute op m.kv in
      (
        record {
          kv = done.1;
          dedup =
              set_record m.dedup op.client_id
                (record { last_request_id = op.request_id; last_reply_msg = done.0 });
        },
        reply_of op done.0,
      )

  unfoldable pub apply : Op → KvStateMachine S → KvStateMachine S × ApplyResult
  apply op m = respond op m (recorded_reply op m.dedup)

  -- The commands of the log, one after the other.
  unfoldable pub apply_all : List Op → KvStateMachine S → KvStateMachine S
  apply_all [] m = m
  apply_all (op ∷ ops) m = apply_all ops (apply op m).0

  -- `operator[]` of a constant object asserts that the member is there.
  unfoldable pub restore : SnapshotRoot J → KvStateMachine S → Option (KvStateMachine S)
  restore root m = do
    snapshot ← root.snapshot
    kv ← list.load_from_json snapshot m.kv
    kind ← root.deduplication_kind
    some (
        if is_array kind && is_object kind
        then record { kv = kv; dedup = emplace_all root.deduplication (λ c. none) }
        else record m { kv = kv })
