-- ===== src/Kv/Once.antt =====
-- A retried command takes effect once: the deduplication of Server/KVServer.cc.
use raft_storage.Common.{
  same_text, same_text→eq, same_text_refl, String, ◌≡◌, refl, sym, ap, ◌∙◌, inl, inr, Bool, true,
  false, ◌&&◌, Option, none, some, List, [], ◌∷◌, arith, if◌then◌else◌, le→leb, Bool-cases,
  Option-cases, is_some, >>=-eq-some, All,
}
use raft_storage.Kv.Machine.{
  json_null, json_boolean, json_number, json_string, json_array, json_object, SkipListOps,
  recorded_reply, Op, restore, apply, apply_all, KvStateMachine, SnapshotRoot, ClientRecord,
  execute, reply_of, set_record, respond, JsonKind, is_array, is_object, emplace_all, covered,
}

abbrev is_recorded : Op → (String → Option ClientRecord) → Bool
is_recorded op dedup = is_some (recorded_reply op dedup)

-- The record that a command leaves.
abbrev left_by : Op → String → ClientRecord
left_by op msg = record { last_request_id = op.request_id; last_reply_msg = msg }

set_record_at :
    (dedup : String → Option ClientRecord) (client c : String) (r : ClientRecord)
    → same_text client c ≡ true
    → set_record dedup client r c ≡ some r
set_record_at dedup client c r h = ap (λ b. if b then some r else dedup c) h

set_record_off :
    (dedup : String → Option ClientRecord) (client c : String) (r : ClientRecord)
    → same_text client c ≡ false
    → set_record dedup client r c ≡ dedup c
set_record_off dedup client c r h = ap (λ b. if b then some r else dedup c) h

covered_older :
    (op o : Op) (found : Option ClientRecord) (msg : String)
    → is_some (covered op found) ≡ true
    → covered o found ≡ none
    → is_some (covered op (some (left_by o msg))) ≡ true
unfolding covered
covered_older op o none msg h k = cc
covered_older op o (some r) msg h k = ground arith

-- A new record of the client covers what an older record covered.
set_record_keeps :
    (op o : Op) (dedup : String → Option ClientRecord) (msg : String)
    → is_recorded op dedup ≡ true
    → recorded_reply o dedup ≡ none
    → is_recorded op (set_record dedup o.client_id (left_by o msg)) ≡ true
unfolding recorded_reply
set_record_keeps op o dedup msg h k = elim (Bool-cases (same_text o.client_id op.client_id)) [
  | inr other ↦ ap (λ x. is_some (covered op x)) (set_record_off dedup _ _ _ other) ∙ h
  | inl same ↦
      let e = same_text→eq o.client_id op.client_id same in
      ap (λ x. is_some (covered op x)) (set_record_at dedup _ _ _ same)
      ∙ covered_older op o (dedup op.client_id) msg h (ap (λ c. covered o (dedup c)) (sym e) ∙ k)
]

-- The record that a command leaves answers the command.
set_record_self :
    (op : Op) (dedup : String → Option ClientRecord) (msg : String)
    → recorded_reply op (set_record dedup op.client_id (left_by op msg)) ≡ some msg
unfolding recorded_reply covered
set_record_self op dedup msg =
    ap (covered op) (set_record_at dedup _ _ _ (same_text_refl op.client_id))
    ∙ rw (le→leb op.request_id op.request_id (omega arith)) refl

-- A record of another client is no answer.
set_record_other :
    (op o : Op) (dedup : String → Option ClientRecord) (msg : String)
    → same_text o.client_id op.client_id ≡ false
    → recorded_reply op (set_record dedup o.client_id (left_by o msg)) ≡ recorded_reply op dedup
unfolding recorded_reply
set_record_other op o dedup msg h = ap (covered op) (set_record_off dedup _ _ _ h)

module _ {S J : Type 0} (list : SkipListOps S J) where
  apply_recorded :
      (op : Op) (m : KvStateMachine S)
      → recorded_reply op (apply list op m).0.dedup ≡ some (apply list op m).1.reply_msg
  unfolding apply respond reply_of
  apply_recorded op m = elim (Option-cases (recorded_reply op m.dedup)) [
    | inl fresh ↦ rw fresh (set_record_self op m.dedup (execute list op m.kv).0)
    | inr (msg, old) ↦ rw old old
  ]

  apply_keeps :
      (op o : Op) (m : KvStateMachine S)
      → is_recorded op m.dedup ≡ true
      → is_recorded op (apply list o m).0.dedup ≡ true
  unfolding apply respond
  apply_keeps op o m h = elim (Option-cases (recorded_reply o m.dedup)) [
    | inl fresh ↦ rw fresh (set_record_keeps op o m.dedup (execute list o m.kv).0 h fresh)
    | inr (msg, old) ↦ rw old h
  ]

  apply_all_keeps :
      (op : Op) (ops : List Op) (m : KvStateMachine S)
      → is_recorded op m.dedup ≡ true
      → is_recorded op (apply_all list ops m).dedup ≡ true
  unfolding apply_all
  apply_all_keeps op [] m h = h
  apply_all_keeps op (o ∷ ops) m h = apply_all_keeps op ops _ (apply_keeps op o m h)

  -- A recorded command changes nothing.
  apply_old :
      (op : Op) (m : KvStateMachine S) → is_recorded op m.dedup ≡ true → (apply list op m).0 ≡ m
  unfolding apply respond
  apply_old op m h = elim (Option-cases (recorded_reply op m.dedup)) [
    | inl fresh ↦ let h' = rw fresh at h in cc h'
    | inr (msg, old) ↦ rw old refl
  ]

  -- A command that is applied again, after any other commands, changes nothing: neither the list
  -- nor a record of a client.
  pub apply_once :
      (op : Op) (ops : List Op) (m : KvStateMachine S)
      → let later = apply_all list ops (apply list op m).0 in (apply list op later).0 ≡ later
  apply_once op ops m = apply_old op _ (apply_all_keeps op ops _ (ap is_some (apply_recorded op m)))

  apply_other :
      (op o : Op) (m : KvStateMachine S)
      → same_text o.client_id op.client_id ≡ false
      → recorded_reply op (apply list o m).0.dedup ≡ recorded_reply op m.dedup
  unfolding apply respond
  apply_other op o m h = elim (Option-cases (recorded_reply o m.dedup)) [
    | inl fresh ↦ rw fresh (set_record_other op o m.dedup (execute list o m.kv).0 h)
    | inr (msg, old) ↦ rw old refl
  ]

  apply_all_other :
      (op : Op) (ops : List Op) (m : KvStateMachine S)
      → All (λ o. same_text o.client_id op.client_id ≡ false) ops
      → recorded_reply op (apply_all list ops m).dedup ≡ recorded_reply op m.dedup
  unfolding apply_all
  apply_all_other op [] m h = refl
  apply_all_other op (o ∷ ops) m h = apply_all_other op ops _ h.1 ∙ apply_other op o m h.0

  apply_replied :
      (op : Op) (m : KvStateMachine S) (msg : String)
      → recorded_reply op m.dedup ≡ some msg
      → (apply list op m).1 ≡ reply_of list op msg
  unfolding apply respond
  apply_replied op m msg h = rw h refl

  -- The reply that a command gives is the recorded one.
  apply_reply :
      (op : Op) (m : KvStateMachine S)
      → reply_of list op (apply list op m).1.reply_msg ≡ (apply list op m).1
  unfolding apply respond reply_of
  apply_reply op m = elim (Option-cases (recorded_reply op m.dedup)) [
    | inl fresh ↦ rw fresh refl
    | inr (msg, old) ↦ rw old refl
  ]

  -- As long as only other clients' commands lie between, the repeated command has the reply of the
  -- first one.
  pub apply-replays :
      (op : Op) (ops : List Op) (m : KvStateMachine S)
      → All (λ o. same_text o.client_id op.client_id ≡ false) ops
      → (apply list op (apply_all list ops (apply list op m).0)).1 ≡ (apply list op m).1
  apply-replays op ops m h =
      apply_replied op _ _ (apply_all_other op ops _ h ∙ apply_recorded op m) ∙ apply_reply op m

-- A snapshot never restores the records of the clients: the test of `restore` wants a JSON value
-- that is an array and an object, so the records stay those from before.
pub restore-keeps :
    {S J : Type 0} (list : SkipListOps S J) (root : SnapshotRoot J) (m m' : KvStateMachine S)
    → restore list root m ≡ some m'
    → m'.dedup ≡ m.dedup
unfolding restore
restore-keeps {S} list root m m' h =
    let (snapshot, _, h') = >>=-eq-some root.snapshot _ h in
    let (kv, _, h'') = >>=-eq-some (list.load_from_json snapshot m.kv) _ h' in
    let (kind, _, r) = >>=-eq-some root.deduplication_kind _ h'' in go kv kind r
  where
    go :
        (kv : S) (k : JsonKind)
        → some (
            if is_array k && is_object k
            then record { kv = kv; dedup = emplace_all root.deduplication (λ c. none) }
            else record m { kv = kv })
          ≡ some m'
        → m'.dedup ≡ m.dedup
    go kv json_array r = cc
    go kv json_null r = cc
    go kv json_boolean r = cc
    go kv json_number r = cc
    go kv json_string r = cc
    go kv json_object r = cc
