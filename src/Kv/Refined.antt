-- ===== src/Kv/Refined.antt =====
-- The state machine over the skip list against the state machine over a sorted list of keys and values.
use raft_storage.Common.{
  same_text, String, ◌≡◌, refl, ap, subst, ◌∙◌, inl, inr, true, ◌&&◌, none, some, List, [], ◌∷◌,
  Bool-cases, Option-cases, is_some,
}
use raft_storage.SkipList.Streams.{Streamed, Text}
use raft_storage.SkipList.Assoc.{put as put_entry, del as del_entry, look}
use raft_storage.SkipList.Find.{Represents}
use raft_storage.Kv.Machine.{
  put, del, SkipListOps, KvStateMachine, Op, apply, apply_all, respond, execute, restore,
  recorded_reply, SnapshotRoot, set_record, reply_of, emplace_all, is_array, is_object, JsonKind,
}
use raft_storage.Kv.Listed.{
  Kept, kept_list, string_order, string_order-IsTotal, erase_kept, insert_kept, load_kept,
}
use raft_storage.SkipList.Reload.{put_all, read_members, load_from_json_lem}
use raft_storage.SkipList.Removal.{erase_lem}
use raft_storage.SkipList.Insertion.{insert_lem}

abbrev pub Entries : Type 0
Entries = List (String × String)

-- The list is defined and stands for the entries.
abbrev pub Keeps : Kept → Entries → Type 0
Keeps none m = ⊥
Keeps (some (draws, s)) m = Represents string_order s m

-- The two machines have the same entries and the same records of the clients.
abbrev pub Refines : KvStateMachine Kept → KvStateMachine Entries → Type 0
Refines c a = Keeps c.kv a.kv × (c.dedup ≡ a.dedup)

module _ (texts : Streamed String) where
  -- The abstract operations.
  abbrev pub entry_list : SkipListOps Entries (List (Text × Text))
  entry_list = record {
    insert = λ k v m. (true, put_entry string_order k v m);
    erase = λ k m. (is_some (look string_order k m), del_entry string_order k m);
    load_from_json = λ members m. some (put_all string_order (read_members texts texts members) []);
  }

  insert-Keeps :
      (k v : String) (kv : Kept) (m : Entries)
      → Keeps kv m
      → let r = (kept_list texts).insert k v kv in
        (r.0 ≡ true) × Keeps r.1 (put_entry string_order k v m)
  unfolding insert_kept
  insert-Keeps k v none m h = absurd h
  insert-Keeps k v (some (draws, s)) m h =
      let (t, run, r) = insert_lem string_order string_order-IsTotal s m (draws 0) k v h in
      rw run (refl, r)

  erase-Keeps :
      (k : String) (kv : Kept) (m : Entries)
      → Keeps kv m
      → let r = (kept_list texts).erase k kv in
        (r.0 ≡ is_some (look string_order k m)) × Keeps r.1 (del_entry string_order k m)
  unfolding erase_kept
  erase-Keeps k none m h = absurd h
  erase-Keeps k (some (draws, s)) m h =
      let (t, run, r) = erase_lem string_order string_order-IsTotal s m k h in rw run (refl, r)

  execute-Keeps :
      (op : Op) (kv : Kept) (m : Entries)
      → Keeps kv m
      → let c = execute (kept_list texts) op kv in
        let a = execute entry_list op m in (c.0 ≡ a.0) × Keeps c.1 a.1
  unfolding execute
  execute-Keeps op kv m h =
      let (ok, kept) = insert-Keeps op.key op.value kv m h in
      let (ok', kept') = erase-Keeps op.key kv m h in
      elim (Bool-cases (same_text op.operation put)) [
        | inl write ↦ rw (write, ok) (refl, kept)
        | inr other ↦ elim (Bool-cases (same_text op.operation del)) [
          | inl remove ↦ rw (other, remove, ok') (refl, kept')
          | inr read ↦ rw (other, read) (refl, h)
        ]
      ]

  -- A command gives the same answer on both machines, and leaves them with the same entries and the
  -- same records.
  pub apply-Refines :
      (op : Op) (c : KvStateMachine Kept) (a : KvStateMachine Entries)
      → Refines c a
      → Refines (apply (kept_list texts) op c).0 (apply entry_list op a).0
        × ((apply (kept_list texts) op c).1 ≡ (apply entry_list op a).1)
  unfolding apply respond reply_of
  apply-Refines op c a (kept, same) =
      let (answer, kept') = execute-Keeps op c.kv a.kv kept in
      let recorded = ap (recorded_reply op) same in
      elim (Option-cases (recorded_reply op a.dedup)) [
        | inr (msg, old) ↦ rw (recorded, old) ((kept, same), refl)
        | inl fresh ↦
            rw (recorded, fresh)
              (
                (
                  kept',
                  ap
                        (λ d. set_record d op.client_id (record {
                          last_request_id = op.request_id;
                          last_reply_msg = (execute (kept_list texts) op c.kv).0;
                        }))
                        same
                      ∙ ap
                          (λ r.
                            set_record a.dedup op.client_id
                              (record { last_request_id = op.request_id; last_reply_msg = r }))
                          answer,
                ),
                ap (reply_of (kept_list texts) op) answer,
              )
      ]

  -- So does every log of commands.
  pub apply_all-Refines :
      (ops : List Op) (c : KvStateMachine Kept) (a : KvStateMachine Entries)
      → Refines c a
      → Refines (apply_all (kept_list texts) ops c) (apply_all entry_list ops a)
  unfolding apply_all
  apply_all-Refines [] c a h = h
  apply_all-Refines (op ∷ ops) c a h = apply_all-Refines ops _ _ (apply-Refines op c a h).0

  pub load-Keeps :
      (members : List (Text × Text)) (kv : Kept)
      → Keeps kv []
      → Keeps
          (load_kept texts members kv)
          (put_all string_order (read_members texts texts members) [])
  unfolding load_kept
  load-Keeps members none h = absurd h
  load-Keeps members (some (draws, s)) h =
      let (t, run, r) =
        load_from_json_lem texts texts string_order string_order-IsTotal draws members s h in
      rw run r

  -- A snapshot with both its members restored into machines without entries gives both the same entries and records.
  pub restore-Refines :
      (root : SnapshotRoot (List (Text × Text))) (members : List (Text × Text)) (kind : JsonKind)
      (c : KvStateMachine Kept) (a : KvStateMachine Entries)
      → root.snapshot ≡ some members
      → root.deduplication_kind ≡ some kind
      → Refines c a
      → a.kv ≡ []
      → (c' : KvStateMachine Kept) × (a' : KvStateMachine Entries) × (restore
            (kept_list texts)
            root
            c
          ≡ some c')
        × (restore entry_list root a ≡ some a')
        × Refines c' a'
  unfolding restore
  restore-Refines root members kind c a given kinded (kept, same) e =
      let kept' = load-Keeps members c.kv (subst (Keeps c.kv) e kept) in
      let all = emplace_all root.deduplication (λ client. none) in
      let kv = load_kept texts members c.kv in
      let kv' = put_all string_order (read_members texts texts members) [] in
      elim (Bool-cases (is_array kind && is_object kind)) [
        | inl both ↦ (
          record { kv = kv; dedup = all },
          record { kv = kv'; dedup = all },
          rw (given, kinded, both) refl,
          rw (given, kinded, both) refl,
          (kept', refl),
        )
        | inr other ↦ (
          record c { kv = kv },
          record a { kv = kv' },
          rw (given, kinded, other) refl,
          rw (given, kinded, other) refl,
          (kept', same),
        )
      ]
