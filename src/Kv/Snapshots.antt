-- ===== src/Kv/Snapshots.antt =====
-- Server/KVServer.cc: `KVStateMachine::snapshot`, and its `restore` at another server.
use raft_storage.Common.{
  codes, String, ◌≡◌, refl, ap, subst, ◌∙◌, Option, none, some, List, [], ◌∷◌, ◌>>=◌, All,
}
use raft_storage.SkipList.Streams.{Streamed, Text}
use raft_storage.Kv.Machine.{
  SnapshotRoot, KvStateMachine, ClientRecord, restore, JsonKind, json_object,
}
use raft_storage.Kv.Listed.{Kept, kept_list, string_order, string_order-IsTotal, load_kept}
use raft_storage.Kv.Refined.{Refines, Entries, Keeps, load-Keeps}
use raft_storage.SkipList.Reload.{read_members, put_all, put_all_lem}
use raft_storage.SkipList.Dump.{dump_to_json}
use raft_storage.SkipList.Walks.{dump_to_json_lem}
use raft_storage.SkipList.Assoc.{IsSorted}

-- The members of the object that `dumpToJson` gives.
unfoldable pub json_members : List (String × String) → List (Text × Text)
json_members [] = []
json_members (e ∷ m) = (codes e.0, codes e.1) ∷ json_members m

unfoldable pub dump_kept : Kept → Option (List (Text × Text))
dump_kept none = none
dump_kept (some (draws, s)) = do m ← dump_to_json s; some (json_members m)

-- The records of the clients, in the order in which the map is walked.
unfoldable pub client_records :
    List String → (String → Option ClientRecord) → List (String × ClientRecord)
client_records [] dedup = []
client_records (client ∷ clients) dedup =
    let rest = client_records clients dedup in
    elim (dedup client) [ none ↦ rest | some r ↦ (client, r) ∷ rest ]

-- Without a record there is no member for them.
abbrev pub records_kind : List (String × ClientRecord) → Option JsonKind
records_kind [] = none
records_kind (r ∷ rs) = some json_object

unfoldable pub snapshot :
    List String → KvStateMachine Kept → Option (SnapshotRoot (List (Text × Text)))
snapshot clients m =
    let records = client_records clients m.dedup in
    do
      members ← dump_kept m.kv
      some (record {
        snapshot = some members;
        deduplication_kind = records_kind records;
        deduplication = records;
      })

dump_kept-Keeps : (kv : Kept) (m : Entries) → Keeps kv m → dump_kept kv ≡ some (json_members m)
unfolding dump_kept
dump_kept-Keeps none m h = absurd h
dump_kept-Keeps (some (draws, s)) m h = rw (dump_to_json_lem string_order s m h) refl

Keeps-IsSorted : (kv : Kept) (m : Entries) → Keeps kv m → IsSorted string_order m
Keeps-IsSorted none m h = absurd h
Keeps-IsSorted (some (draws, s)) m h = h.sorted

module _ (texts : Streamed String) where
  -- What a text is written as is read as the same text.
  abbrev pub IsReadBack : String → Type 0
  IsReadBack text = texts.scan (codes text) ≡ some text

  members_back :
      (m : Entries)
      → All (λ e. IsReadBack e.0 × IsReadBack e.1) m
      → read_members texts texts (json_members m) ≡ m
  unfolding json_members
  members_back [] h = refl
  members_back (e ∷ m) h = rw (h.0.0, h.0.1) (ap (◌∷◌ e) (members_back m h.1))

  -- A snapshot of a machine with the record of at least one client, restored by a machine that has no
  -- entries, gives all entries, if their keys and values are read back as they are written; the
  -- records of the clients are not restored.
  pub restore-snapshot :
      (clients : List String) (c r : KvStateMachine Kept) (a : KvStateMachine Entries)
      → Refines c a
      → Keeps r.kv []
      → All (λ e. IsReadBack e.0 × IsReadBack e.1) a.kv
      → (first : String × ClientRecord) (others : List (String × ClientRecord))
      → client_records clients c.dedup ≡ first ∷ others
      → (root : SnapshotRoot (List (Text × Text))) × (snapshot clients c ≡ some root)
        × (r' : KvStateMachine Kept) × (restore (kept_list texts) root r ≡ some r')
        × Keeps r'.kv a.kv
        × (r'.dedup ≡ r.dedup)
  unfolding snapshot restore
  restore-snapshot clients c r a (kept, same) empty back first others found =
      let records = client_records clients c.dedup in
      let dumped = dump_kept-Keeps c.kv a.kv kept in
      let whole =
        ap (λ es. put_all string_order es []) (members_back a.kv back)
        ∙ put_all_lem string_order string_order-IsTotal a.kv (Keeps-IsSorted c.kv a.kv kept) in
      let loaded = load-Keeps texts (json_members a.kv) r.kv empty in
      let kind : records_kind records ≡ some json_object = ap records_kind found in
      (
        record {
          snapshot = some (json_members a.kv);
          deduplication_kind = records_kind records;
          deduplication = records;
        },
        rw dumped refl,
        record r { kv = load_kept texts (json_members a.kv) r.kv },
        rw kind refl,
        subst (Keeps (load_kept texts (json_members a.kv) r.kv)) whole loaded,
        refl,
      )
