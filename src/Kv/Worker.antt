-- ===== src/Kv/Worker.antt =====
-- Server/KVServer.cc: the worker that takes what the node has applied off the queue, and the calls
-- of a reactor.
use raft_storage.Common.{
  ℕ, ◌+◌, String, Bool, Option, some, List, [], ◌∷◌, leb, if◌then◌else◌, ◌>>=◌,
}
use raft_storage.Kv.Machine.{SkipListOps, KvStateMachine, Op, SnapshotRoot, apply, restore}
use raft_storage.Kv.Pending.{Pending, complete_pending}
use raft_storage.Raft.State.{command_msg, snapshot_msg, ApplyMsg}

-- The server's state that the worker changes. `checked` is its `appliedSinceSnapshotCheck`, and
-- `snapshots` are its calls of `Raft::snapshot`, the newest first: the index, and the machine whose
-- text is handed over.
pub record KvServer (S : Type 0) : Type 0 where
  pub machine : KvStateMachine S
  pub pending : Pending
  pub checked : ℕ
  pub last_applied : ℕ
  pub snapshots : List (ℕ × KvStateMachine S)

module _ {S J : Type 0} (list : SkipListOps S J) (parse_command : String → Option Op)
    (parse_snapshot : String → SnapshotRoot J) (need_snapshot : ℕ → Bool) where
  -- `need_snapshot` is the node's answer to `Raft::needSnapshot`.
  unfoldable pub maybe_snapshot : ℕ → KvServer S → KvServer S
  maybe_snapshot index s =
      let s' = record s { last_applied = index } in
      if need_snapshot index then record s' { snapshots = (index, s.machine) ∷ s.snapshots } else s'

  -- `if (msg.CommandIndex_ - appliedSinceSnapshotCheck >= 50)`
  unfoldable pub check_snapshot : ℕ → KvServer S → KvServer S
  check_snapshot index s =
      if leb (s.checked + 50) index then maybe_snapshot index (record s { checked = index }) else s

  -- One message of the apply queue; `none` is an exception of the JSON library.
  unfoldable pub apply_message : ApplyMsg → KvServer S → Option (KvServer S)
  apply_message (command_msg command index term) s = do
    op ← parse_command command
    let r = apply list op s.machine
    some (
        check_snapshot index
          (record s { machine = r.0; pending = complete_pending index term r.1 s.pending }))
  apply_message (snapshot_msg text index term) s = do
    m ← restore list (parse_snapshot text) s.machine
    some (record s { machine = m })

  unfoldable pub apply_messages : List ApplyMsg → KvServer S → Option (KvServer S)
  apply_messages [] s = some s
  apply_messages (x ∷ xs) s = do s' ← apply_message x s; apply_messages xs s'
