-- ===== src/Raft/Snapshot.antt =====
-- Raft/Raft.cc: snapshots, made here and received from the leader.
use raft_storage.Common.{
  ℕ, ◌-◌, max, String, Bool, false, ◌&&◌, ◌||◌, Option, none, some, List, [], ◌∷◌, ◌++◌, ltb, leb,
  ◌==◌, if◌then◌else◌, ◌>>=◌,
}
use raft_storage.Log.{Log, LogEntry, get_last_log_index, get_log_term_from_index, erase_through}
use raft_storage.Persister.{save}
use raft_storage.Raft.State.{Raft, Env, InstallSnapshotArgs, snapshot_msg, snapshot_reply}
use raft_storage.Raft.Role.{emit, persist_data}
use raft_storage.Raft.Election.{meet_term}
use raft_storage.Raft.Append.{hear_leader}

-- include/Config.h
abbrev pub snapshot_threshold : ℕ
snapshot_threshold = 1000

-- The difference of the source may be negative and is then below the threshold.
unfoldable pub need_snapshot : ℕ → Raft → Bool
need_snapshot last_applied s =
    leb snapshot_threshold (s.commit_index - s.log.last_include_index)
    && ltb s.log.last_include_index last_applied

unfoldable pub reply_snapshot : ℕ → Raft → Raft
reply_snapshot server s =
    if s.is_responder server then emit (snapshot_reply server s.current_term) s else s

-- Whether the own log already reaches past the snapshot, with its term there.
unfoldable pub keep_suffix : Log → ℕ → ℕ → Option Bool
keep_suffix l index term =
    if leb index (get_last_log_index l) && leb l.last_include_index index
    then (do t ← get_log_term_from_index l index; some (t == term))
    else some false

unfoldable pub remaining : Log → ℕ → ℕ → Option (List LogEntry)
remaining l index term = do
  keep ← keep_suffix l index term
  if keep && ltb index (get_last_log_index l) then erase_through l index else some []

module _ (e : Env) where
  unfoldable pub persist_snapshot : String → Raft → Raft
  persist_snapshot snap s = record s {
    persister = save e.json_size (persist_data s) snap s.persister;
  }

  unfoldable pub install : InstallSnapshotArgs → Raft → Option Raft
  install request s = do
    let index = request.last_snapshot_include_index
    let term = request.last_snapshot_include_term
    logs ← remaining s.log index term
    let s' = persist_snapshot request.snapshot (record s {
      log = record { logs = logs; last_include_index = index; last_include_term = term };
      commit_index = max s.commit_index index;
      last_applied = max s.last_applied index;
    })
    -- `json::parse` throws on any other text, and nothing catches it.
    if e.parses request.snapshot
        then some (record s' {
          apply_queue = s'.apply_queue ++ (snapshot_msg request.snapshot index term ∷ []);
        })
        else none

  unfoldable pub handle_install_snapshot : InstallSnapshotArgs → ℕ → Raft → Option Raft
  handle_install_snapshot request server s =
      let s' = meet_term e request.term s in
      let s'' = hear_leader e s' in
      if ltb request.term s'.current_term
      then some (reply_snapshot server s')
      else (if ltb s''.log.last_include_index request.last_snapshot_include_index
          then (do r ← install request s''; some (reply_snapshot server r))
          else some (reply_snapshot server s''))

  -- `json::parse` of the own snapshot, in `Persister::save`, throws on other texts than JSON.
  unfoldable pub do_snapshot : ℕ → String → Raft → Option Raft
  do_snapshot index snap s =
      if leb index s.log.last_include_index || ltb s.commit_index index then some s else (do
        term ← get_log_term_from_index s.log index
        logs ← erase_through s.log index
        let s' = persist_snapshot snap (record s {
          log = record { logs = logs; last_include_index = index; last_include_term = term };
          last_applied = max s.last_applied index;
        })
        if e.parses snap then some s' else none)
