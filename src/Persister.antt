-- ===== src/Persister.antt =====
-- Raft/Persister.cc: the two files of a node. The JSON library is not part of the model: a state
-- file holds the JSON value that was written, and a snapshot file the text that was written.
use raft_storage.Common.{ℕ, ◌+◌, String, Option, none, some, List}
use raft_storage.Log.{LogEntry}

-- The JSON object of `persistData`, with its five members.
pub record RaftState : Type 0 where
  pub current_term : ℕ
  pub voted_for : Option ℕ
  pub last_include_snapshot_index : ℕ
  pub last_include_snapshot_term : ℕ
  pub logs : List LogEntry

-- `none` is an empty file.
pub record Persister : Type 0 where
  pub raft_state_file : Option RaftState
  pub snap_shot_file : Option String
  pub raft_state_size : ℕ
  pub snapshot_size : ℕ

-- `json::size` of the object: its number of members.
abbrev pub raft_state_members : ℕ
raft_state_members = 5

-- The constructor opens both files with `trunc`, whatever they held.
unfoldable pub open_persister : Persister → Persister
open_persister disk = record {
  raft_state_file = none;
  snap_shot_file = none;
  raft_state_size = 0;
  snapshot_size = 0;
}

unfoldable pub clear_raft_state : Persister → Persister
clear_raft_state p = record p { raft_state_size = 0; raft_state_file = none }

unfoldable pub clear_snap_shot : Persister → Persister
clear_snap_shot p = record p { snap_shot_file = none }

unfoldable pub save_raft_state : RaftState → Persister → Persister
unfolding clear_raft_state
save_raft_state v p =
    let cleared = clear_raft_state p in
    record cleared {
      raft_state_file = some v;
      raft_state_size = cleared.raft_state_size + raft_state_members;
    }

-- `json_size` is the library's `json::size` of the parsed snapshot.
unfoldable pub save : (String → ℕ) → RaftState → String → Persister → Persister
unfolding clear_raft_state clear_snap_shot
save json_size v snap p =
    let cleared = clear_snap_shot (clear_raft_state p) in
    record cleared {
      raft_state_file = some v;
      raft_state_size = cleared.raft_state_size + raft_state_members;
      snap_shot_file = some snap;
      snapshot_size = cleared.snapshot_size + json_size snap;
    }

-- `none` is the empty string.
unfoldable pub read_raft_state : Persister → Option RaftState
read_raft_state p = p.raft_state_file

-- `none` is the exception of the JSON library on an empty file, which nothing catches.
unfoldable pub read_snap_shot : Persister → Option String
read_snap_shot p = p.snap_shot_file
