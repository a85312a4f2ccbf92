-- ===== src/Raft/Valid/Requests.antt =====
-- What a valid leader sends is what a follower relies on.
use raft_storage.Common.{
  ℕ, suc, ◌+◌, ◌-◌, ◌≤◌, ◌<◌, ◌≡◌, refl, true, false, none, some, arith, ◌==◌, length, drop,
  length-drop, contains,
}
use raft_storage.Raft.Replication.{build_append_entries, get_prev_log_info, is_leader}
use raft_storage.Raft.State.{Raft, AppendEntriesArgs, Config}
use raft_storage.Log.{get_log_term_from_index}
use raft_storage.Raft.Valid.{Valid, last_of, All_at, Tracks, Valid-last}
use raft_storage.Log.Shape.{Consecutive, get_log_term_in, Consecutive-at, Consecutive-drop}
use raft_storage.Raft.Frame.{core}

-- A request as the log of its sender gives it: it stands on the sender's own entry, its entries
-- are the sender's own entries behind that one, commands and terms included, index by index up to
-- its last one; it tells the sender's commit index, which they cover.
pub record FromLog (s : Raft) (r : AppendEntriesArgs) : Type 0 where
  pub term : r.term ≡ s.current_term
  pub before : get_log_term_from_index s.log r.prev_log_index ≡ some (r.prev_log_term)
  pub consecutive : Consecutive (suc r.prev_log_index) r.entries
  pub entries : r.entries ≡ drop (r.prev_log_index - s.log.last_include_index) s.log.logs
  pub reaches : r.prev_log_index + length r.entries ≡ last_of s.log
  pub commit_index : r.leader_commit ≡ s.commit_index
  pub commit : r.leader_commit ≤ r.prev_log_index + length r.entries

-- At a valid leader the request for a peer whose next index is behind no snapshot always exists: it
-- stands on the entry before the peer's next index, its entries are exactly the log from there on,
-- and it tells the leader's term and commit index.
pub build_append_entries_lem :
    (c : Config) (s : Raft) (p : ℕ)
    → Valid c s
    → is_leader s.status ≡ true
    → contains c.peers p ≡ true
    → s.log.last_include_index < s.next_index p
    → (r : AppendEntriesArgs) × (build_append_entries c s p ≡ some r)
      × (suc r.prev_log_index ≡ s.next_index p)
      × FromLog s r
unfolding build_append_entries get_prev_log_info
build_append_entries_lem c s p v l m b =
    let t = All_at (Tracks (core s)) c.peers p (v.tracked l) m in
    let prev = s.next_index p - 1 in
    let k = prev - s.log.last_include_index in
    let last = Valid-last c s v in
    let (term, e) =
      get_log_term_in s.log prev v.contiguous (omega arith) (omega (arith, t, last)) in
    let n = length-drop k s.log.logs in
    let positive : (s.next_index p == 0) ≡ false = ground arith in
    (
      record {
        term = s.current_term;
        leader_id = c.id;
        prev_log_index = prev;
        prev_log_term = term;
        entries = drop k s.log.logs;
        leader_commit = s.commit_index;
        read_round = none;
      },
      rw (positive, e) refl,
      omega arith,
      record {
        term = refl;
        before = e;
        consecutive =
            Consecutive-at (drop k s.log.logs) (omega arith)
              (Consecutive-drop _ k s.log.logs v.contiguous);
        entries = refl;
        reaches = omega (arith, t, n);
        commit_index = refl;
        commit = omega (arith, t, n, v.logged);
      },
    )
