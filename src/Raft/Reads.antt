-- ===== src/Raft/Reads.antt =====
-- Reads of Raft/Raft.cc: who answers one, and when.
use raft_storage.Common.{
  ℕ, suc, ◌≤◌, ◌<◌, ◌≡◌, refl, ◌∙◌, true, not, ◌||◌, none, some, List, [], ◌∷◌, arith, ◌==◌,
  if◌then◌else◌, length,
}
use raft_storage.Raft.Loop.{read_index, open_read, read_index_round_generator}
use raft_storage.Raft.State.{Config, PendingReadIndex, Raft, completed, Env}
use raft_storage.Raft.Reply.{insert_ack}
use raft_storage.Raft.Role.{quorum_size, answer_all}
use raft_storage.Raft.Replication.{is_leader, schedule_all_heart_beat, heart_beat_each}
use raft_storage.Raft.Frame.{if_both}

-- How often a node is among the acknowledgements.
abbrev pub count_acks : ℕ → List ℕ → ℕ
count_acks x [] = 0
count_acks x (y ∷ ys) = let rest = count_acks x ys in if y == x then suc rest else rest

-- The read after an acknowledgement: it waits with the acknowledgement, or it has a quorum and all of its callbacks are answered.
pub data Acknowledged (c : Config) (server : ℕ) (p : PendingReadIndex) (s s' : Raft) : Type 0 where
  waiting :
      s'.active_read ≡ some (record p { acks = insert_ack server p.acks })
      → length (insert_ack server p.acks) < quorum_size c
      → s'.effects ≡ s.effects
      → Acknowledged c server p s s'
  answered :
      s'.active_read ≡ none
      → quorum_size c ≤ length (insert_ack server p.acks)
      → s'.effects ≡ answer_all p.callbacks (completed p.round p.read_index) s.effects
      → Acknowledged c server p s s'

-- Without peers no heartbeat is sent.
schedule_all_heart_beat_alone :
    (c : Config) (round : ℕ) (s : Raft) → c.peers ≡ [] → schedule_all_heart_beat c round s ≡ some s
unfolding schedule_all_heart_beat heart_beat_each
schedule_all_heart_beat_alone c round s n =
    if_both (λ m. m ≡ some s) (not (is_leader s.status) || s.stop) _ _ refl (rw n refl)

read_index_opens :
    (c : Config) (e : Env) (cb : ℕ) (s : Raft)
    → is_leader s.status ≡ true
    → s.current_term_committed ≡ true
    → s.active_read ≡ none
    → read_index c e cb s
      ≡ schedule_all_heart_beat c (read_index_round_generator c e s) (open_read c e cb s)
unfolding read_index
read_index_opens c e cb s l t a = ground arith

-- In a cluster of one node a read that opens already has the acknowledgement of the quorum, but it
-- stays open and its callback is not called: nothing is sent, so no reply ever completes it.
pub read_index_alone :
    (c : Config) (e : Env) (cb : ℕ) (s : Raft)
    → c.peers ≡ []
    → c.cluster_size ≡ 1
    → is_leader s.status ≡ true
    → s.current_term_committed ≡ true
    → s.active_read ≡ none
    → (p : PendingReadIndex) × (s' : Raft) × (read_index c e cb s ≡ some s')
      × (s'.active_read ≡ some p)
      × (p.callbacks ≡ cb ∷ [])
      × (quorum_size c ≤ length p.acks)
      × (s'.effects ≡ s.effects)
unfolding open_read quorum_size
read_index_alone c e cb s n k l t a =
    let s' = open_read c e cb s in
    let sent = schedule_all_heart_beat_alone c (read_index_round_generator c e s) s' n in
    (
      record {
        round = read_index_round_generator c e s;
        term = s.current_term;
        read_index = s.commit_index;
        acks = c.id ∷ [];
        callbacks = cb ∷ [];
      },
      s',
      read_index_opens c e cb s l t a ∙ sent,
      refl,
      refl,
      rw k (omega arith),
      refl,
    )
