-- ===== src/Raft/Valid/Behind.antt =====
-- Raft/Raft.cc, `readIndex`, at a leader with a peer whose next entry is behind the snapshot.
use raft_storage.Common.{
  ℕ, ◌≤◌, ◌≡◌, refl, ap, ◌∙◌, if◌then◌else◌, subst, inl, inr, true, false, not, ◌||◌, none, some,
  List, [], ◌∷◌, arith, ◌==◌, eq→==, Bool-cases, Option-cases, contains,
}
use raft_storage.Raft.State.{Raft, Config, Env}
use raft_storage.Raft.Frame.{if_both, OnSome, OnSome-eq}
use raft_storage.Raft.Role.{emit}
use raft_storage.Log.{get_log_term_from_index}
use raft_storage.Raft.Loop.{read_index, open_read, read_index_round_generator}
use raft_storage.Raft.Replication.{
  is_leader, is_active_round, schedule_heart_beat, heart_beat_each, schedule_all_heart_beat,
  build_read_heart_beat, get_prev_log_info,
}

module _ (c : Config) (p round : ℕ) where
  -- A leader that runs, with the read of the round open, no call to the peer in flight, and the
  -- peer's next entry dropped by the snapshot.
  record Behind (s : Raft) : Type 0 where
    lead : is_leader s.status ≡ true
    runs : s.stop ≡ false
    active : is_active_round c s round ≡ true
    idle : s.replication_in_flight p ≡ false
    behind : s.next_index p ≤ s.log.last_include_index

  schedule_lost : (s : Raft) → Behind s → schedule_heart_beat c p round s ≡ none
  unfolding schedule_heart_beat build_read_heart_beat get_prev_log_info get_log_term_from_index
  schedule_lost s b = ground arith

  -- The heartbeat of another peer does not help it.
  schedule_other :
      (q : ℕ) (s : Raft)
      → (q == p) ≡ false
      → Behind s
      → OnSome Behind (schedule_heart_beat c q round s)
  unfolding schedule_heart_beat emit
  schedule_other q s apart b =
      if_both (OnSome Behind)
        (not (is_leader s.status) || s.stop || not (is_active_round c s round)) _ _ b
        (if_both (OnSome Behind) (s.replication_in_flight q) _ _
          (record {
            lead = b.lead;
            runs = b.runs;
            active = b.active;
            idle = b.idle;
            behind = b.behind;
          })
          (elim (Option-cases (build_read_heart_beat c s q round)) [
            | inl lost ↦ rw lost tt
            | inr (request, found) ↦ rw found (record {
              lead = b.lead;
              runs = b.runs;
              active = b.active;
              idle = ground (arith, b.idle);
              behind = b.behind;
            })
          ]))

  heart_beat_each_lost :
      (ps : List ℕ) (s : Raft)
      → contains ps p ≡ true
      → Behind s
      → heart_beat_each c round ps s ≡ none
  unfolding heart_beat_each
  heart_beat_each_lost [] s m b = cc m
  heart_beat_each_lost (q ∷ ps) s m b = elim (Bool-cases (q == p)) [
    | inl same ↦
        let e : p ≡ q = ground arith in
        rw (subst (λ j. schedule_heart_beat c j round s ≡ none) e (schedule_lost s b)) refl
    | inr apart ↦ elim (Option-cases (schedule_heart_beat c q round s)) [
      | inl lost ↦ rw lost refl
      | inr (s', found) ↦ rw found (
          heart_beat_each_lost ps s' (ground arith)
            (OnSome-eq Behind _ s' found (schedule_other q s apart b)))
    ]
  ]

  schedule_all_lost :
      (s : Raft) → contains c.peers p ≡ true → Behind s → schedule_all_heart_beat c round s ≡ none
  unfolding schedule_all_heart_beat
  schedule_all_lost s m b =
      let live : (not (is_leader s.status) || s.stop) ≡ false =
        let l = b.lead in let r = b.runs in ground arith in
      ap (λ x. if x then some s else heart_beat_each c round c.peers s) live
      ∙ heart_beat_each_lost c.peers s m b

-- `readIndex` at a leader that runs, that has committed in its term and has no read open, while some
-- peer's next entry is one that the snapshot has dropped, and no call to that peer is in flight: the read does not go through, wherever the peer stands among the others. The heartbeat for
-- the read looks up the term of an index that the snapshot has dropped.
pub read_index_behind :
    (c : Config) (e : Env) (cb p : ℕ) (s : Raft)
    → is_leader s.status ≡ true
    → s.stop ≡ false
    → s.current_term_committed ≡ true
    → s.active_read ≡ none
    → contains c.peers p ≡ true
    → s.replication_in_flight p ≡ false
    → s.next_index p ≤ s.log.last_include_index
    → read_index c e cb s ≡ none
unfolding read_index open_read
read_index_behind c e cb p s lead runs committed closed member idle behind =
    let round = read_index_round_generator c e s in
    rw (lead, committed, closed)
      (schedule_all_lost c p round (open_read c e cb s) member (opened round refl))
  where
    opened :
        (round : ℕ)
        → read_index_round_generator c e s ≡ round
        → Behind c p round (open_read c e cb s)
    opened round r = record {
      lead = lead;
      runs = runs;
      active = eq→== (read_index_round_generator c e s) round r;
      idle = idle;
      behind = behind;
    }
