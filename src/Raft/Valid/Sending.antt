-- ===== src/Raft/Valid/Sending.antt =====
-- What a valid leader sends can be built: `scheduleReplication` never fails, and a heartbeat of a
-- read fails exactly where the peer's next entry is behind the snapshot.
use raft_storage.Common.{
  ℕ, suc, ◌-◌, ◌≤◌, ◌<◌, String, ◌≡◌, refl, sym, subst, ◌∙◌, true, false, not, ◌||◌, Option, none,
  some, List, [], ◌∷◌, arith, leb, ◌==◌, leb→le, is_some, All, contains,
}
use raft_storage.Log.Shape.{get_log_term_in}
use raft_storage.Persister.{read_snap_shot}
use raft_storage.Raft.State.{Raft, Config}
use raft_storage.Raft.Role.{emit}
use raft_storage.Raft.Replication.{
  is_leader, get_prev_log_info, build_append_entries, launch_replication, schedule_replication,
  schedule_each, heart_beat_each, schedule_heart_beat, try_schedule_pending_read_heart_beat,
  schedule_all_heart_beat, schedule_all_replication, build_read_heart_beat, is_active_round,
}
use raft_storage.Raft.Frame.{core, if_both, Core}
use raft_storage.Raft.Valid.{
  last_of, Tracks, if_either, Runs, Valid, Valid-last, All_at, Ensures-bind, Ensures-map,
  Valid-of_core, both-All,
}

prev_log_info_in :
    (c : Config) (s : Raft) (p : ℕ)
    → Valid c s
    → s.log.last_include_index < s.next_index p
    → s.next_index p ≤ suc (last_of s.log)
    → (t : ℕ) × (get_prev_log_info s p ≡ some (s.next_index p - 1, t))
unfolding get_prev_log_info
prev_log_info_in c s p v lo hi =
    let (t, e) =
      get_log_term_in s.log (s.next_index p - 1) v.contiguous (omega arith)
        (omega (arith, Valid-last c s v)) in
    let nonzero : (s.next_index p == 0) ≡ false = ground arith in (t, rw (nonzero, e) refl)

snapshot_file : (o : Option String) → is_some o ≡ true → (x : String) × (o ≡ some x)
snapshot_file none h = cc
snapshot_file (some x) h = (x, refl)

launch_replication-Runs :
    (c : Config) (p : ℕ) (s : Raft)
    → Valid c s
    → Tracks (core s) p
    → Runs s (launch_replication c p s)
unfolding launch_replication emit read_snap_shot build_append_entries
launch_replication-Runs c p s v t =
    if_either (Runs s) (leb (s.next_index p) s.log.last_include_index) _ _
      (λ behind.
        let (x, e) =
          snapshot_file s.persister.snap_shot_file (v.snapped (omega (arith, leb→le _ _ behind))) in
        rw e refl)
      (λ within.
        let lo : s.log.last_include_index < s.next_index p = ground arith in
        let (x, e) = prev_log_info_in c s p v lo t.1 in rw e refl)

schedule_replication-Runs :
    (c : Config) (p : ℕ) (s : Raft)
    → Valid c s
    → (is_leader s.status ≡ true → Tracks (core s) p)
    → Runs s (schedule_replication c p s)
unfolding schedule_replication
schedule_replication-Runs c p s v t =
    if_either (Runs s) (s.stop || not (is_leader s.status)) _ _ (λ h. refl)
      (λ h.
        if_both (Runs s) (s.replication_in_flight p) _ _ refl
          (launch_replication-Runs c p _ v (t (ground arith))))

-- What is left to send to, while the core stays.
TracksAll : List ℕ → Core → Type 0
TracksAll ps k = is_leader k.status ≡ true → All (Tracks k) ps

schedule_each-Runs :
    (c : Config) (ps : List ℕ) (s : Raft)
    → Valid c s
    → TracksAll ps (core s)
    → Runs s (schedule_each c ps s)
unfolding schedule_each TracksAll
schedule_each-Runs c [] s v t = refl
schedule_each-Runs c (p ∷ ps) s v t =
    Ensures-bind (λ s'. core s' ≡ core s) _ (schedule_replication c p s) (schedule_each c ps)
      (schedule_replication-Runs c p s v (λ l. (t l).0))
      λ s' e.
        Ensures-map _ _ (schedule_each c ps s')
          (schedule_each-Runs c ps s' (Valid-of_core c s s' e v)
            (subst (TracksAll ps) (sym e) (λ l. (t l).1)))
          (λ u q. q ∙ e)

pub schedule_all_replication-Runs :
    (c : Config) (s : Raft) → Valid c s → Runs s (schedule_all_replication c s)
unfolding schedule_all_replication TracksAll
schedule_all_replication-Runs c s v =
    if_both (Runs s) (not (is_leader s.status) || s.stop) _ _ refl
      (schedule_each-Runs c c.peers s v v.tracked)

pub schedule_one-Runs :
    (c : Config) (p : ℕ) (s : Raft)
    → Valid c s
    → contains c.peers p ≡ true
    → Runs s (schedule_replication c p s)
schedule_one-Runs c p s v m =
    schedule_replication-Runs c p s v (λ l. All_at (Tracks (core s)) c.peers p (v.tracked l) m)

-- The peer's next entry is in the log: its predecessor has a known term.
abbrev pub Ahead : Core → ℕ → Type 0
Ahead k p = k.log.last_include_index < k.next_index p

pub schedule_heart_beat-Runs :
    (c : Config) (p round : ℕ) (s : Raft)
    → Valid c s
    → (is_leader s.status ≡ true → Tracks (core s) p × Ahead (core s) p)
    → Runs s (schedule_heart_beat c p round s)
unfolding schedule_heart_beat emit build_read_heart_beat
schedule_heart_beat-Runs c p round s v t =
    if_either (Runs s) (not (is_leader s.status) || s.stop || not (is_active_round c s round)) _ _
      (λ h. refl)
      (λ h.
        let (tracks, ahead) = t (ground arith) in
        let (x, e) = prev_log_info_in c s p v ahead tracks.1 in
        if_both (Runs s) (s.replication_in_flight p) _ _ refl (rw e refl))

AheadAll : List ℕ → Core → Type 0
AheadAll ps k = is_leader k.status ≡ true → All (λ p. Tracks k p × Ahead k p) ps

heart_beat_each-Runs :
    (c : Config) (round : ℕ) (ps : List ℕ) (s : Raft)
    → Valid c s
    → AheadAll ps (core s)
    → Runs s (heart_beat_each c round ps s)
unfolding heart_beat_each AheadAll
heart_beat_each-Runs c round [] s v t = refl
heart_beat_each-Runs c round (p ∷ ps) s v t =
    Ensures-bind (λ s'. core s' ≡ core s) _ (schedule_heart_beat c p round s)
      (heart_beat_each c round ps) (schedule_heart_beat-Runs c p round s v (λ l. (t l).0))
      λ s' e.
        Ensures-map _ _ (heart_beat_each c round ps s')
          (heart_beat_each-Runs c round ps s' (Valid-of_core c s s' e v)
            (subst (AheadAll ps) (sym e) (λ l. (t l).1)))
          (λ u q. q ∙ e)

pub schedule_all_heart_beat-Runs :
    (c : Config) (round : ℕ) (s : Raft)
    → Valid c s
    → All (Ahead (core s)) c.peers
    → Runs s (schedule_all_heart_beat c round s)
unfolding schedule_all_heart_beat AheadAll
schedule_all_heart_beat-Runs c round s v a =
    if_both (Runs s) (not (is_leader s.status) || s.stop) _ _ refl (
      heart_beat_each-Runs c round c.peers s v
        (λ l. both-All (Tracks (core s)) (Ahead (core s)) c.peers (v.tracked l) a))

pub try_schedule-Runs :
    (c : Config) (p : ℕ) (s : Raft)
    → Valid c s
    → contains c.peers p ≡ true
    → Ahead (core s) p
    → Runs s (try_schedule_pending_read_heart_beat c p s)
unfolding try_schedule_pending_read_heart_beat
try_schedule-Runs c p s v m a =
    if_both (Runs s) (not (is_leader s.status) || s.stop || (s.read_index_pending p == 0)) _ _ refl
      (if_both (Runs s) (not (is_active_round c s (s.read_index_pending p))) _ _ refl (
        if_both (Runs s) (s.replication_in_flight p) _ _ refl (
          schedule_heart_beat-Runs c p _ _ v
            (λ l. (All_at (Tracks (core s)) c.peers p (v.tracked l) m, a)))))
