-- ===== src/Raft/Frame.antt =====
-- What the sending functions of Raft/Raft.cc leave alone.
use raft_storage.Common.{
  ℕ, ◌≡◌, refl, ◌∙◌, Bool, true, false, Option, none, some, List, [], ◌∷◌, arith, if◌then◌else◌,
  ◌>>=◌,
}
use raft_storage.Log.{Log}
use raft_storage.Persister.{Persister}
use raft_storage.Raft.State.{Raft, Config, Status, ApplyMsg, ReadResult}
use raft_storage.Raft.Role.{emit, finish_read}
use raft_storage.Raft.Replication.{
  heart_beat_each, launch_replication, schedule_all_heart_beat, schedule_all_replication,
  schedule_each, schedule_heart_beat, schedule_replication, try_schedule_pending_read_heart_beat,
}

-- The statement of what a step leaves if it does not end the process.
abbrev pub OnSome {ℓ κ} : {A : Type ℓ} → (A → Type κ) → Option A → Type κ
OnSome P none = Unit
OnSome P (some a) = P a

pub OnSome-bind {ℓ κ} :
    {A : Type ℓ} {B : Type κ} (P : A → Type 0) (Q : B → Type 0) (m : Option A) (f : A → Option B)
    → OnSome P m
    → ((a : A) → P a → OnSome Q (f a))
    → OnSome Q (m >>= f)
OnSome-bind P Q none f h k = tt
OnSome-bind P Q (some a) f h k = k a h

-- A step of which nothing is needed.
pub OnSome-any {ℓ κ} :
    {A : Type ℓ} {B : Type κ} (Q : B → Type 0) (m : Option A) (f : A → Option B)
    → ((a : A) → OnSome Q (f a))
    → OnSome Q (m >>= f)
OnSome-any Q none f k = tt
OnSome-any Q (some a) f k = k a

pub OnSome-map {ℓ} :
    {A : Type ℓ} (P Q : A → Type 0) (m : Option A) → OnSome P m → ((a : A) → P a → Q a) → OnSome Q m
OnSome-map P Q none h k = tt
OnSome-map P Q (some a) h k = k a h

pub OnSome-eq {ℓ} :
    {A : Type ℓ} (P : A → Type 0) (m : Option A) (a : A) → m ≡ some a → OnSome P m → P a
OnSome-eq P m a e h = rw e at h

-- All but the effects, the bookkeeping of calls in flight, the pending reads and the deadlines.
pub record Core : Type 0 where
  pub current_term : ℕ
  pub voted_for : Option ℕ
  pub log : Log
  pub persister : Persister
  pub commit_index : ℕ
  pub last_applied : ℕ
  pub status : Status
  pub next_index : ℕ → ℕ
  pub match_index : ℕ → ℕ
  pub apply_queue : List ApplyMsg

abbrev pub core : Raft → Core
core s = record {
  current_term = s.current_term;
  voted_for = s.voted_for;
  log = s.log;
  persister = s.persister;
  commit_index = s.commit_index;
  last_applied = s.last_applied;
  status = s.status;
  next_index = s.next_index;
  match_index = s.match_index;
  apply_queue = s.apply_queue;
}

abbrev pub Keeps : Raft → Option Raft → Type 0
Keeps s = OnSome (λ s'. core s' ≡ core s)

pub Keeps-bind :
    (s : Raft) (m : Option Raft) (f : Raft → Option Raft)
    → Keeps s m
    → ((s' : Raft) → Keeps s' (f s'))
    → Keeps s (m >>= f)
Keeps-bind s none f h k = tt
Keeps-bind s (some s') f h k = OnSome-map _ _ (f s') (k s') (λ s'' e. e ∙ h)

pub if_both {ℓ κ} :
    {A : Type ℓ} (P : A → Type κ) (b : Bool) (x y : A) → P x → P y → P (if b then x else y)
if_both P true x y h k = h
if_both P false x y h k = k

pub option_both {ℓ κ μ} :
    {A : Type ℓ} {B : Type κ} (P : B → Type μ) (o : Option A) (x : B) (f : A → B)
    → P x
    → ((a : A) → P (f a))
    → P (elim o [ none ↦ x | some a ↦ f a ])
option_both P none x f h k = h
option_both P (some a) x f h k = k a

pub finish_read-core :
    (result : ℕ → ℕ → ReadResult) (s : Raft) → core (finish_read result s) ≡ core s
unfolding finish_read
finish_read-core result s = ground arith

module _ (c : Config) where
  launch_replication-Keeps : (server : ℕ) (s : Raft) → Keeps s (launch_replication c server s)
  unfolding launch_replication emit
  launch_replication-Keeps server s = ground arith

  pub schedule_replication-Keeps :
      (server : ℕ) (s : Raft) → Keeps s (schedule_replication c server s)
  unfolding schedule_replication
  schedule_replication-Keeps server s = grind (arith, launch_replication-Keeps)

  schedule_each-Keeps : (ps : List ℕ) (s : Raft) → Keeps s (schedule_each c ps s)
  unfolding schedule_each
  schedule_each-Keeps [] s = refl
  schedule_each-Keeps (p ∷ ps) s =
      Keeps-bind s (schedule_replication c p s) (schedule_each c ps)
        (schedule_replication-Keeps p s) (schedule_each-Keeps ps)

  pub schedule_all_replication-Keeps : (s : Raft) → Keeps s (schedule_all_replication c s)
  unfolding schedule_all_replication
  schedule_all_replication-Keeps s = grind (arith, schedule_each-Keeps)

  schedule_heart_beat-Keeps :
      (server round : ℕ) (s : Raft) → Keeps s (schedule_heart_beat c server round s)
  unfolding schedule_heart_beat emit
  schedule_heart_beat-Keeps server round s = ground arith

  heart_beat_each-Keeps :
      (round : ℕ) (ps : List ℕ) (s : Raft) → Keeps s (heart_beat_each c round ps s)
  unfolding heart_beat_each
  heart_beat_each-Keeps round [] s = refl
  heart_beat_each-Keeps round (p ∷ ps) s =
      Keeps-bind s (schedule_heart_beat c p round s) (heart_beat_each c round ps)
        (schedule_heart_beat-Keeps p round s) (heart_beat_each-Keeps round ps)

  pub schedule_all_heart_beat-Keeps :
      (round : ℕ) (s : Raft) → Keeps s (schedule_all_heart_beat c round s)
  unfolding schedule_all_heart_beat
  schedule_all_heart_beat-Keeps round s = grind (arith, heart_beat_each-Keeps)

  pub try_schedule-Keeps :
      (server : ℕ) (s : Raft) → Keeps s (try_schedule_pending_read_heart_beat c server s)
  unfolding try_schedule_pending_read_heart_beat
  try_schedule-Keeps server s = grind (arith, schedule_heart_beat-Keeps)
