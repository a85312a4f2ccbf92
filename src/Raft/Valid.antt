-- ===== src/Raft/Valid.antt =====
-- The invariant of a node, under which no assertion of Raft/Raft.cc fails. It is about the fields
-- that `Frame.Core` lists.
pub mod Sending
pub mod Requests
pub mod Holding
pub mod Committing
pub mod Electing
pub mod Following
pub mod Accepting
pub mod Snapshots
pub mod Replying
pub mod Behind
pub mod Events
use raft_storage.Common.{
  ℕ, zero, suc, ◌+◌, ◌-◌, ◌*◌, ◌/◌, ◌%◌, ◌^◌, ◌≤◌, ◌<◌, min, max, String, ◌≡◌, refl, sym, ap, subst,
  ◌∙◌, ◌≢◌, ◌↔◌, ◌⊎◌, inl, inr, Bool, true, false, not, ◌&&◌, ◌||◌, Option, none, some, List, [],
  ◌∷◌, ◌++◌, map, Mem, arith, ltb, leb, ◌==◌, if◌then◌else◌, ltb→lt, lt→ltb, ge→ltb, leb→le, le→leb,
  gt→leb, eq→==, tests, Bool-cases, Option-cases, is_some, ◌>>=◌, >>=-eq-some, length, get_elem?,
  take, drop, All, length-append, length-drop, length-take, take-append-drop, get_elem?-append_cons,
  take-append, get_elem?-append_left, get_elem?_in, drop-cons_get, update, update_self, update_ne,
  contains,
}
use raft_storage.Log.{Log, LogEntry, get_last_log_index}
use raft_storage.Log.Shape.{IsContiguous, get_last_log_index_lem}
use raft_storage.Raft.State.{Raft, Config, Env}
use raft_storage.Raft.Replication.{is_leader}
use raft_storage.Raft.Frame.{Core, core}

-- The last index of a contiguous log.
abbrev pub last_of : Log → ℕ
last_of l = l.last_include_index + length l.logs

-- A leader knows a next index in the log, or just after it, and a match index in the log.
abbrev pub Tracks : Core → ℕ → Type 0
Tracks k p =
    (1 ≤ k.next_index p)
    × (k.next_index p ≤ suc (last_of k.log))
    × (k.match_index p ≤ last_of k.log)

pub record IsValid (c : Config) (k : Core) : Type 0 where
  pub contiguous : IsContiguous k.log
  pub applied : k.log.last_include_index ≤ k.last_applied
  pub committed : k.last_applied ≤ k.commit_index
  pub logged : k.commit_index ≤ last_of k.log
  pub snapped : 0 < k.log.last_include_index → is_some k.persister.snap_shot_file ≡ true
  pub tracked : is_leader k.status ≡ true → All (Tracks k) c.peers

-- The step goes on, and its result is as stated.
abbrev pub Ensures {ℓ} : {A : Type ℓ} → (A → Type 0) → Option A → Type 0
Ensures P none = ⊥
Ensures P (some a) = P a

pub Ensures-bind {ℓ κ} :
    {A : Type ℓ} {B : Type κ} (P : A → Type 0) (Q : B → Type 0) (m : Option A) (f : A → Option B)
    → Ensures P m
    → ((a : A) → P a → Ensures Q (f a))
    → Ensures Q (m >>= f)
Ensures-bind P Q none f h k = absurd h
Ensures-bind P Q (some a) f h k = k a h

pub Ensures-map {ℓ} :
    {A : Type ℓ} (P Q : A → Type 0) (m : Option A)
    → Ensures P m
    → ((a : A) → P a → Q a)
    → Ensures Q m
Ensures-map P Q none h k = h
Ensures-map P Q (some a) h k = k a h

pub Ensures-of {ℓ} :
    {A : Type ℓ} (P : A → Type 0) (m : Option A) → ((a : A) × (m ≡ some a) × P a) → Ensures P m
Ensures-of P m (a, e, h) = rw e h

pub Ensures-out {ℓ} :
    {A : Type ℓ} (P : A → Type 0) (m : Option A) → Ensures P m → (a : A) × (m ≡ some a) × P a
Ensures-out P none h = absurd h
Ensures-out P (some a) h = (a, refl, h)

-- A branch under its test.
pub if_either {ℓ κ} :
    {A : Type ℓ} (P : A → Type κ) (b : Bool) (x y : A)
    → (b ≡ true → P x)
    → (b ≡ false → P y)
    → P (if b then x else y)
if_either P true x y h k = h refl
if_either P false x y h k = k refl

-- The step goes on and leaves the core as it was.
abbrev pub Runs : Raft → Option Raft → Type 0
Runs s = Ensures (λ s'. core s' ≡ core s)

abbrev pub Valid : Config → Raft → Type 0
Valid c s = IsValid c (core s)

pub All_at : (P : ℕ → Type 0) (ps : List ℕ) (p : ℕ) → All P ps → contains ps p ≡ true → P p
All_at P [] p h m = cc
All_at P (q ∷ qs) p h m = elim (Bool-cases (q == p)) [
  | inl here ↦ let e : q ≡ p = ground arith in subst P e h.0
  | inr there ↦ All_at P qs p h.1 (rw there at m)
]

pub All-imp : (P Q : ℕ → Type 0) (ps : List ℕ) → ((p : ℕ) → P p → Q p) → All P ps → All Q ps
All-imp P Q [] f h = tt
All-imp P Q (p ∷ ps) f h = (f p h.0, All-imp P Q ps f h.1)

pub both-All : (P Q : ℕ → Type 0) (ps : List ℕ) → All P ps → All Q ps → All (λ p. P p × Q p) ps
both-All P Q [] h k = tt
both-All P Q (p ∷ ps) h k = ((h.0, k.0), both-All P Q ps h.1 k.1)

pub Valid-of_core : (c : Config) (s t : Raft) → core t ≡ core s → Valid c s → Valid c t
Valid-of_core c s t e v = subst (IsValid c) (sym e) v

pub Valid-of_Runs :
    (c : Config) (s : Raft) (m : Option Raft) → Runs s m → Valid c s → Ensures (Valid c) m
Valid-of_Runs c s m h v = Ensures-map _ _ m h (λ t e. Valid-of_core c s t e v)

-- What a valid node knows of its last index.
pub Valid-last : (c : Config) (s : Raft) → Valid c s → get_last_log_index s.log ≡ last_of s.log
Valid-last c s v = get_last_log_index_lem s.log v.contiguous
