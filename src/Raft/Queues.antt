-- ===== src/Raft/Queues.antt =====
-- The two event queues of Raft/Raft.cc: in which order a batch runs their events.
use raft_storage.Common.{
  ℕ, zero, suc, ◌≤◌, ◌≡◌, ◌⊎◌, some, List, [], ◌∷◌, take, drop, ◌<◌, ◌-◌, true, false, Option, none,
}
use raft_storage.Raft.Start.{is_due, none_left}
use raft_storage.Raft.State.{Config, Raft, Env}
use raft_storage.Raft.Loop.{Event, run}

-- The clock at which an event of a queue runs.
abbrev pub clock_at : List (Env × Event) → ℕ → Option Env
clock_at [] i = none
clock_at ((e, ev) ∷ q) zero = some e
clock_at ((e, ev) ∷ q) (suc i) = clock_at q i

module _ (c : Config) where
  -- What the commands of a batch leave, from `s` with the control queue `control`: after `count`
  -- commands the node is `r.0`. Before each of them no control event waited and the deadline was not
  -- reached at its clock; no further one ran, because of one of these, or for want of a command, or
  -- because it would be one too many.
  pub record Drained (n : ℕ) (posts : ℕ → List (Env × Event)) (s : Raft)
      (control q : List (Env × Event)) (r : Raft × List (Env × Event) × List (Env × Event))
      : Type 0 where
    pub count : ℕ
    pub ran : run c (take count q) s ≡ some r.0
    pub left : r.2 ≡ drop count q
    pub bound : count ≤ n
    pub first : 0 < count → control ≡ []
    pub quiet : (i : ℕ) → i < count → posts (n - suc i) ≡ []
    pub early :
        (i : ℕ)
        → i < count
        → (e : Env) × (t : Raft) × (clock_at q i ≡ some e)
          × (run c (take i q) s ≡ some t)
          × (is_due e t ≡ false)
    pub stopped :
        (count ≡ n)
        ⊎ ((r.2 ≡ [])
            ⊎ ((none_left r.1 ≡ false)
                ⊎ ((e : Env) × (clock_at r.2 0 ≡ some e) × (is_due e r.0 ≡ true))))
