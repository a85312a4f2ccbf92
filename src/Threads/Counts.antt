-- ===== src/Threads/Counts.antt =====
-- How often a task stands in a list, and at how many workers.
use raft_storage.Common.{
  ℕ, zero, suc, ◌+◌, ◌≤◌, ◌<◌, ◌≡◌, refl, ap, subst, ◌≢◌, inl, inr, List, [], ◌∷◌, ◌++◌, arith,
  ◌==◌, if◌then◌else◌, Bool-cases, update, update_self, update_ne,
}
use raft_storage.Threads.{Worker, ready, asleep, exited, working}

abbrev pub count_task : ℕ → List ℕ → ℕ
count_task t [] = 0
count_task t (x ∷ xs) = if x == t then suc (count_task t xs) else count_task t xs

pub count_task-append :
    (t : ℕ) (xs ys : List ℕ) → count_task t (xs ++ ys) ≡ count_task t xs + count_task t ys
count_task-append t [] ys = omega arith
count_task-append t (x ∷ xs) ys = ground (arith, count_task-append t xs ys)

-- 1 if the worker is at the task.
abbrev pub at_task : ℕ → Worker → ℕ
at_task t ready = 0
at_task t asleep = 0
at_task t exited = 0
at_task t (working x) = if x == t then 1 else 0

abbrev pub count_working : ℕ → (ℕ → Worker) → ℕ → ℕ
count_working t ws zero = 0
count_working t ws (suc n) = at_task t (ws n) + count_working t ws n

count_same :
    (t : ℕ) (ws : ℕ → Worker) (w : ℕ) (x : Worker) (n : ℕ)
    → n ≤ w
    → count_working t (update ws w x) n ≡ count_working t ws n
count_same t ws w x zero h = refl
count_same t ws w x (suc n) h =
    let d : w ≢ n = λ e. absurd (omega arith) in
    let old = ap (at_task t) (update_ne ws w n x d) in
    omega (arith, old, count_same t ws w x n (omega arith))

-- A worker that goes over to another state.
pub count-update :
    (t : ℕ) (ws : ℕ → Worker) (w : ℕ) (x : Worker) (n : ℕ)
    → w < n
    → count_working t (update ws w x) n + at_task t (ws w) ≡ count_working t ws n + at_task t x
count-update t ws w x zero h = absurd (omega arith)
count-update t ws w x (suc n) h = elim (Bool-cases (w == n)) [
  | inl last ↦
      let e : w ≡ n = ground arith in
      let new : at_task t (update ws w x n) ≡ at_task t x =
        subst (λ z. at_task t (update ws w x z) ≡ at_task t x) e
          (ap (at_task t) (update_self ws w x)) in
      let old : at_task t (ws w) ≡ at_task t (ws n) = ap (λ z. at_task t (ws z)) e in
      omega (arith, new, old, count_same t ws w x n (omega arith))
  | inr below ↦
      let d : w ≢ n = λ e. ground arith in
      let same = ap (at_task t) (update_ne ws w n x d) in
      omega (arith, same, count-update t ws w x n (ground arith))
]
