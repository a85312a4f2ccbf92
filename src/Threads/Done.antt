-- ===== src/Threads/Done.antt =====
-- No task is lost or run twice, and a stopped pool has run them all.
use raft_storage.Threads.Kept.{IsKept, move_pool-IsKept, some_exited, none_working}
use raft_storage.Common.{
  ℕ, zero, suc, ◌≡◌, refl, ap, subst, ◌∙◌, inl, inr, true, ◌&&◌, some, List, [], ◌∷◌, ◌++◌, arith,
  ◌==◌, if◌then◌else◌, Bool-cases,
}
use mathlib.Core.Option.{some-injective}
use raft_storage.Threads.{
  ThreadPool, PoolMove, ready, move_pool, run_pool, all_exited, join, new_pool,
}
use raft_storage.Threads.Counts.{count_task, count_task-append, count_working}

pub run_pool-IsKept : (ms : List PoolMove) (p : ThreadPool) → IsKept p → IsKept (run_pool ms p)
unfolding run_pool
run_pool-IsKept [] p k = k
run_pool-IsKept (m ∷ ms) p k = run_pool-IsKept ms (move_pool m p) (move_pool-IsKept m p k)

new_pool-IsKept : (n : ℕ) → IsKept (new_pool n)
unfolding new_pool
new_pool-IsKept n = record {
  queued = refl;
  counted = λ t. omega (arith, none_ready t (if n == 0 then 1 else n));
  left = λ w e. cc e;
  some_worker = ground arith;
}
  where
    none_ready : (t m : ℕ) → count_working t (λ w. ready) m ≡ 0
    none_ready t zero = refl
    none_ready t (suc m) = omega (arith, none_ready t m)

-- In every order of the threads' moves the tasks are taken in the order in which they were submitted,
-- and none is lost or taken twice: what was submitted is what was started, and then what is queued.
pub started_in_order :
    (n : ℕ) (ms : List PoolMove)
    → let p = run_pool ms (new_pool n) in p.submitted ≡ p.started ++ p.tasks
started_in_order n ms = (run_pool-IsKept ms (new_pool n) (new_pool-IsKept n)).queued

-- In every order of the threads' moves: when `stop` has joined the workers, every task has been run to
-- its end exactly as often as it was submitted.
pub join-finished :
    (n task : ℕ) (ms : List PoolMove) (q : ThreadPool)
    → join (run_pool ms (new_pool n)) ≡ some q
    → count_task task q.finished ≡ count_task task q.submitted
unfolding join
join-finished n task ms q h =
    let p = run_pool ms (new_pool n) in
    let k = run_pool-IsKept ms (new_pool n) (new_pool-IsKept n) in
    elim (Bool-cases (p.stopped && all_exited p.workers p.num_workers)) [
      | inr waits ↦ let h' = rw waits at h in cc h'
      | inl both ↦
          let all : all_exited p.workers p.num_workers ≡ true = ground arith in
          let (w, left) = some_exited p.workers p.num_workers k.some_worker all in
          let e : record p { tasks = [] } ≡ q = some-injective _ _ (rw both at h) in
          let queue = (k.left w left).1 in
          let order = ap (count_task task) (k.queued ∙ ap (λ ts. p.started ++ ts) queue) in
          let none_left = none_working task p.workers p.num_workers all in
          subst (λ r. count_task task r.finished ≡ count_task task r.submitted) e
            (omega (arith, order, count_task-append task p.started [], k.counted task, none_left))
    ]
