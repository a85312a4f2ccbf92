-- ===== src/Threads.antt =====
-- Common/ThreadPool.cc and include/ThreadPool.h: the pool whose workers take tasks from a queue. A task
-- is a number.
pub mod Counts
pub mod Kept
pub mod Done
mod Tests
use raft_storage.Common.{
  contains, same_text, same_text→eq, same_text_refl, ℕ, zero, suc, ◌+◌, ◌-◌, ◌*◌, ◌/◌, ◌%◌, ◌^◌,
  ◌≤◌, ◌<◌, min, max, String, ◌≡◌, refl, sym, ap, subst, ◌∙◌, ◌≢◌, ◌↔◌, ◌⊎◌, inl, inr, Bool, true,
  false, not, ◌&&◌, ◌||◌, Option, none, some, List, [], ◌∷◌, ◌++◌, map, Mem, arith, ltb, leb, ◌==◌,
  if◌then◌else◌, ltb→lt, lt→ltb, ge→ltb, leb→le, le→leb, gt→leb, eq→==, tests, Bool-cases,
  Option-cases, contains-append, true_case, false_case, is_some, ◌>>=◌, >>=-eq-some, length,
  get_elem?, take, drop, All, length-append, length-drop, length-take, take-append-drop,
  get_elem?-append_cons, take-append, get_elem?-append_left, get_elem?_in, drop-cons_get, update,
  update_self, update_ne,
}

-- `ready` is at the start of a round of `workerLoop`, or awake in its wait; `asleep` is in the wait.
pub data Worker : Type 0 where
  ready asleep exited : Worker
  working : ℕ → Worker

-- `submitted`, `started` and `finished` record what was done, the oldest first; no operation reads
-- them.
pub record ThreadPool : Type 0 where
  pub tasks : List ℕ
  pub stopped : Bool
  pub workers : ℕ → Worker
  pub num_workers : ℕ
  pub submitted : List ℕ
  pub started : List ℕ
  pub finished : List ℕ

-- The constructor, of at least one worker.
unfoldable pub new_pool : ℕ → ThreadPool
new_pool num_threads = record {
  tasks = [];
  stopped = false;
  workers = λ w. ready;
  num_workers = if num_threads == 0 then 1 else num_threads;
  submitted = [];
  started = [];
  finished = [];
}

-- Under the lock; it throws if the pool is stopped.
unfoldable pub submit : ℕ → ThreadPool → Option ThreadPool
submit task p =
    if p.stopped
    then none
    else some (record p { tasks = p.tasks ++ task ∷ []; submitted = p.submitted ++ task ∷ [] })

abbrev pub set_worker : ℕ → Worker → ThreadPool → ThreadPool
set_worker w x p = record p { workers = update p.workers w x }

-- The part of a round under the lock: the worker sleeps, leaves, or takes the first task.
unfoldable pub take_or_wait : ℕ → ThreadPool → ThreadPool
take_or_wait w p = elim p.tasks [
  | [] ↦ if p.stopped then set_worker w exited p else set_worker w asleep p
  | task ∷ rest ↦ record (set_worker w (working task) p) {
    tasks = rest;
    started = p.started ++ task ∷ [];
  }
]

-- `task()` outside the lock, and the next round.
unfoldable pub finish_task : ℕ → ℕ → ThreadPool → ThreadPool
finish_task w task p = record (set_worker w ready p) { finished = p.finished ++ task ∷ [] }

-- One move of a worker: a round, the end of its task, or a wake-up, which `wait` may also give without a
-- notification. A worker that has left does not move.
unfoldable pub move_worker : ℕ → ThreadPool → ThreadPool
move_worker w p = elim (p.workers w) [
  | ready ↦ take_or_wait w p
  | asleep ↦ set_worker w ready p
  | exited ↦ p
  | working task ↦ finish_task w task p
]

abbrev pub and_exited : Worker → Bool → Bool
and_exited exited rest = rest
and_exited ready rest = false
and_exited asleep rest = false
and_exited (working task) rest = false

unfoldable pub all_exited : (ℕ → Worker) → ℕ → Bool
all_exited workers zero = true
all_exited workers (suc n) = and_exited (workers n) (all_exited workers n)

-- The end of `stop`, once every worker is joined; `none` waits on.
unfoldable pub join : ThreadPool → Option ThreadPool
join p =
    if p.stopped && all_exited p.workers p.num_workers then some (record p { tasks = [] }) else none

-- The moves of the threads, in any order.
pub data PoolMove : Type 0 where
  submits : ℕ → PoolMove
  moves : ℕ → PoolMove
  stops joins : PoolMove

-- A call that throws or waits leaves the pool as it is. `stop` sets the flag first.
unfoldable pub move_pool : PoolMove → ThreadPool → ThreadPool
move_pool (submits task) p = elim (submit task p) [ none ↦ p | some q ↦ q ]
move_pool (moves w) p = if ltb w p.num_workers then move_worker w p else p
move_pool stops p = record p { stopped = true }
move_pool joins p = elim (join p) [ none ↦ p | some q ↦ q ]

unfoldable pub run_pool : List PoolMove → ThreadPool → ThreadPool
run_pool [] p = p
run_pool (m ∷ ms) p = run_pool ms (move_pool m p)
