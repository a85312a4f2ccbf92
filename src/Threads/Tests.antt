-- ===== src/Threads/Tests.antt =====
-- The pool with two workers and three tasks.
use raft_storage.Common.{◌≡◌, refl, some, List, [], ◌∷◌}
use raft_storage.Threads.{
  move_pool, submit, move_worker, take_or_wait, finish_task, all_exited, PoolMove, ThreadPool,
  submits, moves, stops, new_pool, run_pool, join,
}
use raft_storage.Threads.Done.{join-finished}
use raft_storage.Threads.Counts.{count_task}

-- Worker 1 leaves while worker 0 is still at a task.
abbrev all_moves : List PoolMove
all_moves =
    submits 7
    ∷ moves 1
    ∷ submits 8
    ∷ submits 7
    ∷ moves 0
    ∷ stops
    ∷ moves 1
    ∷ moves 1
    ∷ moves 1
    ∷ moves 1
    ∷ moves 0
    ∷ moves 0
    ∷ []

abbrev after_all : ThreadPool
after_all = run_pool all_moves (new_pool 2)

joined : join after_all ≡ some (record after_all { tasks = [] })
unfolding join run_pool move_pool submit new_pool move_worker take_or_wait finish_task all_exited
joined = refl

join-finished_example : count_task 7 after_all.finished ≡ count_task 7 after_all.submitted
join-finished_example = join-finished 2 7 all_moves (record after_all { tasks = [] }) joined
