-- ===== src/Threads/Kept.antt =====
-- What the pool keeps over every move of its threads: where each task is.
use raft_storage.Common.{
  ℕ, zero, suc, ◌+◌, ◌<◌, ◌≡◌, refl, sym, ap, subst, ◌∙◌, ◌≢◌, inl, inr, Bool, true, ◌&&◌, none,
  some, List, [], ◌∷◌, ◌++◌, arith, ltb, ◌==◌, if◌then◌else◌, ltb→lt, Bool-cases, update,
  update_self, update_ne,
}
use mathlib.Core.List.{append_assoc}
use raft_storage.Threads.{
  ThreadPool, Worker, PoolMove, ready, asleep, exited, working, submits, moves, stops, joins,
  move_pool, move_worker, set_worker, finish_task, take_or_wait, all_exited, submit, join,
  and_exited,
}
use raft_storage.Threads.Counts.{
  at_task, count_working, count_task, count_task-append, count-update,
}

pub record IsKept (p : ThreadPool) : Type 0 where
  pub queued : p.submitted ≡ p.started ++ p.tasks
  pub counted :
      (t : ℕ)
      → count_task t p.started ≡ count_task t p.finished + count_working t p.workers p.num_workers
  pub left : (w : ℕ) → p.workers w ≡ exited → (p.stopped ≡ true) × (p.tasks ≡ [])
  pub some_worker : 0 < p.num_workers

-- A worker that changes its state, without a task before or after, and does not leave.
idle-IsKept :
    (p : ThreadPool) (w : ℕ) (x : Worker)
    → w < p.num_workers
    → ((t : ℕ) → at_task t (p.workers w) ≡ 0)
    → ((t : ℕ) → at_task t x ≡ 0)
    → (x ≡ exited → (p.stopped ≡ true) × (p.tasks ≡ []))
    → IsKept p
    → IsKept (set_worker w x p)
idle-IsKept p w x h before after leaves k = record {
  queued = k.queued;
  counted = λ t.
      omega (arith, k.counted t, before t, after t, count-update t p.workers w x p.num_workers h);
  left = λ v e. elim (Bool-cases (w == v)) [
    | inl same ↦
        let f : w ≡ v = ground arith in
        leaves
          (sym (update_self p.workers w x) ∙ subst (λ z. update p.workers w x z ≡ exited) (sym f) e)
    | inr other ↦
        let d : w ≢ v = λ f. ground arith in k.left v (sym (update_ne p.workers w v x d) ∙ e)
  ];
  some_worker = k.some_worker;
}

take_or_wait-IsKept :
    (p : ThreadPool) (w : ℕ) (ts : List ℕ)
    → p.tasks ≡ ts
    → w < p.num_workers
    → p.workers w ≡ ready
    → IsKept p
    → IsKept (take_or_wait w p)
unfolding take_or_wait
take_or_wait-IsKept p w [] e h r k = elim (Bool-cases p.stopped) [
  | inl stopped ↦
      let goes : take_or_wait w p ≡ set_worker w exited p = rw (e, stopped) refl in
      subst IsKept (sym goes)
        (idle-IsKept p w exited h (λ t. ap (at_task t) r) (λ t. refl) (λ x. (stopped, e)) k)
  | inr on ↦
      let goes : take_or_wait w p ≡ set_worker w asleep p = rw (e, on) refl in
      subst IsKept (sym goes)
        (idle-IsKept p w asleep h (λ t. ap (at_task t) r) (λ t. refl) (λ x. cc x) k)
]
take_or_wait-IsKept p w (task ∷ rest) e h r k = rw e (record {
  queued = k.queued ∙ ap (λ z. p.started ++ z) e ∙ sym (append_assoc p.started (task ∷ []) rest);
  counted = λ t.
      let one : count_task t (task ∷ []) ≡ at_task t (working task) = refl in
      omega (
        arith,
        one,
        k.counted t,
        ap (at_task t) r,
        count_task-append t p.started (task ∷ []),
        count-update t p.workers w (working task) p.num_workers h,
      );
  left = λ v x. elim (Bool-cases (w == v)) [
    | inl same ↦
        let f : w ≡ v = ground arith in
        let y =
          sym (update_self p.workers w (working task))
          ∙ subst (λ z. update p.workers w (working task) z ≡ exited) (sym f) x in
        cc y
    | inr other ↦
        let d : w ≢ v = λ f. ground arith in
        let z = (k.left v (sym (update_ne p.workers w v (working task) d) ∙ x)).1 in
        let y = sym e ∙ z in cc y
  ];
  some_worker = k.some_worker;
})

finish-IsKept :
    (p : ThreadPool) (w task : ℕ)
    → w < p.num_workers
    → p.workers w ≡ working task
    → IsKept p
    → IsKept (finish_task w task p)
unfolding finish_task
finish-IsKept p w task h r k = record {
  queued = k.queued;
  counted = λ t.
      let one : count_task t (task ∷ []) ≡ at_task t (working task) = refl in
      omega (
        arith,
        one,
        k.counted t,
        ap (at_task t) r,
        count_task-append t p.finished (task ∷ []),
        count-update t p.workers w ready p.num_workers h,
      );
  left = λ v x. elim (Bool-cases (w == v)) [
    | inl same ↦
        let f : w ≡ v = ground arith in
        let y =
          sym (update_self p.workers w ready)
          ∙ subst (λ z. update p.workers w ready z ≡ exited) (sym f) x in
        cc y
    | inr other ↦
        let d : w ≢ v = λ f. ground arith in k.left v (sym (update_ne p.workers w v ready d) ∙ x)
  ];
  some_worker = k.some_worker;
}

move_worker-IsKept :
    (p : ThreadPool) (w : ℕ) (x : Worker)
    → p.workers w ≡ x
    → w < p.num_workers
    → IsKept p
    → IsKept (move_worker w p)
unfolding move_worker
move_worker-IsKept p w ready e h k =
    let goes : move_worker w p ≡ take_or_wait w p = rw (move_worker, e) refl in
    subst IsKept (sym goes) (take_or_wait-IsKept p w p.tasks refl h e k)
move_worker-IsKept p w asleep e h k =
    let goes : move_worker w p ≡ set_worker w ready p = rw (move_worker, e) refl in
    subst IsKept (sym goes)
      (idle-IsKept p w ready h (λ t. ap (at_task t) e) (λ t. refl) (λ x. cc x) k)
move_worker-IsKept p w exited e h k =
    let goes : move_worker w p ≡ p = rw (move_worker, e) refl in subst IsKept (sym goes) k
move_worker-IsKept p w (working task) e h k =
    let goes : move_worker w p ≡ finish_task w task p = rw (move_worker, e) refl in
    subst IsKept (sym goes) (finish-IsKept p w task h e k)

submit-IsKept : (p : ThreadPool) (task : ℕ) → IsKept p → IsKept (move_pool (submits task) p)
unfolding move_pool submit
submit-IsKept p task k = elim (Bool-cases p.stopped) [
  | inl stopped ↦
      let goes : move_pool (submits task) p ≡ p = rw stopped refl in subst IsKept (sym goes) k
  | inr on ↦ rw on (record {
    queued = ap (λ z. z ++ task ∷ []) k.queued ∙ append_assoc p.started p.tasks (task ∷ []);
    counted = k.counted;
    left = λ w x. let y = (k.left w x).0 in cc;
    some_worker = k.some_worker;
  })
]

and_exited-both :
    (x : Worker) (rest : Bool) → and_exited x rest ≡ true → (x ≡ exited) × (rest ≡ true)
and_exited-both exited rest h = (refl, h)
and_exited-both ready rest h = cc h
and_exited-both asleep rest h = cc h
and_exited-both (working task) rest h = cc h

pub none_working :
    (t : ℕ) (ws : ℕ → Worker) (n : ℕ) → all_exited ws n ≡ true → count_working t ws n ≡ 0
unfolding all_exited
none_working t ws zero h = refl
none_working t ws (suc n) h =
    let (last, rest) = and_exited-both (ws n) (all_exited ws n) h in
    omega (arith, ap (at_task t) last, none_working t ws n rest)

pub some_exited :
    (ws : ℕ → Worker) (n : ℕ) → 0 < n → all_exited ws n ≡ true → (w : ℕ) × (ws w ≡ exited)
unfolding all_exited
some_exited ws zero l h = absurd (omega arith)
some_exited ws (suc n) l h = (n, (and_exited-both (ws n) (all_exited ws n) h).0)

move_pool-joins :
    (p : ThreadPool) {b : Bool}
    → (p.stopped && all_exited p.workers p.num_workers) ≡ b
    → move_pool joins p
      ≡ elim (if b then some (record p { tasks = [] }) else none) [ none ↦ p | some q ↦ q ]
unfolding move_pool join
move_pool-joins p h =
    ap (λ b. elim (if b then some (record p { tasks = [] }) else none) [ none ↦ p | some q ↦ q ]) h

pub move_pool-IsKept : (m : PoolMove) (p : ThreadPool) → IsKept p → IsKept (move_pool m p)
unfolding move_pool join
move_pool-IsKept (submits task) p k = submit-IsKept p task k
move_pool-IsKept (moves w) p k = elim (Bool-cases (ltb w p.num_workers)) [
  | inl worker ↦ rw worker (move_worker-IsKept p w (p.workers w) refl (ltb→lt _ _ worker) k)
  | inr other ↦ rw other k
]
move_pool-IsKept stops p k = record {
  queued = k.queued;
  counted = k.counted;
  left = λ w e. (refl, (k.left w e).1);
  some_worker = k.some_worker;
}
move_pool-IsKept joins p k = elim (Bool-cases (p.stopped && all_exited p.workers p.num_workers)) [
  | inr waits ↦
      let goes : move_pool joins p ≡ p = move_pool-joins p waits in subst IsKept (sym goes) k
  | inl both ↦
      let all : all_exited p.workers p.num_workers ≡ true = ground arith in
      let (w, gone) = some_exited p.workers p.num_workers k.some_worker all in
      let queue = (k.left w gone).1 in
      let goes : move_pool joins p ≡ record p { tasks = [] } = move_pool-joins p both in
      subst IsKept (sym goes) (record {
        queued = k.queued ∙ ap (λ ts. p.started ++ ts) queue;
        counted = k.counted;
        left = λ v e. ((k.left v e).0, refl);
        some_worker = k.some_worker;
      })
]
