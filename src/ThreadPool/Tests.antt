-- ===== src/ThreadPool/Tests.antt =====
-- Runs of a pool over plain lists, and the theorems on the pool at these runs.
use c_liber.Prelude.{
  ℕ, ◌≡◌, refl, ◌≢◌, true, false, none, some, List, [], ◌∷◌, ◌++◌, count, length, ◌⊎◌,
}
use c_liber.DList.Plain.{plain}
use c_liber.ThreadPool.{
  Pool, spins, tp_create, tp_queue, tp_wait, worker_loop, worker_wakes, worker_starts, job_finish,
}
use c_liber.ThreadPool.World.{World, Event, queue, start, finish, Reach, here, next, first, step}
use c_liber.ThreadPool.Inv.{Inv}
use c_liber.ThreadPool.Steps.{Reach-Inv}
use c_liber.ThreadPool.Wait.{tp_wait-over, tp_queue-accepts, worker-ne-spins}
use c_liber.ThreadPool.Growth.{willing, calls, burst-fresh}

-- `tp_create(1, 1, 2, NULL)`
abbrev one_to_one : Pool (List ℕ)
one_to_one = record {
  t_min = 1;
  t_max = 1;
  timeout_sec = 2;
  pool_busy = false;
  pool_wait = false;
  pool_cancel = false;
  t_total = 0;
  activeq = [];
  idleq = [];
  jobq = [];
}

-- The world behind an event, if it can happen.
abbrev after : Event → World (List ℕ) → World (List ℕ)
after e w = elim (step plain willing e w) [ none ↦ w | some u ↦ u ]

-- Two jobs are queued before the first thread runs.
abbrev crowd : World (List ℕ)
crowd =
    after (start 1)
      (after (start 0) (after (queue true) (after (queue true) (first plain one_to_one))))

-- They have two threads, though t_max is 1.
overshoot : crowd.pool.t_total ≡ 2
unfolding step tp_queue worker_loop worker_starts
overshoot = refl

-- A job is queued and run by the first thread, which then waits for another.
abbrev served : World (List ℕ)
served = after (finish 0) (after (start 0) (after (queue true) (first plain one_to_one)))

served-Reach : Reach plain (first plain one_to_one) served
unfolding step tp_queue worker_loop worker_starts job_finish
served-Reach =
    next willing (finish 0) (next willing (start 0) (next willing (queue true) here refl) refl) refl

served-Inv : Inv plain served
unfolding tp_create
served-Inv = Reach-Inv plain 1 1 (some 2) one_to_one served refl served-Reach

Reach-Inv_example : Inv plain served
unfolding tp_create
Reach-Inv_example = Reach-Inv plain 1 1 (some 2) one_to_one served refl served-Reach

tp_wait-over_example :
    (served.accepted ≡ served.started ++ served.dropped)
    × ((j : ℕ) → count j served.over ≡ count j served.started)
unfolding step tp_queue worker_loop worker_starts job_finish tp_wait
tp_wait-over_example = tp_wait-over plain served served-Inv refl

tp_queue-accepts_example :
    let (tp, again, ok) =
      tp_queue plain true (record { malloc = true; create = false }) 7 one_to_one in
    ((true ≡ false) × (tp ≡ one_to_one) × (ok ≡ false))
    ⊎ ((true ≡ true) × (tp.jobq ≡ 7 ∷ []) × (ok ≡ false))
tp_queue-accepts_example =
    tp_queue-accepts plain true (record { malloc = true; create = false }) 7 one_to_one

worker-ne-spins_example :
    ((worker_loop plain willing 0 served.pool).1 ≢ spins)
    × ((worker_wakes plain willing 0 served.pool).1 ≢ spins)
worker-ne-spins_example = worker-ne-spins plain willing 0 served.pool

burst-fresh_example :
    (w : World (List ℕ)) × (calls plain 3 (first plain one_to_one) ≡ some w)
    × (Reach plain (first plain one_to_one) w)
    × (length w.fresh ≡ 3)
    × (w.pool.t_total ≡ 0)
unfolding tp_create
burst-fresh_example = burst-fresh plain 3 1 1 (some 2) one_to_one refl
