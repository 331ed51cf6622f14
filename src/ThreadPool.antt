-- ===== src/ThreadPool.antt =====
-- src/system/nx/thread_pool: the pool of threads and its job queue (_thread_pool.c, _tp_job.c,
-- _tp_thread.c). What happens under `pool_mtx`, from taking the mutex to giving it up in an unlock, a
-- `pthread_cond_wait` or an exit, is one step; a run is a sequence of steps in any order.
-- Threads and jobs are numbered in the order of their creation. `t_total` counts threads that exist;
-- their number is far below 2 ^ 32, so neither `++` nor `--` wraps.
pub mod World
pub mod Entries
pub mod Inv
pub mod Moves
pub mod Steps
pub mod Wait
pub mod Growth
pub mod Tests
use c_liber.Prelude.{
  ℕ, zero, suc, ◌+◌, ◌-◌, Bool, true, false, not, ◌&&◌, ◌||◌, Option, none, some, List, [], ◌∷◌,
  ◌++◌, ltb, leb, ◌==◌, length, if◌then◌else◌,
}
use c_liber.DList.{DList}

-- `struct _thread_pool`, with a field for each flag of `state`.
pub record Pool (Head : Type 0) : Type 0 where
  pub t_min : ℕ
  pub t_max : ℕ
  pub timeout_sec : ℕ
  pub pool_busy : Bool
  pub pool_wait : Bool
  pub pool_cancel : Bool
  pub t_total : ℕ
  pub activeq : Head
  pub idleq : Head
  pub jobq : Head

-- What a worker does when it gives up the mutex in `thread_idle` or leaves it: it waits for a job
-- (with a timeout or without), it exits, or it goes on with the loop of `create_worker`.
pub data Idle : Type 0 where
  waits : (timed : Bool) → Idle
  exits : Idle
  goes_on : Idle

-- The end of a worker's critical section: it waits, it has ended, or it runs a job. `spins` stands
-- for a round of the loop of `create_worker` that finds neither the flag nor a job.
pub data After : Type 0 where
  waiting : (timed : Bool) → After
  ended : After
  running : (job : ℕ) → After
  spins : After

-- Whether `malloc` and `pthread_create` succeed.
pub record Spawn : Type 0 where
  pub malloc : Bool
  pub create : Bool

abbrev pub spawned : Spawn → Bool
spawned s = s.malloc && s.create

module _ (dl : DList) where
  open dl use {Head, entries, init, list_empty, list_push, list_shift, list_del}

  -- `tp_create` for given numbers; a negative timeout is `none`. The other calls have succeeded.
  unfoldable pub tp_create : (t_num_min t_num_max : ℕ) → Option ℕ → Option (Pool Head)
  tp_create t_num_min t_num_max timeout = if leb t_num_min t_num_max then some tp else none
    where
      tp : Pool Head
      tp = record {
        t_min = if t_num_min == 0 then 5 else t_num_min;
        t_max = if t_num_max == 0 then 100 else t_num_max;
        timeout_sec = elim timeout [ none ↦ 2 | some sec ↦ sec ];
        pool_busy = false;
        pool_wait = false;
        pool_cancel = false;
        t_total = 0;
        activeq = init;
        idleq = init;
        jobq = init;
      }

  -- `tp_job_equeue` of a job that `malloc` gave; the signal to an idle worker is the scheduler's to
  -- use.
  unfoldable pub tp_job_equeue : ℕ → Pool Head → Pool Head
  tp_job_equeue job tp = record tp { jobq = list_push job tp.jobq; pool_busy = true }

  -- `tp_queue`: whether a thread is spawned, and whether the call returns 0.
  unfoldable pub tp_queue :
      (malloc : Bool) → Spawn → (job : ℕ) → Pool Head → Pool Head × Bool × Bool
  unfolding tp_job_equeue
  tp_queue malloc spawn job tp =
      let queued : Pool Head = tp_job_equeue job tp in
      if malloc
      then (if list_empty queued.idleq
            && ltb queued.t_total queued.t_max
            && not (list_empty queued.jobq)
          then (queued, spawned spawn, spawned spawn)
          else (queued, false, true))
      else (tp, false, false)

  unfoldable pub tp_notify_waiter : Pool Head → Pool Head
  tp_notify_waiter tp =
      if list_empty tp.activeq && list_empty tp.jobq then record tp { pool_wait = false } else tp

  -- The loop of `thread_idle`, up to the next wait. With a timeout of 0 the worker exits at once.
  unfoldable pub idle_loop : Pool Head → Pool Head × Idle
  idle_loop tp =
      if list_empty tp.jobq && not tp.pool_cancel
      then (let calm : Pool Head =
            if list_empty tp.activeq then record tp { pool_busy = false } else tp in
          if leb tp.t_total tp.t_min
          then (calm, waits false)
          else if tp.timeout_sec == 0
          then (calm, exits)
          else (calm, waits true))
      else (tp, goes_on)

  unfoldable pub thread_idle : Pool Head → Pool Head × Idle
  unfolding tp_notify_waiter idle_loop
  thread_idle tp = idle_loop (if tp.pool_wait then tp_notify_waiter tp else tp)

  -- `list_move_tail(&t->l_ent, …)`: the thread leaves the list that it is in.
  unfoldable pub move_to_idle : ℕ → Pool Head → Pool Head
  move_to_idle t tp = record tp {
    activeq = list_del t tp.activeq;
    idleq = list_push t (list_del t tp.idleq);
  }

  unfoldable pub move_to_active : ℕ → Pool Head → Pool Head
  move_to_active t tp = record tp {
    activeq = list_push t (list_del t tp.activeq);
    idleq = list_del t tp.idleq;
    pool_busy = true;
  }

  -- `worker_cleanup`: the pool, and whether a thread is spawned in the place of this one.
  unfoldable pub worker_cleanup : Spawn → ℕ → Pool Head → Pool Head × Bool
  worker_cleanup spawn t tp =
      let left : Pool Head = record tp {
        t_total = tp.t_total - 1;
        activeq = list_del t tp.activeq;
        idleq = list_del t tp.idleq;
      } in
      (
        left,
        not left.pool_cancel
            && not (list_empty left.jobq)
            && ltb left.t_total left.t_max
            && spawned spawn,
      )

  quit : Spawn → ℕ → Pool Head → Pool Head × After × Bool
  unfolding worker_cleanup
  quit spawn t tp = let (left, again) = worker_cleanup spawn t tp in (left, ended, again)

  -- The rest of a round of `create_worker` behind `thread_idle`, by the flag and the oldest job.
  pub take_job : Spawn → ℕ → (cancelled : Bool) → Option ℕ → Pool Head → Pool Head × After × Bool
  unfolding quit move_to_active
  take_job spawn t true o tp = quit spawn t tp
  take_job spawn t false none tp = (tp, spins, false)
  take_job spawn t false (some job) tp =
      (move_to_active t (record tp { jobq = (list_shift tp.jobq).1 }), running job, false)

  pub round : Spawn → ℕ → Pool Head → Idle → Pool Head × After × Bool
  unfolding quit take_job
  round spawn t tp (waits timed) = (tp, waiting timed, false)
  round spawn t tp exits = quit spawn t tp
  round spawn t tp goes_on = take_job spawn t tp.pool_cancel (list_shift tp.jobq).0 tp

  -- From the head of the `for` loop on, and from the return of a wait on.
  unfoldable pub worker_loop : Spawn → ℕ → Pool Head → Pool Head × After × Bool
  unfolding thread_idle round
  worker_loop spawn t tp = let (tp', idle) = thread_idle tp in round spawn t tp' idle

  unfoldable pub worker_wakes : Spawn → ℕ → Pool Head → Pool Head × After × Bool
  unfolding idle_loop round
  worker_wakes spawn t tp = let (tp', idle) = idle_loop tp in round spawn t tp' idle

  -- `create_worker` up to the loop.
  unfoldable pub worker_starts : ℕ → Pool Head → Pool Head
  unfolding move_to_idle
  worker_starts t tp = let moved = move_to_idle t tp in record moved { t_total = tp.t_total + 1 }

  -- `job_finish`, which keeps the mutex.
  unfoldable pub job_finish : ℕ → Pool Head → Pool Head
  unfolding move_to_idle tp_notify_waiter
  job_finish t tp =
      let moved = move_to_idle t tp in if moved.pool_wait then tp_notify_waiter moved else moved

  -- The loop of `tp_job_queue_destroy`, which frees each entry that it shifts. As many rounds as the
  -- list has entries empty it.
  unfoldable pub tp_job_queue_destroy : (fuel : ℕ) → Head → Head
  tp_job_queue_destroy zero jobq = jobq
  tp_job_queue_destroy (suc fuel) jobq =
      let rest = tp_job_queue_destroy fuel (list_shift jobq).1 in
      if list_empty jobq then jobq else rest

  -- The first critical section of `tp_cancel`; the threads that it cancels end by steps of their own.
  unfoldable pub tp_cancel : Pool Head → Pool Head
  unfolding tp_job_queue_destroy
  tp_cancel tp = record tp {
    pool_cancel = true;
    jobq = tp_job_queue_destroy (length (entries tp.jobq)) tp.jobq;
  }

  -- The test of `tp_wait` and of `tp_is_busy`.
  unfoldable pub tp_is_busy : Pool Head → Bool
  tp_is_busy tp = not (list_empty tp.jobq) || not (list_empty tp.activeq)

  -- A round of the loop of `tp_wait`: it blocks with the flag set, or returns.
  unfoldable pub tp_wait : Pool Head → Pool Head × Bool
  tp_wait tp =
      if list_empty tp.activeq && list_empty tp.jobq
      then (tp, true)
      else (record tp { pool_wait = true }, false)
