-- ===== src/ThreadPool/World.antt =====
-- A process with one pool of src/system/nx/thread_pool: the pool, its threads and its jobs, and the
-- steps by which the threads and the callers of the pool move it.
use c_liber.Prelude.{
  ℕ, ◌+◌, ◌≡◌, Bool, false, ◌&&◌, Option, none, some, List, [], ◌∷◌, ◌++◌, ltb, ◌==◌, if◌then◌else◌,
  count,
}
use c_liber.DList.{DList, without}
use c_liber.ThreadPool.{
  Pool, Spawn, After, waiting, ended, running, spins, tp_queue, tp_wait, tp_cancel, worker_loop,
  worker_wakes, worker_starts, worker_cleanup, job_finish,
}

-- A thread that has been created has taken the mutex for the first time, or is in `fresh`; then it is
-- in `idleq`, waiting, or in `activeq`, running the job `job_of`. The lists of jobs are in the order of
-- the events: put into the queue, taken by a thread, run to its end or broken off, freed by `tp_cancel`.
pub record World (Head : Type 0) : Type 0 where
  pub pool : Pool Head
  pub fresh : List ℕ
  pub timed : ℕ → Bool
  pub job_of : ℕ → ℕ
  pub next_thread : ℕ
  pub next_job : ℕ
  pub targets : List ℕ
  pub accepted : List ℕ
  pub started : List ℕ
  pub over : List ℕ
  pub dropped : List ℕ

pub data Event : Type 0 where
  -- a call of `tp_queue`, of `tp_cancel`, a round of `tp_wait`
  queue : (malloc : Bool) → Event
  cancel : Event
  wait : Event
  -- a thread gets the mutex: for the first time, after a wait, after a wait that timed out, after its
  -- job, or as its cancellation is acted upon
  start wake timeout finish die : (thread : ℕ) → Event

-- A function that is changed at one number.
abbrev pub update {ℓ} : {A : Type ℓ} (f : ℕ → A) (t : ℕ) (a : A) (u : ℕ) → A
update f t a u = if u == t then a else f u

abbrev pub has : ℕ → List ℕ → Bool
has t xs = ltb 0 (count t xs)

module _ (dl : DList) where
  open dl use {Head, entries}

  -- A thread is created if the last part of a step says so.
  unfoldable pub create : Bool → World Head → World Head
  create again w =
      if again
      then record w { fresh = w.fresh ++ w.next_thread ∷ []; next_thread = w.next_thread + 1 }
      else w

  -- What a worker's critical section leads to.
  unfoldable pub settle : ℕ → Pool Head × After × Bool → World Head → World Head
  unfolding create
  settle t (tp, waiting timed, again) w =
      create again (record w { pool = tp; timed = update w.timed t timed })
  settle t (tp, ended, again) w = create again (record w { pool = tp })
  settle t (tp, spins, again) w = create again (record w { pool = tp })
  settle t (tp, running job, again) w =
      create again
        (record w { pool = tp; job_of = update w.job_of t job; started = w.started ++ job ∷ [] })

  unfoldable pub leave : ℕ → Pool Head × Bool → World Head → World Head
  unfolding create
  leave t (tp, again) w = create again (record w { pool = tp })

  -- The job of a thread is over.
  unfoldable pub end_job : ℕ → World Head → World Head
  end_job t w = record w { over = w.over ++ w.job_of t ∷ []; pool = job_finish dl t w.pool }

  unfoldable pub begin_thread : ℕ → World Head → World Head
  begin_thread t w = record w { fresh = without t w.fresh; pool = worker_starts dl t w.pool }

  unfoldable pub queued : Pool Head × Bool × Bool → World Head → World Head
  unfolding create
  queued (tp, again, ok) w =
      create again (record w {
        pool = tp;
        accepted = w.accepted ++ w.next_job ∷ [];
        next_job = w.next_job + 1;
      })

  -- `none` where the event cannot happen.
  unfoldable pub step : Spawn → Event → World Head → Option (World Head)
  unfolding settle leave end_job queued begin_thread
  step spawn (queue malloc) w =
      some (if malloc then queued (tp_queue dl malloc spawn w.next_job w.pool) w else w)
  step spawn cancel w = some (record w {
    pool = tp_cancel dl w.pool;
    targets = entries w.pool.activeq ++ entries w.pool.idleq;
    dropped = w.dropped ++ entries w.pool.jobq;
  })
  step spawn wait w = some (record w { pool = (tp_wait dl w.pool).0 })
  step spawn (start t) w =
      if has t w.fresh
      then (let begun = begin_thread t w in
          some (settle t (worker_loop dl spawn t begun.pool) begun))
      else none
  step spawn (wake t) w =
      if has t (entries w.pool.idleq)
      then some (settle t (worker_wakes dl spawn t w.pool) w)
      else none
  step spawn (timeout t) w =
      if has t (entries w.pool.idleq) && w.timed t
      then some (leave t (worker_cleanup dl spawn t w.pool) w)
      else none
  step spawn (finish t) w =
      if has t (entries w.pool.activeq)
      then (let done = end_job t w in some (settle t (worker_loop dl spawn t done.pool) done))
      else none
  step spawn (die t) w =
      if has t w.targets && has t (entries w.pool.activeq)
      then (let done = end_job t w in some (leave t (worker_cleanup dl spawn t done.pool) done))
      else if has t w.targets && has t (entries w.pool.idleq)
      then some (leave t (worker_cleanup dl spawn t w.pool) w)
      else none

  -- The runs of a pool.
  pub data Reach (w : World Head) : World Head → Type 0 where
    here : Reach w w
    next :
        {u v : World Head} (spawn : Spawn) (e : Event)
        → Reach w u
        → step spawn e u ≡ some v
        → Reach w v

  abbrev pub first : Pool Head → World Head
  first tp = record {
    pool = tp;
    fresh = [];
    timed = λ t. false;
    job_of = λ t. 0;
    next_thread = 0;
    next_job = 0;
    targets = [];
    accepted = [];
    started = [];
    over = [];
    dropped = [];
  }
