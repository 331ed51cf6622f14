-- ===== src/ThreadPool/Growth.antt =====
-- How many threads a burst of calls of `tp_queue` makes (src/system/nx/thread_pool/_thread_pool.c).
-- `t_total` is counted up by the new thread itself, when it first gets the mutex.
use c_liber.Prelude.{
  ℕ, zero, suc, ◌<◌, ◌≡◌, refl, true, false, Option, none, some, List, [], ◌∷◌, ◌++◌, arith, length,
  length-append,
}
use c_liber.DList.{DList, is_nil}
use c_liber.ThreadPool.{Pool, Spawn, tp_create, tp_queue, tp_job_equeue}
use c_liber.ThreadPool.World.{World, Reach, here, next, first, queue, queued, step, create}

abbrev pub willing : Spawn
willing = record { malloc = true; create = true }

nonempty : (xs : List ℕ) (x : ℕ) → is_nil (xs ++ x ∷ []) ≡ false
nonempty [] x = refl
nonempty (y ∷ xs) x = refl

module _ (dl : DList) where
  open dl use {Head, entries, list_empty, list_push, entries-init, list_empty_lem, entries-push}

  -- A pool in which n threads have been created and none of them has run.
  record Crowd (n : ℕ) (w : World Head) : Type 0 where
    created : length w.fresh ≡ n
    uncounted : w.pool.t_total ≡ 0
    room : 0 < w.pool.t_max
    none_idle : entries w.pool.idleq ≡ []

  abbrev waiting : World Head → List ℕ
  waiting w = entries w.pool.jobq

  abbrev one_more : World Head → World Head
  one_more w = queued dl (tp_queue dl true willing w.next_job w.pool) w

  Crowd-first :
      (a b : ℕ) (secs : Option ℕ) (tp : Pool Head)
      → tp_create dl a b secs ≡ some tp
      → Crowd 0 (first dl tp)
  unfolding tp_create
  Crowd-first a b secs tp e = record {
    created = refl;
    uncounted = grind arith;
    room = grind arith;
    none_idle = grind (arith, entries-init);
  }

  Crowd-one_more : (n : ℕ) (w : World Head) → Crowd n w → Crowd (suc n) (one_more w)
  unfolding queued create tp_queue tp_job_equeue
  Crowd-one_more n w c = record {
    created = ground (
      arith,
      c.uncounted,
      c.room,
      c.none_idle,
      c.created,
      list_empty_lem w.pool.idleq,
      list_empty_lem (list_push w.next_job w.pool.jobq),
      entries-push w.next_job w.pool.jobq,
      nonempty (waiting w) w.next_job,
      length-append w.fresh (w.next_thread ∷ []),
    );
    uncounted = ground (arith, c.uncounted);
    room = ground (arith, c.room);
    none_idle = ground (arith, c.none_idle);
  }

  crowd-step : (w : World Head) → step dl willing (queue true) w ≡ some (one_more w)
  unfolding step
  crowd-step w = refl

  -- The pool after n calls of `tp_queue`, with no step of a worker between them.
  abbrev pub calls : (n : ℕ) → World Head → Option (World Head)
  calls zero w = some w
  calls (suc n) w = elim (calls n w) [ none ↦ none | some w' ↦ step dl willing (queue true) w' ]

  burst :
      (n : ℕ) (start : World Head)
      → Crowd 0 start
      → (w : World Head) × (calls n start ≡ some w) × (Reach dl start w) × Crowd n w
  burst zero start c = (start, refl, here, c)
  burst (suc n) start c =
      let (w, e, r, crowd) = burst n start c in
      (
        one_more w,
        rw e (crowd-step w),
        next willing (queue true) r (crowd-step w),
        Crowd-one_more n w crowd,
      )

  -- For a pool of any t_max, n calls of `tp_queue` before the first new thread runs lead to a
  -- reachable state with n created threads that have not run, none of which `t_total` counts: t_max
  -- does not bound the number of threads.
  pub burst-fresh :
      (n a b : ℕ) (secs : Option ℕ) (tp : Pool Head)
      → tp_create dl a b secs ≡ some tp
      → (w : World Head) × (calls n (first dl tp) ≡ some w)
        × (Reach dl (first dl tp) w)
        × (length w.fresh ≡ n)
        × (w.pool.t_total ≡ 0)
  burst-fresh n a b secs tp e =
      let (w, called, r, c) = burst n (first dl tp) (Crowd-first a b secs tp e) in
      (w, called, r, c.created, c.uncounted)
