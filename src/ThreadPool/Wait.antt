-- ===== src/ThreadPool/Wait.antt =====
-- What `tp_wait` and `tp_queue` of src/system/nx/thread_pool/_thread_pool.c tell their callers, and
-- that a worker's loop does not spin.
use c_liber.Prelude.{
  ℕ, ◌≡◌, refl, ap, sym, ◌∙◌, ◌≢◌, Bool, true, false, not, ◌&&◌, Option, none, some, List, [], ◌∷◌,
  ◌++◌, map, arith, count, append-nil, ◌⊎◌, inl, inr, ltb, if◌then◌else◌,
}
use c_liber.DList.{DList, is_nil, first?}
use c_liber.ThreadPool.{
  Pool, Spawn, spawned, Idle, waits, exits, goes_on, spins, idle_loop, thread_idle, round, take_job,
  worker_loop, worker_wakes, tp_wait, tp_queue, tp_job_equeue, tp_notify_waiter,
}
use c_liber.ThreadPool.World.{World}
use c_liber.ThreadPool.Inv.{Inv, actives, waiting_jobs}

nil_of_is_nil : (xs : List ℕ) → is_nil xs ≡ true → xs ≡ []
nil_of_is_nil [] h = refl
nil_of_is_nil (x ∷ xs) h = absurd (cc)

module _ (dl : DList) where
  open dl use {
    Head, entries, list_empty, list_shift, list_push, list_empty_lem, entries-push, shift-entry,
  }

  -- When `tp_wait` returns, every job that was accepted has been started or was freed by `tp_cancel`,
  -- and every started job is over.
  pub tp_wait-over :
      (w : World Head)
      → Inv dl w
      → (tp_wait dl w.pool).1 ≡ true
      → (w.accepted ≡ w.started ++ w.dropped) × ((j : ℕ) → count j w.over ≡ count j w.started)
  unfolding tp_wait
  tp_wait-over w v e =
      let idle_pool : (list_empty w.pool.activeq ≡ true) × (list_empty w.pool.jobq ≡ true) =
        ground arith in
      let none_active =
        nil_of_is_nil (actives dl w) (sym (list_empty_lem w.pool.activeq) ∙ idle_pool.0) in
      let none_queued =
        nil_of_is_nil (waiting_jobs dl w) (sym (list_empty_lem w.pool.jobq) ∙ idle_pool.1) in
      (
        v.order
            ∙ ap (◌++◌ (w.started ++ w.dropped)) none_queued
            ∙ append-nil (w.started ++ w.dropped),
        λ j. ground (arith, v.ends j, ap (λ xs. count j (map w.job_of xs)) none_active),
      )

  -- `tp_queue` returns -1 with the pool as it was if there is no memory for the job. Otherwise the job
  -- is the last of the queue, also when `tp_queue` returns -1 because the thread that it wants for it
  -- cannot be created.
  pub tp_queue-accepts :
      (malloc : Bool) (spawn : Spawn) (job : ℕ) (tp : Pool Head)
      → let (tp', again, ok) = tp_queue dl malloc spawn job tp in
        ((malloc ≡ false) × (tp' ≡ tp) × (ok ≡ false))
        ⊎ ((malloc ≡ true)
            × (entries tp'.jobq ≡ entries tp.jobq ++ job ∷ [])
            × (ok ≡ not (list_empty tp.idleq && ltb tp.t_total tp.t_max && not (spawned spawn))))
  unfolding tp_queue tp_job_equeue
  tp_queue-accepts false spawn job tp = inl (refl, refl, refl)
  tp_queue-accepts true spawn job tp = inr (
    refl,
    ground (arith, entries-push job tp.jobq),
    ground (
      arith,
      list_empty_lem (list_push job tp.jobq),
      entries-push job tp.jobq,
      not-nil-append (entries tp.jobq) job,
    ),
  )
    where
      not-nil-append : (xs : List ℕ) (x : ℕ) → is_nil (xs ++ x ∷ []) ≡ false
      not-nil-append [] x = refl
      not-nil-append (y ∷ xs) x = refl

  has_first : (tp : Pool Head) → list_empty tp.jobq ≡ false → (list_shift tp.jobq).0 ≢ none
  has_first tp h =
      rw (shift-entry tp.jobq) (go (entries tp.jobq) (sym (list_empty_lem tp.jobq) ∙ h))
    where
      go : (xs : List ℕ) → is_nil xs ≡ false → first? xs ≢ none
      go [] q = λ _. cc
      go (x ∷ xs) q = λ r. cc

  idle_loop-goes_on :
      (tp : Pool Head)
      → (idle_loop dl tp).1 ≡ goes_on
      → (idle_loop dl tp).0.pool_cancel ≡ false
      → list_empty (idle_loop dl tp).0.jobq ≡ false
  unfolding idle_loop
  idle_loop-goes_on tp e c = ground arith

  round-ne-spins :
      (spawn : Spawn) (t : ℕ) (tp : Pool Head) (idle : Idle)
      → (idle ≡ goes_on → tp.pool_cancel ≡ false → list_empty tp.jobq ≡ false)
      → (round dl spawn t tp idle).1 ≢ spins
  unfolding round
  round-ne-spins spawn t tp (waits timed) h = λ q. cc
  round-ne-spins spawn t tp exits h = λ q. cc
  round-ne-spins spawn t tp goes_on h =
      go tp.pool_cancel (list_shift tp.jobq).0 refl (λ c. has_first tp (h refl c))
    where
      go :
          (c : Bool) (o : Option ℕ)
          → tp.pool_cancel ≡ c
          → (tp.pool_cancel ≡ false → o ≢ none)
          → (take_job dl spawn t c o tp).1 ≢ spins
      go true o e n = unfold take_job in λ q. cc
      go false none e n = absurd (n e refl)
      go false (some job) e n = unfold take_job in λ q. cc

  -- A worker that leaves `thread_idle` finds the pool cancelled or a job in the queue, from the head of
  -- its loop as after a wait: the loop of `create_worker` never goes round with nothing to do.
  pub worker-ne-spins :
      (spawn : Spawn) (t : ℕ) (tp : Pool Head)
      → ((worker_loop dl spawn t tp).1 ≢ spins) × ((worker_wakes dl spawn t tp).1 ≢ spins)
  unfolding worker_loop worker_wakes thread_idle
  worker-ne-spins spawn t tp =
      let noted : Pool Head = if tp.pool_wait then tp_notify_waiter dl tp else tp in
      (
        round-ne-spins spawn t (thread_idle dl tp).0 (thread_idle dl tp).1
            (idle_loop-goes_on noted),
        round-ne-spins spawn t (idle_loop dl tp).0 (idle_loop dl tp).1 (idle_loop-goes_on tp),
      )
