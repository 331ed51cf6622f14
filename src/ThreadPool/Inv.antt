-- ===== src/ThreadPool/Inv.antt =====
-- The invariant of a pool of src/system/nx/thread_pool: every thread is in one place, `t_total`
-- counts the threads of the two queues, and every job is accounted for, in order.
use c_liber.Prelude.{
  ℕ, ◌+◌, ◌≤◌, ◌≡◌, Bool, true, false, List, [], ◌∷◌, ◌++◌, map, ltb, if◌then◌else◌, arith, length,
  count, count-append,
}
use c_liber.DList.{DList}
use c_liber.ThreadPool.{Pool, idle_loop, thread_idle}
use c_liber.ThreadPool.World.{World, create}

module _ (dl : DList) where
  open dl use {Head, entries}

  abbrev pub idles : World Head → List ℕ
  idles w = entries w.pool.idleq

  abbrev pub actives : World Head → List ℕ
  actives w = entries w.pool.activeq

  abbrev pub waiting_jobs : World Head → List ℕ
  waiting_jobs w = entries w.pool.jobq

  pub record Inv (w : World Head) : Type 0 where
    pub once :
        (t : ℕ)
        → count t (idles w) + count t (actives w) + count t w.fresh
          ≤ (if ltb t w.next_thread then 1 else 0)
    pub total : w.pool.t_total ≡ length (idles w) + length (actives w)
    pub order : w.accepted ≡ (w.started ++ w.dropped) ++ waiting_jobs w
    pub kept : w.pool.pool_cancel ≡ false → w.dropped ≡ []
    pub ends : (j : ℕ) → count j (map w.job_of (actives w)) + count j w.over ≡ count j w.started

  -- Two pools that differ in the flags for waiters at most.
  pub record SameLists (p q : Pool Head) : Type 0 where
    pub activeq : q.activeq ≡ p.activeq
    pub idleq : q.idleq ≡ p.idleq
    pub jobq : q.jobq ≡ p.jobq
    pub t_total : q.t_total ≡ p.t_total
    pub pool_cancel : q.pool_cancel ≡ p.pool_cancel

  pub idle_loop-SameLists : (tp : Pool Head) → SameLists tp (idle_loop dl tp).0
  unfolding idle_loop
  idle_loop-SameLists tp = ground arith

  pub thread_idle-SameLists : (tp : Pool Head) → SameLists tp (thread_idle dl tp).0
  unfolding thread_idle
  thread_idle-SameLists tp = ground arith

  pub Inv-SameLists :
      (w : World Head) (p q : Pool Head)
      → SameLists p q
      → Inv (record w { pool = p })
      → Inv (record w { pool = q })
  Inv-SameLists w p q s v = record {
    once = λ t. rw (s.idleq, s.activeq) (v.once t);
    total = rw (s.idleq, s.activeq, s.t_total) v.total;
    order = rw s.jobq v.order;
    kept = rw s.pool_cancel v.kept;
    ends = λ j. rw s.activeq (v.ends j);
  }

  pub create-Inv : (again : Bool) (w : World Head) → Inv w → Inv (create dl again w)
  unfolding create
  create-Inv true w v = record {
    once = λ t. ground (arith, v.once t, count-append t w.fresh (w.next_thread ∷ []));
    total = v.total;
    order = v.order;
    kept = v.kept;
    ends = v.ends;
  }
  create-Inv false w v = v
