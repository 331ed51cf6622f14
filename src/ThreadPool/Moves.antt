-- ===== src/ThreadPool/Moves.antt =====
-- How a thread moves between the queues of src/system/nx/thread_pool, and that each move keeps the
-- invariant of the pool.
use c_liber.Prelude.{
  ℕ, ◌+◌, ◌<◌, ◌≡◌, refl, ap, sym, ◌∙◌, false, some, List, [], ◌∷◌, ◌++◌, map, if◌then◌else◌, arith,
  count, length-append, count-append, append_assoc, append-nil,
}
use mathlib.Core.Path.{subst}
use c_liber.DList.{DList, without, first?, rest}
use c_liber.ThreadPool.{
  Pool, Spawn, tp_notify_waiter, move_to_idle, move_to_active, worker_cleanup, worker_starts,
  job_finish,
}
use c_liber.ThreadPool.World.{World, update, end_job, begin_thread}
use c_liber.ThreadPool.Entries.{length-without, count-without, without-absent, count-map-without}
use c_liber.ThreadPool.Inv.{Inv, idles, actives, waiting_jobs, SameLists, Inv-SameLists}

map-append : (f : ℕ → ℕ) (xs ys : List ℕ) → map f (xs ++ ys) ≡ map f xs ++ map f ys
map-append f [] ys = refl
map-append f (x ∷ xs) ys = ap (◌∷◌ (f x)) (map-append f xs ys)

-- The oldest job is the next to start.
take-order :
    (all begun dropped jobs : List ℕ) (job : ℕ)
    → all ≡ (begun ++ dropped) ++ jobs
    → dropped ≡ []
    → first? jobs ≡ some job
    → all ≡ ((begun ++ job ∷ []) ++ dropped) ++ rest jobs
take-order all begun dropped [] job e z got = absurd (cc)
take-order all begun dropped (x ∷ jobs) job e z got =
    e
    ∙ ground (
      arith,
      append-nil begun,
      append-nil (begun ++ job ∷ []),
      append_assoc begun (job ∷ []) jobs,
    )

-- A thread that was not active adds its job to the jobs that are run.
take-ends :
    (f : ℕ → ℕ) (j t job : ℕ) (xs : List ℕ)
    → count t xs ≡ 0
    → count j (map (update f t job) (xs ++ t ∷ [])) ≡ count j (map f xs) + count j (job ∷ [])
take-ends f j t job [] h = ground arith
take-ends f j t job (x ∷ xs) h = ground (arith, take-ends f j t job xs)

module _ (dl : DList) where
  open dl use {
    Head, entries, list_shift, list_push, list_del, entries-init, list_empty_lem, entries-push,
    shift-entry, entries-shift, entries-del,
  }

  entries-moved :
      (t : ℕ) (h : Head) → entries (list_push t (list_del t h)) ≡ without t (entries h) ++ t ∷ []
  entries-moved t h = entries-push t (list_del t h) ∙ ap (λ xs. xs ++ t ∷ []) (entries-del t h)

  -- A new thread enters the idle queue.
  pub start-Inv :
      (t : ℕ) (w : World Head) → 0 < count t w.fresh → Inv dl w → Inv dl (begin_thread dl t w)
  unfolding worker_starts begin_thread
  start-Inv t w h v =
      let alone = v.once t in
      let gone_i = without-absent t (idles dl w) (ground arith) in
      let gone_a = without-absent t (actives dl w) (ground arith) in
      let now_i = entries-moved t w.pool.idleq ∙ ap (λ xs. xs ++ t ∷ []) gone_i in
      let now_a = entries-del t w.pool.activeq ∙ gone_a in
      record {
        once = λ u.
            rw (now_i, now_a)
              (ground (
                arith,
                v.once u,
                v.once t,
                count-append u (idles dl w) (t ∷ []),
                count-without u t w.fresh,
              ));
        total = rw (now_i, now_a) (omega (arith, v.total, length-append (idles dl w) (t ∷ [])));
        order = v.order;
        kept = v.kept;
        ends = λ j. rw now_a (v.ends j);
      }

  pub has-start : (t : ℕ) (w : World Head) → 0 < count t (idles dl (begin_thread dl t w))
  unfolding worker_starts begin_thread
  has-start t w =
      rw (entries-moved t w.pool.idleq)
        (ground (arith, count-append t (without t (idles dl w)) (t ∷ [])))

  notified-SameLists :
      (tp : Pool Head) → SameLists dl tp (if tp.pool_wait then tp_notify_waiter dl tp else tp)
  unfolding tp_notify_waiter
  notified-SameLists tp = ground arith

  -- A thread whose job is over goes back to the idle queue.
  back-Inv :
      (t : ℕ) (w : World Head)
      → 0 < count t (actives dl w)
      → Inv dl w
      → Inv dl (record w { over = w.over ++ w.job_of t ∷ []; pool = move_to_idle dl t w.pool })
  unfolding move_to_idle
  back-Inv t w h v =
      let gone_i = without-absent t (idles dl w) (ground (arith, v.once t)) in
      let now_i = entries-moved t w.pool.idleq ∙ ap (λ xs. xs ++ t ∷ []) gone_i in
      let now_a = entries-del t w.pool.activeq in
      record {
        once = λ u.
            rw (now_i, now_a)
              (ground (
                arith,
                v.once u,
                count-append u (idles dl w) (t ∷ []),
                count-without u t (actives dl w),
              ));
        total =
            rw (now_i, now_a)
              (ground (
                arith,
                v.total,
                length-append (idles dl w) (t ∷ []),
                length-without t (actives dl w),
              ));
        order = v.order;
        kept = v.kept;
        ends = λ j. rw now_a (
            ground (
              arith,
              v.ends j,
              count-append j w.over (w.job_of t ∷ []),
              count-map-without w.job_of j t (actives dl w),
            ));
      }

  pub end_job-Inv :
      (t : ℕ) (w : World Head) → 0 < count t (actives dl w) → Inv dl w → Inv dl (end_job dl t w)
  unfolding end_job job_finish
  end_job-Inv t w h v =
      Inv-SameLists dl (record w { over = w.over ++ w.job_of t ∷ [] }) _ _
        (notified-SameLists (move_to_idle dl t w.pool)) (back-Inv t w h v)

  pub has-end_job : (t : ℕ) (w : World Head) → 0 < count t (idles dl (end_job dl t w))
  unfolding end_job job_finish move_to_idle
  has-end_job t w =
      subst (λ q. 0 < count t (entries q))
        (sym (notified-SameLists (move_to_idle dl t w.pool)).idleq)
        (rw (entries-moved t w.pool.idleq)
          (ground (arith, count-append t (without t (idles dl w)) (t ∷ []))))

  -- A thread that ends leaves the idle queue.
  pub leave-Inv :
      (spawn : Spawn) (t : ℕ) (w : World Head)
      → 0 < count t (idles dl w)
      → Inv dl w
      → Inv dl (record w { pool = (worker_cleanup dl spawn t w.pool).0 })
  unfolding worker_cleanup
  leave-Inv spawn t w h v =
      let gone_a = without-absent t (actives dl w) (ground (arith, v.once t)) in
      let now_i = entries-del t w.pool.idleq in
      let now_a = entries-del t w.pool.activeq ∙ gone_a in
      record {
        once = λ u. rw (now_i, now_a) (ground (arith, v.once u, count-without u t (idles dl w)));
        total = rw (now_i, now_a) (ground (arith, v.total, length-without t (idles dl w)));
        order = v.order;
        kept = v.kept;
        ends = λ j. rw now_a (v.ends j);
      }

  -- A thread takes the oldest job, which is possible only before the pool is cancelled.
  pub take-Inv :
      (t job : ℕ) (w : World Head)
      → 0 < count t (idles dl w)
      → w.pool.pool_cancel ≡ false
      → (list_shift w.pool.jobq).0 ≡ some job
      → Inv dl w
      → Inv dl (record w {
        pool = move_to_active dl t (record w.pool { jobq = (list_shift w.pool.jobq).1 });
        job_of = update w.job_of t job;
        started = w.started ++ job ∷ [];
      })
  unfolding move_to_active
  take-Inv t job w h live got v =
      let gone_a = without-absent t (actives dl w) (ground (arith, v.once t)) in
      let now_i = entries-del t w.pool.idleq in
      let now_a = entries-moved t w.pool.activeq ∙ ap (λ xs. xs ++ t ∷ []) gone_a in
      let now_j = entries-shift w.pool.jobq in
      record {
        once = λ u.
            rw (now_i, now_a)
              (ground (
                arith,
                v.once u,
                count-append u (actives dl w) (t ∷ []),
                count-without u t (idles dl w),
              ));
        total =
            rw (now_i, now_a)
              (ground (
                arith,
                v.total,
                length-append (actives dl w) (t ∷ []),
                length-without t (idles dl w),
              ));
        order = rw now_j (
            take-order w.accepted w.started w.dropped (waiting_jobs dl w) job v.order (v.kept live)
              (sym (shift-entry w.pool.jobq) ∙ got));
        kept = λ c. v.kept c;
        ends = λ j. rw now_a (
            ground (
              arith,
              v.ends j,
              v.once t,
              count-append j w.started (job ∷ []),
              take-ends w.job_of j t job (actives dl w),
            ));
      }
