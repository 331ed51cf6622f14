-- ===== src/ThreadPool/Steps.antt =====
-- Each step of src/system/nx/thread_pool keeps the invariant of the pool, in whatever order the
-- threads and the callers take their steps.
use mathlib.Core.Path.{subst}
use mathlib.Core.Option.{some-injective}
use c_liber.Prelude.{
  ℕ, zero, suc, ◌+◌, ◌≤◌, ◌<◌, ◌≡◌, refl, ap, sym, ◌∙◌, Bool, true, false, ◌&&◌, Option, none, some,
  List, [], ◌∷◌, ◌++◌, if◌then◌else◌, arith, length, count, append_assoc, append-nil, inl, inr,
  Bool-cases,
}
use c_liber.DList.{DList, is_nil, rest}
use c_liber.ThreadPool.{
  Pool, Spawn, Idle, waits, exits, goes_on, worker_cleanup, take_job, round, worker_loop,
  worker_wakes, tp_cancel, tp_job_queue_destroy, tp_queue, tp_wait, tp_create, tp_job_equeue,
  spawned,
}
use c_liber.ThreadPool.World.{
  World, Event, queue, cancel, wait, start, wake, timeout, finish, die, has, settle, leave, queued,
  step, Reach, here, next, first,
}
use c_liber.ThreadPool.Inv.{
  Inv, idles, actives, waiting_jobs, idle_loop-SameLists, thread_idle-SameLists, Inv-SameLists,
  create-Inv,
}
use c_liber.ThreadPool.Moves.{start-Inv, has-start, end_job-Inv, has-end_job, leave-Inv, take-Inv}

module _ (dl : DList) where
  open dl use {
    Head, entries, list_empty, list_shift, list_push, entries-init, list_empty_lem, entries-push,
    shift-entry, entries-shift,
  }

  take_job-Inv :
      (spawn : Spawn) (t : ℕ) (tp : Pool Head) (cancelled : Bool) (o : Option ℕ) (w : World Head)
      → tp.pool_cancel ≡ cancelled
      → (list_shift tp.jobq).0 ≡ o
      → 0 < count t (entries tp.idleq)
      → Inv dl (record w { pool = tp })
      → Inv dl (settle dl t (take_job dl spawn t cancelled o tp) w)
  unfolding settle take_job
  take_job-Inv spawn t tp true o w c e h v =
      create-Inv dl _ _ (leave-Inv dl spawn t (record w { pool = tp }) h v)
  take_job-Inv spawn t tp false none w c e h v = create-Inv dl false _ v
  take_job-Inv spawn t tp false (some job) w c e h v =
      create-Inv dl false _ (take-Inv dl t job (record w { pool = tp }) h c e v)

  -- The end of a critical section of a thread in the idle queue.
  round-Inv :
      (spawn : Spawn) (t : ℕ) (tp : Pool Head) (idle : Idle) (w : World Head)
      → 0 < count t (entries tp.idleq)
      → Inv dl (record w { pool = tp })
      → Inv dl (settle dl t (round dl spawn t tp idle) w)
  unfolding settle round
  round-Inv spawn t tp (waits timed) w h v =
      create-Inv dl false _
        (record { once = v.once; total = v.total; order = v.order; kept = v.kept; ends = v.ends })
  round-Inv spawn t tp exits w h v =
      create-Inv dl _ _ (leave-Inv dl spawn t (record w { pool = tp }) h v)
  round-Inv spawn t tp goes_on w h v =
      take_job-Inv spawn t tp tp.pool_cancel (list_shift tp.jobq).0 w refl refl h v

  wakes-Inv :
      (spawn : Spawn) (t : ℕ) (w : World Head)
      → 0 < count t (idles dl w)
      → Inv dl w
      → Inv dl (settle dl t (worker_wakes dl spawn t w.pool) w)
  unfolding worker_wakes
  wakes-Inv spawn t w h v =
      let same = idle_loop-SameLists dl w.pool in
      round-Inv spawn t _ _ w (subst (λ q. 0 < count t (entries q)) (sym same.idleq) h)
        (Inv-SameLists dl w w.pool _ same v)

  loop-Inv :
      (spawn : Spawn) (t : ℕ) (w : World Head)
      → 0 < count t (idles dl w)
      → Inv dl w
      → Inv dl (settle dl t (worker_loop dl spawn t w.pool) w)
  unfolding worker_loop
  loop-Inv spawn t w h v =
      let same = thread_idle-SameLists dl w.pool in
      round-Inv spawn t _ _ w (subst (λ q. 0 < count t (entries q)) (sym same.idleq) h)
        (Inv-SameLists dl w w.pool _ same v)

  leaves-Inv :
      (spawn : Spawn) (t : ℕ) (w : World Head)
      → 0 < count t (idles dl w)
      → Inv dl w
      → Inv dl (leave dl t (worker_cleanup dl spawn t w.pool) w)
  unfolding leave
  leaves-Inv spawn t w h v = create-Inv dl _ _ (leave-Inv dl spawn t w h v)

  -- The loop of `tp_job_queue_destroy` empties the queue.
  entries-destroy :
      (fuel : ℕ) (jobq : Head)
      → length (entries jobq) ≤ fuel
      → entries (tp_job_queue_destroy dl fuel jobq) ≡ []
  unfolding tp_job_queue_destroy
  entries-destroy zero jobq h = nil_of_length (entries jobq) h
    where
      nil_of_length : (xs : List ℕ) → length xs ≤ 0 → xs ≡ []
      nil_of_length [] h = refl
      nil_of_length (x ∷ xs) h = absurd (omega arith)
  entries-destroy (suc fuel) jobq h = elim (Bool-cases (list_empty jobq)) [
    | inl e ↦ rw e (empty (entries jobq) (sym (list_empty_lem jobq) ∙ e))
    | inr e ↦ rw e (
        entries-destroy fuel (list_shift jobq).1
          (rw (entries-shift jobq) (shorter (entries jobq) (sym (list_empty_lem jobq) ∙ e) h)))
  ]
    where
      empty : (xs : List ℕ) → is_nil xs ≡ true → xs ≡ []
      empty [] q = refl
      empty (x ∷ xs) q = absurd (cc)

      shorter : (xs : List ℕ) → is_nil xs ≡ false → length xs ≤ suc fuel → length (rest xs) ≤ fuel
      shorter [] q l = omega arith
      shorter (x ∷ xs) q l = omega arith

  cancel-Inv :
      (w : World Head)
      → Inv dl w
      → Inv dl (record w {
        pool = tp_cancel dl w.pool;
        targets = entries w.pool.activeq ++ entries w.pool.idleq;
        dropped = w.dropped ++ entries w.pool.jobq;
      })
  unfolding tp_cancel
  cancel-Inv w v = record {
    once = v.once;
    total = v.total;
    order = rw (entries-destroy (length (waiting_jobs dl w)) w.pool.jobq (omega arith)) (
        v.order
        ∙ append_assoc w.started w.dropped (waiting_jobs dl w)
        ∙ sym (append-nil (w.started ++ (w.dropped ++ waiting_jobs dl w))));
    kept = λ c. absurd (cc);
    ends = v.ends;
  }

  -- A job enters the queue; the thread that may be spawned for it is not in a queue yet.
  enqueue-Inv :
      (w : World Head)
      → Inv dl w
      → Inv dl (record w {
        pool = tp_job_equeue dl w.next_job w.pool;
        accepted = w.accepted ++ w.next_job ∷ [];
        next_job = w.next_job + 1;
      })
  unfolding tp_job_equeue
  enqueue-Inv w v = record {
    once = v.once;
    total = v.total;
    order = rw (entries-push w.next_job w.pool.jobq) (
        ap (λ xs. xs ++ w.next_job ∷ []) v.order
        ∙ append_assoc (w.started ++ w.dropped) (waiting_jobs dl w) (w.next_job ∷ []));
    kept = v.kept;
    ends = v.ends;
  }

  queue-Inv :
      (spawn : Spawn) (w : World Head)
      → Inv dl w
      → Inv dl (queued dl (tp_queue dl true spawn w.next_job w.pool) w)
  unfolding queued tp_queue
  queue-Inv spawn w v =
      let added = enqueue-Inv w v in
      ground (arith, create-Inv dl (spawned spawn) _ added, create-Inv dl false _ added)

  wait-Inv : (w : World Head) → Inv dl w → Inv dl (record w { pool = (tp_wait dl w.pool).0 })
  unfolding tp_wait
  wait-Inv w v = elim (Bool-cases (list_empty w.pool.activeq && list_empty w.pool.jobq)) [
    | inl e ↦ rw e v
    | inr e ↦
        rw e
          (record { once = v.once; total = v.total; order = v.order; kept = v.kept; ends = v.ends })
  ]

  positive : (t : ℕ) (xs : List ℕ) → has t xs ≡ true → 0 < count t xs
  positive t xs h = ground arith

  guarded :
      (b : Bool) (o : Option (World Head)) (x u : World Head)
      → (b ≡ true → Inv dl x)
      → ((v : World Head) → o ≡ some v → Inv dl v)
      → (if b then some x else o) ≡ some u
      → Inv dl u
  guarded true o x u h k e = subst (Inv dl) (some-injective _ _ e) (h refl)
  guarded false o x u h k e = k u e

  never : (v : World Head) → none ≡ some v → Inv dl v
  never v e = absurd (cc)

  -- Each step keeps the invariant.
  pub step-Inv :
      (spawn : Spawn) (e : Event) (w u : World Head)
      → Inv dl w
      → step dl spawn e w ≡ some u
      → Inv dl u
  unfolding step
  step-Inv spawn (queue true) w u v e = subst (Inv dl) (some-injective _ _ e) (queue-Inv spawn w v)
  step-Inv spawn (queue false) w u v e = subst (Inv dl) (some-injective _ _ e) v
  step-Inv spawn cancel w u v e = subst (Inv dl) (some-injective _ _ e) (cancel-Inv w v)
  step-Inv spawn wait w u v e = subst (Inv dl) (some-injective _ _ e) (wait-Inv w v)
  step-Inv spawn (start t) w u v e =
      guarded (has t w.fresh) none _ u
        (λ h. loop-Inv spawn t _ (has-start dl t w) (start-Inv dl t w (positive t w.fresh h) v))
        never e
  step-Inv spawn (wake t) w u v e =
      guarded (has t (idles dl w)) none _ u (λ h. wakes-Inv spawn t w (positive t _ h) v) never e
  step-Inv spawn (timeout t) w u v e =
      guarded (has t (idles dl w) && w.timed t) none _ u
        (λ h. leaves-Inv spawn t w (ground arith) v) never e
  step-Inv spawn (finish t) w u v e =
      guarded (has t (actives dl w)) none _ u
        (λ h. loop-Inv spawn t _ (has-end_job dl t w) (end_job-Inv dl t w (positive t _ h) v)) never
        e
  step-Inv spawn (die t) w u v e =
      guarded (has t w.targets && has t (actives dl w)) _ _ u
        (λ h. leaves-Inv spawn t _ (has-end_job dl t w) (end_job-Inv dl t w (ground arith) v))
        (λ x.
          guarded (has t w.targets && has t (idles dl w)) none _ x
            (λ h. leaves-Inv spawn t w (ground arith) v) never)
        e

  Inv-first :
      (a b : ℕ) (secs : Option ℕ) (tp : Pool Head)
      → tp_create dl a b secs ≡ some tp
      → Inv dl (first dl tp)
  unfolding tp_create
  Inv-first a b secs tp e =
      let none_active : entries tp.activeq ≡ [] = ground (arith, entries-init) in
      let none_idle : entries tp.idleq ≡ [] = ground (arith, entries-init) in
      let none_queued : entries tp.jobq ≡ [] = ground (arith, entries-init) in
      let none_counted : tp.t_total ≡ 0 = ground arith in
      record {
        once = λ t. rw (none_idle, none_active) (ground arith);
        total = rw (none_idle, none_active, none_counted);
        order = rw none_queued;
        kept = λ c. refl;
        ends = λ j. rw none_active;
      }

  -- In every run of a pool, by whatever steps in whatever order: a thread is in one place, `t_total`
  -- counts the threads of the two queues, the jobs that have been started, those that `tp_cancel` freed
  -- and those in the queue are, in this order, the jobs that were accepted, nothing is freed before the
  -- pool is cancelled, and each job is run by a thread or over as often as it was started.
  pub Reach-Inv :
      (a b : ℕ) (secs : Option ℕ) (tp : Pool Head) (w : World Head)
      → tp_create dl a b secs ≡ some tp
      → Reach dl (first dl tp) w
      → Inv dl w
  Reach-Inv a b secs tp w e here = Inv-first a b secs tp e
  Reach-Inv a b secs tp w e (next spawn ev r s) =
      step-Inv spawn ev _ w (Reach-Inv a b secs tp _ e r) s
