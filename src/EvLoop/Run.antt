-- ===== src/EvLoop/Run.antt =====
-- `ev_loop_run` of src/fevent_loop/event_loop.c. Worker threads and other callers work on the queues
-- meanwhile, so what each round of the loop finds is given.
use c_liber.Prelude.{
  ℕ, ◌+◌, ◌≡◌, refl, ◌≢◌, ◌⊎◌, inl, inr, ◌∙◌, Bool, true, false, not, ◌&&◌, ◌||◌, List, [], ◌∷◌,
  ◌++◌, ◌==◌, ap, if◌then◌else◌, arith,
}
use mathlib.Core.Path.{subst}

abbrev pub eintr : ℕ
eintr = 4

-- What `ev_monitor_wait` returns: a number of ready items, or -1 with an error number.
pub data Waited : Type 0 where
  ready : (n : ℕ) → Waited
  failed : (errno : ℕ) → Waited

-- What a round finds: whether jobs are running, whether there are ready items, whether descriptors
-- are watched, whether `ev_loop_stop` has been called since the last round, whether there are ready
-- items before it waits, and what the wait returns.
pub record Round : Type 0 where
  pub rq_is_running : Bool
  pub rq_is_empty : Bool
  pub wpool_is_empty : Bool
  pub stopped : Bool
  pub rq_is_empty_now : Bool
  pub wait : (timeout : ℕ) → Waited

-- EV_NOBLOCK and EV_EMPTY_NOEXIT
pub record Flag : Type 0 where
  pub noblock : Bool
  pub empty_noexit : Bool

-- The result 0 or -1.
pub data Code : Type 0 where
  success minus_one : Code

-- `dispatches` counts the calls of `ev_monitor_dispatch`.
pub data Run : Type 0 where
  looping : (running : Bool) → (dispatches : ℕ) → Run
  returned : Code → (running : Bool) → (dispatches : ℕ) → Run

abbrev pub has_work : Flag → Round → Bool
has_work flag k = k.rq_is_running || not k.rq_is_empty || not k.wpool_is_empty || flag.empty_noexit

abbrev pub timeout : Flag → Round → ℕ
timeout flag k = if flag.noblock || not k.rq_is_empty_now then 0 else 5

after_wait : Waited → (running : Bool) → (dispatches : ℕ) → Run
after_wait (ready n) running dispatches =
    if n == 0 then looping running dispatches else looping running (dispatches + 1)
after_wait (failed errno) running dispatches =
    if errno == eintr then looping running dispatches else returned minus_one false dispatches

unfoldable pub loop_round : Flag → Round → (running : Bool) → (dispatches : ℕ) → Run
unfolding after_wait
loop_round flag k running dispatches =
    if has_work flag k && (running && not k.stopped)
    then after_wait (k.wait (timeout flag k)) (running && not k.stopped) dispatches
    else returned success (running && not k.stopped) dispatches

unfoldable pub loop : Flag → List Round → Run → Run
unfolding loop_round
loop flag [] r = r
loop flag (k ∷ ks) (returned code running dispatches) = returned code running dispatches
loop flag (k ∷ ks) (looping running dispatches) =
    loop flag ks (loop_round flag k running dispatches)

-- `running` is the monitor's flag.
unfoldable pub ev_loop_run : Flag → List Round → (running : Bool) → Run
unfolding loop
ev_loop_run flag ks true = returned minus_one true 0
ev_loop_run flag ks false = loop flag ks (looping true 0)

-- A round has work: jobs are running, items are ready, descriptors are watched, or the loop is not to
-- exit when it is empty.
abbrev pub Works : Flag → Round → Type 0
Works flag k =
    (k.rq_is_running ≡ true)
    ⊎ (k.rq_is_empty ≡ false)
    ⊎ (k.wpool_is_empty ≡ false)
    ⊎ (flag.empty_noexit ≡ true)

abbrev pub IsIdle : Flag → Round → Type 0
IsIdle flag k =
    (k.rq_is_running ≡ false)
    × (k.rq_is_empty ≡ true)
    × (k.wpool_is_empty ≡ true)
    × (flag.empty_noexit ≡ false)

-- How long a round waits: not at all with EV_NOBLOCK or with ready items, and 5 otherwise.
abbrev pub WaitsFor : Flag → Round → (timeout : ℕ) → Type 0
WaitsFor flag k t =
    ((t ≡ 0) × ((flag.noblock ≡ true) ⊎ (k.rq_is_empty_now ≡ false)))
    ⊎ ((t ≡ 5) × (flag.noblock ≡ false) × (k.rq_is_empty_now ≡ true))

-- A round behind which the loop goes on: it has work, nobody stops it, and its wait succeeds or is
-- interrupted by a signal.
abbrev pub GoesOn : Flag → Round → Type 0
GoesOn flag k =
    Works flag k
    × (k.stopped ≡ false)
    × (t : ℕ) × WaitsFor flag k t
    × (((n : ℕ) × (k.wait t ≡ ready n)) ⊎ (k.wait t ≡ failed eintr))

-- How a round can end the loop, or does not.
abbrev pub EndsAt : Flag → Round → Run → Type 0
EndsAt flag k (looping running dispatches) = (running ≡ true) × GoesOn flag k
EndsAt flag k (returned success running dispatches) =
    (k.stopped ≡ true × running ≡ false) ⊎ (IsIdle flag k × (k.stopped ≡ false) × running ≡ true)
EndsAt flag k (returned minus_one running dispatches) =
    Works flag k
    × (k.stopped ≡ false)
    × (t : ℕ) × WaitsFor flag k t
    × (errno : ℕ) × (k.wait t ≡ failed errno)
    × (errno ≢ eintr)
    × (running ≡ false)

abbrev pub AllGoOn : Flag → List Round → Type 0
AllGoOn flag [] = Unit
AllGoOn flag (k ∷ ks) = GoesOn flag k × AllGoOn flag ks

-- The loop goes on behind every round, or the first round behind which it does not has ended it.
abbrev pub Ends : Flag → List Round → Run → Type 0
Ends flag ks (looping running dispatches) = (running ≡ true) × AllGoOn flag ks
Ends flag ks (returned code running dispatches) =
    (before : List Round) × (k : Round) × (after : List Round) × (ks ≡ before ++ k ∷ after)
    × AllGoOn flag before
    × EndsAt flag k (returned code running dispatches)

Works-has_work : (flag : Flag) (k : Round) → has_work flag k ≡ true → Works flag k
Works-has_work flag k h = ground arith

WaitsFor-timeout : (flag : Flag) (k : Round) → WaitsFor flag k (timeout flag k)
WaitsFor-timeout flag k = ground arith

after_wait-EndsAt :
    (flag : Flag) (k : Round) (n : ℕ) (w : Waited)
    → has_work flag k ≡ true
    → k.stopped ≡ false
    → k.wait (timeout flag k) ≡ w
    → EndsAt flag k (after_wait w true n)
unfolding after_wait
after_wait-EndsAt flag k n (ready m) h on e = counted (m == 0)
  where
    goes : GoesOn flag k
    goes = (Works-has_work flag k h, on, timeout flag k, WaitsFor-timeout flag k, inl (m, e))

    counted : (b : Bool) → EndsAt flag k (if b then looping true n else looping true (n + 1))
    counted true = (refl, goes)
    counted false = (refl, goes)
after_wait-EndsAt flag k n (failed errno) h on e = split (errno == eintr) refl
  where
    split :
        (b : Bool)
        → (errno == eintr) ≡ b
        → EndsAt flag k (if b then looping true n else returned minus_one false n)
    split true q =
        let signal : errno ≡ eintr = ground arith in
        let goes : GoesOn flag k = (
          Works-has_work flag k h,
          on,
          timeout flag k,
          WaitsFor-timeout flag k,
          inr (e ∙ ap failed signal),
        ) in
        (refl, goes)
    split false q = (
      Works-has_work flag k h,
      on,
      timeout flag k,
      WaitsFor-timeout flag k,
      errno,
      e,
      ground arith,
      refl,
    )

round-EndsAt : (flag : Flag) (k : Round) (n : ℕ) → EndsAt flag k (loop_round flag k true n)
unfolding loop_round
round-EndsAt flag k n = split (has_work flag k) k.stopped refl refl
  where
    split :
        (work stopped : Bool)
        → has_work flag k ≡ work
        → k.stopped ≡ stopped
        → EndsAt flag k (
            if work && not stopped
            then after_wait (k.wait (timeout flag k)) (not stopped) n
            else returned success (not stopped) n)
    split true false h on = after_wait-EndsAt flag k n (k.wait (timeout flag k)) h on refl
    split false false h on = inr (ground arith, on, refl)
    split true true h off = inl (off, refl)
    split false true h off = inl (off, refl)

later :
    (flag : Flag) (k : Round) (ks : List Round) (r : Run)
    → GoesOn flag k
    → Ends flag ks r
    → Ends flag (k ∷ ks) r
later flag k ks (looping running n) goes (on, all) = (on, (goes, all))
later flag k ks (returned code running n) goes (before, j, after, e, all, end) =
    (k ∷ before, j, after, ap (◌∷◌ k) e, (goes, all), end)

now :
    (flag : Flag) (k : Round) (ks : List Round) (r : Run)
    → EndsAt flag k r
    → ((n : ℕ) → Ends flag ks (loop flag ks (looping true n)))
    → Ends flag (k ∷ ks) (loop flag ks r)
unfolding loop
now flag k ks (looping true n) (on, goes) f =
    later flag k ks (loop flag ks (looping true n)) goes (f n)
now flag k ks (looping false n) (on, goes) f = absurd (cc)
now flag k [] (returned code running n) e f = ([], k, [], refl, tt, e)
now flag k (j ∷ ks) (returned code running n) e f = ([], k, j ∷ ks, refl, tt, e)

loop-Ends : (flag : Flag) (ks : List Round) (n : ℕ) → Ends flag ks (loop flag ks (looping true n))
unfolding loop
loop-Ends flag [] n = (refl, tt)
loop-Ends flag (k ∷ ks) n =
    now flag k ks (loop_round flag k true n) (round-EndsAt flag k n) (loop-Ends flag ks)

-- `ev_loop_run` of a monitor that is not running goes on behind every round that has work, that nobody
-- stops, and whose wait succeeds or is interrupted by a signal; a round has work if jobs are running,
-- items are ready, descriptors are watched or EV_EMPTY_NOEXIT is given, and it waits for 0 with
-- EV_NOBLOCK or ready items and for 5 otherwise. The first other round ends the loop: behind
-- `ev_loop_stop` it returns 0 with the flag off, without work it returns 0 and leaves the flag set,
-- and after a wait that failed for another reason it returns -1 with the flag off.
pub ev_loop_run-Ends : (flag : Flag) (ks : List Round) → Ends flag ks (ev_loop_run flag ks false)
unfolding ev_loop_run
ev_loop_run-Ends flag ks = loop-Ends flag ks 0

abbrev pub never_stopped : List Round → Bool
never_stopped [] = true
never_stopped (k ∷ ks) = not k.stopped && never_stopped ks

never_stopped_at :
    (before : List Round) (k : Round) (after : List Round)
    → never_stopped (before ++ k ∷ after) ≡ true
    → k.stopped ≡ false
never_stopped_at [] k after h = ground arith
never_stopped_at (j ∷ before) k after h = never_stopped_at before k after (ground arith)

-- After a loop that has run out of work, and that nobody stopped, the monitor cannot run again: the
-- next call of `ev_loop_run` returns -1 at once, whatever there is to do.
pub run_twice :
    (flag flag' : Flag) (ks ks' : List Round) (running : Bool) (n : ℕ)
    → never_stopped ks ≡ true
    → ev_loop_run flag ks false ≡ returned success running n
    → ev_loop_run flag' ks' running ≡ returned minus_one true 0
unfolding ev_loop_run
run_twice flag flag' ks ks' running n calm e =
    let (before, k, after, at, all, end) : Ends flag ks (returned success running n) =
      subst (Ends flag ks) e (ev_loop_run-Ends flag ks) in
    let on = never_stopped_at before k after (subst (λ xs. never_stopped xs ≡ true) at calm) in
    elim end [ inl (off, left) ↦ absurd (cc) | inr (idle, _, left) ↦ rw left refl ]
