-- ===== src/EvLoop/ReadyQueue.antt =====
-- The queues of src/fevent_loop/_ev_ready_queue.c: one list of ready items for each priority, the
-- highest first. `rqueue` is the list of these lists, six in the code; a call is one step under `mtx`
-- (only the loop's own thread takes items out). An entry of an intrusive list is the item itself.
use c_liber.Prelude.{
  ℕ, zero, suc, ◌+◌, ◌<◌, ◌≡◌, refl, ap, sym, ◌∙◌, Bool, true, false, List, [], ◌∷◌, ◌++◌, Option,
  none, some, arith, get_or, set, length,
}
use mathlib.Core.Path.{subst}

module _ (A : Type 0) where
  -- The loop of `ev_ready_queue_highest_priority`, from list `i` on; `none` is -1.
  unfoldable pub first_ready : (i : ℕ) → List (List A) → Option ℕ
  first_ready i [] = none
  first_ready i ([] ∷ rqueue) = first_ready (i + 1) rqueue
  first_ready i ((x ∷ xs) ∷ rqueue) = some i

  unfoldable pub highest_priority : List (List A) → Option ℕ
  unfolding first_ready
  highest_priority rqueue = first_ready 0 rqueue

  unfoldable pub is_empty : List (List A) → Bool
  unfolding highest_priority
  is_empty rqueue = elim (highest_priority rqueue) [ none ↦ true | some p ↦ false ]

  -- `list_push` to the list of a priority.
  unfoldable pub make_ready : A → (priority : ℕ) → List (List A) → List (List A)
  make_ready ri priority rqueue = set rqueue priority (get_or rqueue priority [] ++ ri ∷ [])

  -- A dequeue that finds the list `queue` at its priority.
  take_oldest : List A → (priority : ℕ) → List (List A) → Option A × List (List A)
  take_oldest [] priority rqueue = (none, rqueue)
  take_oldest (x ∷ xs) priority rqueue = (some x, set rqueue priority xs)

  unfoldable pub dqueue : (priority : ℕ) → List (List A) → Option A × List (List A)
  unfolding take_oldest
  dqueue priority rqueue = take_oldest (get_or rqueue priority []) priority rqueue

  -- The loop of `ev_ready_queue_dispatch`: the items given to `tp_queue`, whose result it does not
  -- look at, oldest first. One more round than there are items ends it.
  unfoldable pub dispatch_loop : (fuel priority : ℕ) → List (List A) → List A × List (List A)
  unfolding dqueue
  dispatch_loop zero priority rqueue = ([], rqueue)
  dispatch_loop (suc fuel) priority rqueue =
      let (out, rqueue') = dqueue priority rqueue in
      let (calls, end) = dispatch_loop fuel priority rqueue' in
      elim out [ none ↦ ([], rqueue') | some ri ↦ (ri ∷ calls, end) ]

  dispatch_at : Option ℕ → List (List A) → List A × List (List A)
  unfolding dispatch_loop
  dispatch_at none rqueue = ([], rqueue)
  dispatch_at (some hpriority) rqueue =
      dispatch_loop (suc (length (get_or rqueue hpriority []))) hpriority rqueue

  unfoldable pub dispatch : List (List A) → List A × List (List A)
  unfolding dispatch_at highest_priority
  dispatch rqueue = dispatch_at (highest_priority rqueue) rqueue

  -- `ev_ready_queue_nready`
  unfoldable pub nready : List (List A) → ℕ
  nready [] = 0
  nready ([] ∷ rqueue) = nready rqueue
  nready ((x ∷ xs) ∷ rqueue) = length (x ∷ xs)

  -- All items, by priority and then by age.
  abbrev pub in_order : List (List A) → List A
  in_order [] = []
  in_order (q ∷ rqueue) = q ++ in_order rqueue

  -- What a dispatch does if the first list that holds an item is the one of priority `p`.
  abbrev pub Dispatches : Option ℕ → List (List A) → List A → List (List A) → Type 0
  Dispatches none rqueue calls end = (in_order rqueue ≡ []) × (calls ≡ []) × (end ≡ rqueue)
  Dispatches (some p) rqueue calls end =
      (calls ≡ get_or rqueue p [])
      × (0 < length calls)
      × ((q : ℕ) → q < p → get_or rqueue q [] ≡ [])
      × (end ≡ set rqueue p [])

  set-set : (xs : List (List A)) (i : ℕ) (a b : List A) → set (set xs i a) i b ≡ set xs i b
  set-set [] i a b = refl
  set-set (x ∷ xs) zero a b = refl
  set-set (x ∷ xs) (suc i) a b = ap (◌∷◌ x) (set-set xs i a b)

  set_same : (xs : List (List A)) (i : ℕ) → get_or xs i [] ≡ [] → set xs i [] ≡ xs
  set_same [] i h = refl
  set_same (x ∷ xs) zero h = ap (λ y. y ∷ xs) (sym h)
  set_same (x ∷ xs) (suc i) h = ap (◌∷◌ x) (set_same xs i h)

  get_set :
      (xs : List (List A)) (i : ℕ) (a : List A)
      → 0 < length (get_or xs i [])
      → get_or (set xs i a) i [] ≡ a
  get_set [] i a h = absurd (omega (arith, h))
  get_set (x ∷ xs) zero a h = refl
  get_set (x ∷ xs) (suc i) a h = get_set xs i a h

  -- One round that finds the list `q`.
  round_of : List A → (fuel priority : ℕ) → List (List A) → List A × List (List A)
  round_of [] fuel priority rqueue = ([], rqueue)
  round_of (x ∷ xs) fuel priority rqueue =
      let (calls, end) = dispatch_loop fuel priority (set rqueue priority xs) in (x ∷ calls, end)

  dispatch_loop-round_of :
      (q : List A) (fuel p : ℕ) (rqueue : List (List A))
      → get_or rqueue p [] ≡ q
      → dispatch_loop (suc fuel) p rqueue ≡ round_of q fuel p rqueue
  unfolding round_of dispatch_loop dqueue take_oldest
  dispatch_loop-round_of q fuel p rqueue e = ground arith

  dispatch_loop-all :
      (q : List A) (p : ℕ) (rqueue : List (List A))
      → get_or rqueue p [] ≡ q
      → dispatch_loop (suc (length q)) p rqueue ≡ (q, set rqueue p [])
  unfolding round_of
  dispatch_loop-all [] p rqueue e =
      dispatch_loop-round_of [] 0 p rqueue e ∙ ap (λ r. ([], r)) (sym (set_same rqueue p e))
  dispatch_loop-all (x ∷ xs) p rqueue e =
      let later =
        dispatch_loop-all xs p (set rqueue p xs) (get_set rqueue p xs (rw e (omega arith))) in
      dispatch_loop-round_of (x ∷ xs) (suc (length xs)) p rqueue e ∙ rw (later, set-set) refl

  abbrev Found : (i : ℕ) → List (List A) → Option ℕ → Type 0
  Found i rqueue none = in_order rqueue ≡ []
  Found i rqueue (some p) =
      (k : ℕ) × (p ≡ i + k)
      × (0 < length (get_or rqueue k []))
      × ((q : ℕ) → q < k → get_or rqueue q [] ≡ [])

  above :
      (i : ℕ) (rqueue : List (List A)) (o : Option ℕ)
      → Found (i + 1) rqueue o
      → Found i ([] ∷ rqueue) o
  above i rqueue none f = f
  above i rqueue (some p) (k, e, h, l) = (suc k, omega (arith, e), h, below)
    where
      below : (q : ℕ) → q < suc k → get_or {A = List A} ([] ∷ rqueue) q [] ≡ []
      below zero b = refl
      below (suc q) b = l q (omega (arith, b))

  first_ready-Found : (i : ℕ) (rqueue : List (List A)) → Found i rqueue (first_ready i rqueue)
  unfolding first_ready
  first_ready-Found i [] = refl
  first_ready-Found i ([] ∷ rqueue) =
      above i rqueue (first_ready (i + 1) rqueue) (first_ready-Found (i + 1) rqueue)
  first_ready-Found i ((x ∷ xs) ∷ rqueue) =
      (0, omega arith, omega arith, λ q h. absurd (omega (arith, h)))

  -- `ev_ready_queue_dispatch` gives the thread pool all items of the highest priority that has any, the
  -- oldest first, and none of another; that priority has none left, and the other lists are as before.
  -- Without any item nothing happens.
  pub dispatch-Dispatches :
      (rqueue : List (List A))
      → let (calls, end) = dispatch rqueue in Dispatches (highest_priority rqueue) rqueue calls end
  unfolding dispatch highest_priority dispatch_at
  dispatch-Dispatches rqueue = go (first_ready 0 rqueue) (first_ready-Found 0 rqueue)
    where
      go :
          (o : Option ℕ)
          → Found 0 rqueue o
          → let (calls, end) = dispatch_at o rqueue in Dispatches o rqueue calls end
      go none f = (f, refl, refl)
      go (some p) (k, e, h, l) =
          let all = dispatch_loop-all (get_or rqueue p []) p rqueue refl in
          let same : k ≡ p = omega (arith, e) in
          let at_p : 0 < length (get_or rqueue p []) =
            subst (λ i. 0 < length (get_or rqueue i [])) same h in
          (
            ap (λ r. r.0) all,
            subst (λ r. 0 < length r.0) (sym all) at_p,
            λ q b. l q (omega (arith, e, b)),
            ap (λ r. r.1) all,
          )

  nready_none : (rqueue : List (List A)) → in_order rqueue ≡ [] → nready rqueue ≡ 0
  unfolding nready
  nready_none [] e = refl
  nready_none ([] ∷ rqueue) e = nready_none rqueue e
  nready_none ((x ∷ xs) ∷ rqueue) e = absurd (cc)

  nready_at :
      (p : ℕ) (rqueue : List (List A))
      → 0 < length (get_or rqueue p [])
      → ((q : ℕ) → q < p → get_or rqueue q [] ≡ [])
      → nready rqueue ≡ length (get_or rqueue p [])
  unfolding nready
  nready_at p [] h l = absurd (omega (arith, h))
  nready_at zero ([] ∷ rqueue) h l = absurd (omega (arith, h))
  nready_at zero ((x ∷ xs) ∷ rqueue) h l = refl
  nready_at (suc p) ([] ∷ rqueue) h l = nready_at p rqueue h (λ q b. l (suc q) (omega (arith, b)))
  nready_at (suc p) ((x ∷ xs) ∷ rqueue) h l =
      let empty : x ∷ xs ≡ [] = l 0 (omega arith) in absurd (cc)

  -- `ev_ready_queue_nready`, which the loop tests before it dispatches, is the number of the items that
  -- the dispatch gives to the thread pool.
  pub nready-dispatch : (rqueue : List (List A)) → nready rqueue ≡ length (dispatch rqueue).0
  nready-dispatch rqueue = go (highest_priority rqueue) (dispatch-Dispatches rqueue)
    where
      go :
          (o : Option ℕ)
          → Dispatches o rqueue (dispatch rqueue).0 (dispatch rqueue).1
          → nready rqueue ≡ length (dispatch rqueue).0
      go none (e, calls, end) = nready_none rqueue e ∙ sym (ap length calls)
      go (some p) (calls, h, l, end) =
          nready_at p rqueue (subst (λ r. 0 < length r) calls h) l ∙ sym (ap length calls)
