-- ===== src/EvLoop/Callbacks.antt =====
-- The callbacks of an item: `ev_assign_cb` of src/fevent_loop/_ev_helpers.c and
-- `ev_ready_item_dispatch` of src/fevent_loop/_ev_ready_item.c. A callback is an address, 0 for NULL.
use c_liber.Prelude.{
  ℕ, zero, suc, ◌/◌, ◌<◌, ◌≡◌, refl, ap, ◌∙◌, ◌&&◌, ◌||◌, not, Bool, true, false, List, [], ◌∷◌,
  ◌==◌, if◌then◌else◌, arith, get_or, length, take,
}
use c_liber.EvLoop.Bits.{bit, or_bits, bit-zero, bit-or_bits}
use c_liber.EvLoop.EventSet.{ev_ign}

-- The inner loop of `ev_assign_cb`, from a slot on.
unfoldable pub assign_slots : (events cb : ℕ) → List ℕ → List ℕ
unfolding bit
assign_slots events cb [] = []
assign_slots events cb (slot ∷ slots) =
    let rest = assign_slots (events / 2) cb slots in
    (if bit 0 events then cb else slot) ∷ (if events / 2 == 0 then slots else rest)

-- `ev_assign_cb`; the variable arguments are pairs of an event type and a callback.
unfoldable pub ev_assign_cb : List (ℕ × ℕ) → List ℕ → List ℕ
unfolding assign_slots
ev_assign_cb [] cb_list = cb_list
ev_assign_cb ((events, cb) ∷ args) cb_list = ev_assign_cb args (assign_slots events cb cb_list)

-- The callback of a slot by the arguments: the last one whose type has the slot's bit.
abbrev pub bound : List (ℕ × ℕ) → (i old : ℕ) → ℕ
bound [] i old = old
bound ((events, cb) ∷ args) i old = bound args i (if bit i events then cb else old)

get-assign_slots :
    (i events cb : ℕ) (slots : List ℕ)
    → i < length slots
    → get_or (assign_slots events cb slots) i 0 ≡ (if bit i events then cb else get_or slots i 0)
unfolding assign_slots bit
get-assign_slots i events cb [] h = absurd (omega (arith, h))
get-assign_slots zero events cb (slot ∷ slots) h = ground arith
get-assign_slots (suc i) events cb (slot ∷ slots) h =
    ground (arith, get-assign_slots i (events / 2) cb slots (omega (arith, h)), bit-zero i)

length-assign_slots :
    (events cb : ℕ) (slots : List ℕ) → length (assign_slots events cb slots) ≡ length slots
unfolding assign_slots
length-assign_slots events cb [] = refl
length-assign_slots events cb (slot ∷ slots) =
    ground (arith, length-assign_slots (events / 2) cb slots)

-- After `ev_assign_cb` a slot holds the last callback that was given for its event type, or what it
-- held if there was none.
pub get-ev_assign_cb :
    (args : List (ℕ × ℕ)) (i : ℕ) (cb_list : List ℕ)
    → i < length cb_list
    → get_or (ev_assign_cb args cb_list) i 0 ≡ bound args i (get_or cb_list i 0)
unfolding ev_assign_cb
get-ev_assign_cb [] i cb_list h = refl
get-ev_assign_cb ((events, cb) ∷ args) i cb_list h =
    get-ev_assign_cb args i (assign_slots events cb cb_list)
      (rw (length-assign_slots events cb cb_list) h)
    ∙ ap (bound args i) (get-assign_slots i events cb cb_list h)

-- `S` is what the callbacks change, `call` the effect and the result of a callback for the item.
module _ (S : Type 0) (call : ℕ → S → ℕ × S) where
  -- `if(!(ev&EV_IGN)) ret_ev |= ev;`
  abbrev pub joined : (ev ret_ev : ℕ) → ℕ
  joined ev ret_ev = if bit ev_ign ev then ret_ev else or_bits 32 ret_ev ev

  -- The loop of `ev_ready_item_dispatch`, with the slots up to `_EV_EVENT_MAX - 1` that are left.
  unfoldable pub dispatch_slots : List ℕ → (events ret_ev : ℕ) → S → ℕ × S
  dispatch_slots [] events ret_ev s = (ret_ev, s)
  dispatch_slots (cb ∷ slots) events ret_ev s =
      let (ev, s') = call cb s in
      let called = dispatch_slots slots (events / 2) (joined ev ret_ev) s' in
      let passed = dispatch_slots slots (events / 2) ret_ev s in
      if bit 0 events && not (cb == 0)
      then if events / 2 == 0 then (joined ev ret_ev, s') else called
      else if events / 2 == 0
      then (ret_ev, s)
      else passed

  unfoldable pub ev_ready_item_dispatch : (cb_list : List ℕ) (events : ℕ) → S → ℕ × S
  unfolding dispatch_slots
  ev_ready_item_dispatch cb_list events s = dispatch_slots (take 7 cb_list) events 0 s

  -- The callbacks that are due, in the order of their slots.
  abbrev pub due : List ℕ → (events : ℕ) → List ℕ
  due [] events = []
  due (cb ∷ slots) events =
      if bit 0 events && not (cb == 0) then cb ∷ due slots (events / 2) else due slots (events / 2)

  -- What callbacks that are called one after the other return, and the last state.
  abbrev pub run_all : List ℕ → S → List ℕ × S
  run_all [] s = ([], s)
  run_all (cb ∷ cbs) s =
      let (ev, s') = call cb s in let (evs, end) = run_all cbs s' in (ev ∷ evs, end)

  -- Whether one of the results has the event `i` and not EV_IGN, the tenth bit.
  abbrev pub returns_event : (i : ℕ) → List ℕ → Bool
  returns_event i [] = false
  returns_event i (ev ∷ evs) = not (bit 9 ev) && bit i ev || returns_event i evs

  due-zero : (slots : List ℕ) → due slots 0 ≡ []
  unfolding bit
  due-zero [] = refl
  due-zero (cb ∷ slots) = ground (arith, due-zero slots)

  -- A result that is joined adds its events, unless it has EV_IGN.
  bit-joined :
      (i ev ret_ev : ℕ)
      → i < 32
      → bit i (joined ev ret_ev) ≡ bit i ret_ev || (not (bit 9 ev) && bit i ev)
  bit-joined i ev ret_ev h = ground (arith, bit-or_bits i 32 ret_ev ev h)

  -- What a run of callbacks is to a loop that has `ret_ev` so far and ends in `out`.
  abbrev pub Runs : List ℕ → (ret_ev : ℕ) → S → (out : ℕ × S) → Type 0
  Runs cbs ret_ev s out =
      let (evs, end) = run_all cbs s in
      (out.1 ≡ end) × ((i : ℕ) → i < 32 → bit i out.0 ≡ bit i ret_ev || returns_event i evs)

  Runs-cons :
      (cb : ℕ) (cbs : List ℕ) (ret_ev : ℕ) (s : S) (out : ℕ × S)
      → Runs cbs (joined (call cb s).0 ret_ev) (call cb s).1 out
      → Runs (cb ∷ cbs) ret_ev s out
  Runs-cons cb cbs ret_ev s out (end, events) = (
    end,
    λ i h. let joins = bit-joined i (call cb s).0 ret_ev h in let rest = events i h in ground arith,
  )

  Runs-nil : (ret_ev : ℕ) (s : S) → Runs [] ret_ev s (ret_ev, s)
  Runs-nil ret_ev s = (refl, λ i h. ground arith)

  -- The round of the loop: the slot is due or not, and it is the last one with an event or not.
  round-Runs :
      (is_due is_last : Bool) (cb : ℕ) (cbs : List ℕ) (ret_ev : ℕ) (s : S) (called passed : ℕ × S)
      → (is_last ≡ true → cbs ≡ [])
      → Runs cbs (joined (call cb s).0 ret_ev) (call cb s).1 called
      → Runs cbs ret_ev s passed
      → Runs (if is_due then cb ∷ cbs else cbs) ret_ev s (
          if is_due
          then if is_last then (joined (call cb s).0 ret_ev, (call cb s).1) else called
          else if is_last
          then (ret_ev, s)
          else passed)
  round-Runs true true cb cbs ret_ev s called passed none_left c p = rw (none_left refl) (
      Runs-cons cb [] ret_ev s (joined (call cb s).0 ret_ev, (call cb s).1)
        (Runs-nil (joined (call cb s).0 ret_ev) (call cb s).1))
  round-Runs true false cb cbs ret_ev s called passed none_left c p =
      Runs-cons cb cbs ret_ev s called c
  round-Runs false true cb cbs ret_ev s called passed none_left c p =
      rw (none_left refl) (Runs-nil ret_ev s)
  round-Runs false false cb cbs ret_ev s called passed none_left c p = p

  dispatch_slots-Runs :
      (slots : List ℕ) (events ret_ev : ℕ) (s : S)
      → Runs (due slots events) ret_ev s (dispatch_slots slots events ret_ev s)
  unfolding dispatch_slots
  dispatch_slots-Runs [] events ret_ev s = Runs-nil ret_ev s
  dispatch_slots-Runs (cb ∷ slots) events ret_ev s =
      let (ev, s') = call cb s in
      let none_left : (events / 2 == 0) ≡ true → due slots (events / 2) ≡ [] =
        λ e. (let z : events / 2 ≡ 0 = ground (arith, e) in rw z (due-zero slots)) in
      round-Runs (bit 0 events && not (cb == 0)) (events / 2 == 0) cb (due slots (events / 2))
        ret_ev s _ _ none_left (dispatch_slots-Runs slots (events / 2) (joined ev ret_ev) s')
        (dispatch_slots-Runs slots (events / 2) ret_ev s)

  -- `ev_ready_item_dispatch` calls the callbacks of the first seven slots whose event is set, in the
  -- order of their slots, each once, and no other (that it stops when no event is left changes
  -- nothing). Of the 32 events, the result has just those that one of them returned in a result
  -- without EV_IGN.
  pub dispatch-run_all :
      (cb_list : List ℕ) (events : ℕ) (s : S)
      → let (evs, end) = run_all (due (take 7 cb_list) events) s in
        let (ret_ev, s') = ev_ready_item_dispatch cb_list events s in
        (s' ≡ end) × ((i : ℕ) → i < 32 → bit i ret_ev ≡ returns_event i evs)
  unfolding ev_ready_item_dispatch
  dispatch-run_all cb_list events s =
      let (end, result) = dispatch_slots-Runs (take 7 cb_list) events 0 s in
      (end, λ i h. rw (result i h, bit-zero i) refl)
