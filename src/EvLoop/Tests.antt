-- ===== src/EvLoop/Tests.antt =====
-- The theorems on the event loop at small cases.
use c_liber.Prelude.{ℕ, ◌<◌, ◌≡◌, refl, true, false, List, [], ◌∷◌, ◌++◌, if◌then◌else◌, take}
use c_liber.EvLoop.Bits.{bit}
use c_liber.EvLoop.Callbacks.{
  ev_assign_cb, ev_ready_item_dispatch, due, run_all, returns_event, dispatch-run_all,
}
use c_liber.EvLoop.ReadyQueue.{dispatch, highest_priority, Dispatches, dispatch-Dispatches}
use c_liber.EvLoop.Run.{
  Round, Flag, ready, returned, minus_one, ev_loop_run, Ends, ev_loop_run-Ends, run_twice,
}
use c_liber.EvLoop.Create.{block, mutex, ev_ready_queue_create, ev_ready_queue_create-held}

abbrev pub slots : List ℕ
slots = 0 ∷ 0 ∷ 0 ∷ 0 ∷ 0 ∷ 0 ∷ 0 ∷ 0 ∷ []

-- EV_RD_CB(7), EV_WR_CB(9), EV_RD_CB(8)
abbrev pub args : List (ℕ × ℕ)
args = (1, 7) ∷ (2, 9) ∷ (1, 8) ∷ []

assigned : ev_assign_cb args slots ≡ 8 ∷ 9 ∷ 0 ∷ 0 ∷ 0 ∷ 0 ∷ 0 ∷ 0 ∷ []
unfolding ev_assign_cb bit
assigned = refl

-- A callback that notes its address and asks to be called for reading again.
abbrev noting : ℕ → List ℕ → ℕ × List ℕ
noting cb log = (1, log ++ cb ∷ [])

dispatch-run_all_example :
    let (evs, end) = run_all (List ℕ) noting (due (List ℕ) noting (take 7 (8 ∷ 9 ∷ slots)) 3) [] in
    let (ret_ev, s') = ev_ready_item_dispatch (List ℕ) noting (8 ∷ 9 ∷ slots) 3 [] in
    (s' ≡ end) × ((i : ℕ) → i < 32 → bit i ret_ev ≡ returns_event (List ℕ) noting i evs)
dispatch-run_all_example = dispatch-run_all (List ℕ) noting (8 ∷ 9 ∷ slots) 3 []

abbrev rqueue : List (List ℕ)
rqueue = [] ∷ (4 ∷ 5 ∷ []) ∷ [] ∷ (6 ∷ []) ∷ [] ∷ [] ∷ []

dispatched : dispatch ℕ rqueue ≡ (4 ∷ 5 ∷ [], [] ∷ [] ∷ [] ∷ (6 ∷ []) ∷ [] ∷ [] ∷ [])
unfolding dispatch
dispatched = refl

dispatch-Dispatches_example :
    let (calls, end) = dispatch ℕ rqueue in
    Dispatches ℕ (highest_priority ℕ rqueue) rqueue calls end
dispatch-Dispatches_example = dispatch-Dispatches ℕ rqueue

abbrev plain_flag : Flag
plain_flag = record { noblock = false; empty_noexit = false }

-- One ready item, and then nothing more to do.
abbrev one_item : Round
one_item = record {
  rq_is_running = false;
  rq_is_empty = false;
  wpool_is_empty = true;
  stopped = false;
  rq_is_empty_now = false;
  wait = λ timeout. ready 1;
}

abbrev no_work : Round
no_work = record one_item { rq_is_empty = true; rq_is_empty_now = true; wait = λ timeout. ready 0 }

ev_loop_run-Ends_example :
    Ends plain_flag
      (one_item ∷ no_work ∷ [])
      (ev_loop_run plain_flag (one_item ∷ no_work ∷ []) false)
ev_loop_run-Ends_example = ev_loop_run-Ends plain_flag (one_item ∷ no_work ∷ [])

run_twice_example : ev_loop_run plain_flag (one_item ∷ []) true ≡ returned minus_one true 0
unfolding ev_loop_run
run_twice_example = run_twice plain_flag plain_flag (no_work ∷ []) (one_item ∷ []) true 0 refl refl

-- The thread pool cannot be made.
ev_ready_queue_create-held_example :
    let (ok, held) = ev_ready_queue_create true true false in
    (ok ≡ false) × (held ≡ (if ok then mutex ∷ block ∷ [] else mutex ∷ []))
ev_ready_queue_create-held_example = ev_ready_queue_create-held true true false
