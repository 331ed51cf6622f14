-- ===== src/Emitter.antt =====
-- src/common/ev_emitter.c: callbacks by the name of an event, in a ternary search tree. A value of the
-- tree is the address of an `ev_cb_s`, a number that counts the allocations. `cell` is what stands at
-- an address; a callback is an address too, 0 for NULL. Pointers for the old callback are not NULL.
pub mod Cells
mod Tests
use c_liber.Prelude.{
  ℕ, ◌+◌, ◌<◌, ◌≡◌, ◌≢◌, refl, sym, ap, ◌∙◌, Bool, true, false, Option, none, some, [], ◌∷◌, ◌==◌,
  if◌then◌else◌, arith, ◌&&◌,
}
use c_liber.Tst.{
  Key, Tree, Status, added, replaced, failed, tst_search, tst_search_r, tst_insert, null,
  insert_head_r,
}
use c_liber.Tst.Lookup.{eq_key, search-insert_head_r}

-- `ev_cb_s`
pub record Cell : Type 0 where
  pub once : Bool
  pub cb : ℕ

pub record Emitter : Type 0 where
  pub ev_cb_map : Tree
  pub cell : ℕ → Cell
  pub next : ℕ

abbrev pub store : ℕ → Cell → Emitter → Emitter
store a c emitter = record emitter { cell = λ b. if b == a then c else emitter.cell b }

-- The end of an addition whose `tst_insert` has returned.
pub add_inserted : Cell → Status × Option ℕ × Tree → Emitter → Bool × Option ℕ × Emitter
add_inserted c (failed, old, t) emitter = (false, none, emitter)
add_inserted c (added, old, t) emitter =
    (true, none, record (store emitter.next c emitter) { ev_cb_map = t; next = emitter.next + 1 })
add_inserted c (replaced, old, t) emitter =
    (true, none, record (store emitter.next c emitter) { ev_cb_map = t; next = emitter.next + 1 })

-- `ev_emitter_on` and `ev_emitter_once`, by the address that the search has found: whether the call
-- returns 0, the old callback, and the emitter. `nodes` is how many nodes of the tree can be allocated.
pub add_found :
    Option ℕ → (malloc : Bool) → (nodes : ℕ) → Key → Cell → Emitter → Bool × Option ℕ × Emitter
unfolding add_inserted
add_found (some a) malloc nodes ev c emitter = (true, some (emitter.cell a).cb, store a c emitter)
add_found none false nodes ev c emitter = (false, none, emitter)
add_found none true nodes ev c emitter =
    add_inserted c (tst_insert emitter.ev_cb_map ev emitter.next nodes) emitter

unfoldable pub ev_emitter_on :
    (malloc : Bool) → (nodes : ℕ) → Key → (cb : ℕ) → Emitter → Bool × Option ℕ × Emitter
unfolding add_found
ev_emitter_on malloc nodes ev cb emitter =
    add_found (tst_search emitter.ev_cb_map ev) malloc nodes ev (record { once = false; cb = cb })
      emitter

unfoldable pub ev_emitter_once :
    (malloc : Bool) → (nodes : ℕ) → Key → (cb : ℕ) → Emitter → Bool × Option ℕ × Emitter
unfolding add_found
ev_emitter_once malloc nodes ev cb emitter =
    add_found (tst_search emitter.ev_cb_map ev) malloc nodes ev (record { once = true; cb = cb })
      emitter

-- `ev_emitter_off`: the callback that was registered, if the event is known.
unfoldable pub ev_emitter_off : Key → Emitter → Option ℕ × Emitter
ev_emitter_off ev emitter = elim (tst_search emitter.ev_cb_map ev) [
  | none ↦ (none, emitter)
  | some a ↦ (some (emitter.cell a).cb, store a (record (emitter.cell a) { cb = 0 }) emitter)
]

-- `ev_emitter_emit_f`; `call` is what a callback does to the emitter.
unfoldable pub ev_emitter_emit_f : (call : ℕ → Emitter → Emitter) → Key → Emitter → Emitter
ev_emitter_emit_f call ev emitter = elim (tst_search emitter.ev_cb_map ev) [
  | none ↦ emitter
  | some a ↦
      if (emitter.cell a).cb == 0
      then emitter
      else let after = call (emitter.cell a).cb emitter in
        if (after.cell a).once then store a (record (after.cell a) { cb = 0 }) after else after
]

-- What is registered for an event.
abbrev pub registered_at : Option ℕ → Emitter → Option Cell
registered_at none emitter = none
registered_at (some a) emitter = some (emitter.cell a)

abbrev pub registered : Key → Emitter → Option Cell
registered ev emitter = registered_at (tst_search emitter.ev_cb_map ev) emitter
