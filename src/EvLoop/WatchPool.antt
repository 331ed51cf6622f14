-- ===== src/EvLoop/WatchPool.antt =====
-- The pool of watched descriptors: `ev_watch_pool_add` and `ev_watch_pool_del` of
-- src/fevent_loop/_ev_watch_pool.c over the tree of its items. Each call is one step. `malloc` gives the
-- address of the new item; the outcome of `epoll_ctl` is given.

pub mod Calls
mod Tests
use c_liber.Prelude.{
  ℕ, suc, ◌+◌, ◌*◌, ◌^◌, ◌<◌, ◌≡◌, ◌≢◌, refl, ap, sym, ◌∙◌, Bool, true, false, Option, none, some,
  List, [], ◌∷◌, Bool-cases, ◌==◌, if◌then◌else◌, count, length, replicate, arith, inl, inr, ◌⊎◌,
}
use mathlib.Core.Path.{subst}
use mathlib.Core.Option.{some-injective}
use c_liber.RbTree.{RbTree, rb_node_init}
use c_liber.RbTree.Order.{insort}
use c_liber.RbTree.RoundTrip.{insort_sizes, remove-insort}
use c_liber.RbTree.Remove.Locate.{remove}
use c_liber.EvLoop.Callbacks.{ev_assign_cb}
use c_liber.EvLoop.WatchTree.{lower_fd, ev_watch_tree_add, ev_watch_tree_delete}
use c_liber.EvLoop.WatchTree.Lookup.{IsFree}
use c_liber.EvLoop.WatchTree.Calls.{
  IsWatchTree, Adds, Deletes, ev_watch_tree_add-Adds, ev_watch_tree_delete-Deletes,
}

-- `cb_list` is the list of each item; `freed` lists the items given to `ev_watch_item_free`, which closes
-- their descriptors, the last one first.
pub record WatchPool : Type 0 where
  pub watch_tree : RbTree
  pub cb_list : ℕ → List ℕ
  pub freed : List ℕ

-- A call returns 0 or -1, or reads an item that it has freed, or its fuel runs out.
pub data Done : Type 0 where
  success failure : WatchPool → Done
  freed_use : (w : ℕ) → Done
  no_fuel : Done

-- `ev_watch_item_free` and `close`
abbrev pub free_item : ℕ → WatchPool → WatchPool
free_item w wp = record wp { freed = w ∷ wp.freed }

module _ (fd_of : ℕ → ℕ) where
  -- `ev_watch_item_create` and `ev_watch_item_assign_cb`, for an item at `w`.
  abbrev pub new_item : (w : ℕ) → (args : List (ℕ × ℕ)) → WatchPool → WatchPool
  new_item w args wp = record wp {
    watch_tree = rb_node_init w wp.watch_tree;
    cb_list = λ v. if v == w then ev_assign_cb args (replicate 8 0) else wp.cb_list v;
  }

  -- After the deletion that follows a failing `ev_monitor_core_add`.
  abbrev pub undone : (w : ℕ) → WatchPool → Option (ℕ × RbTree) → Done
  undone w wp none = no_fuel
  undone w wp (some (v, tree)) = failure (free_item w (record wp { watch_tree = tree }))

  -- After `ev_watch_tree_add`: an item that was not added is freed, and then given to
  -- `ev_monitor_core_add`, which reads its events.
  unfoldable pub after_add :
      (fuel : ℕ) (ctl : Bool) → (w : ℕ) → WatchPool → Option (Bool × RbTree) → Done
  after_add fuel ctl w wp none = no_fuel
  after_add fuel ctl w wp (some (false, tree)) = freed_use w
  after_add fuel true w wp (some (true, tree)) = success (record wp { watch_tree = tree })
  after_add fuel false w wp (some (true, tree)) =
      undone w (record wp { watch_tree = tree }) (ev_watch_tree_delete fd_of fuel tree (fd_of w))

  unfoldable pub ev_watch_pool_add :
      (fuel : ℕ) (malloc : Option ℕ) (ctl : Bool) → (args : List (ℕ × ℕ)) → WatchPool → Done
  unfolding after_add
  ev_watch_pool_add fuel none ctl args wp = failure wp
  ev_watch_pool_add fuel (some w) ctl args wp =
      let wp' : WatchPool = new_item w args wp in
      after_add fuel ctl w wp' (ev_watch_tree_add fd_of fuel wp'.watch_tree w)

  unfoldable pub after_delete : (ctl : Bool) → WatchPool → Option (ℕ × RbTree) → Done
  after_delete ctl wp none = no_fuel
  after_delete ctl wp (some (w, tree)) =
      let wp' : WatchPool = record wp { watch_tree = tree } in
      if w == 0
      then success wp'
      else if ctl
      then success (free_item w wp')
      else failure (free_item w wp')

  unfoldable pub ev_watch_pool_del : (fuel : ℕ) (ctl : Bool) → (fd : ℕ) → WatchPool → Done
  unfolding after_delete
  ev_watch_pool_del fuel ctl fd wp =
      after_delete ctl wp (ev_watch_tree_delete fd_of fuel wp.watch_tree fd)
