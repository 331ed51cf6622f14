-- ===== src/EvLoop/WatchTree.antt =====
-- The tree of watched descriptors: src/fevent_loop/_ev_watch_item.c over the red-black tree of
-- src/common/ds/rbtree.c. An item is the address of its node; `fd_of` is the descriptor that it holds
-- and that no call changes. A loop runs on fuel, and `none` means that the fuel ran out.
pub mod Lookup
pub mod Unique
pub mod Calls
pub mod Tests
use c_liber.Prelude.{ℕ, zero, suc, Bool, true, false, Option, none, some, ◌==◌, ltb, if◌then◌else◌}
use c_liber.RbTree.{RbTree, left, right, child_of, rb_node_init}
use c_liber.RbTree.Insert.{attach, rb_insert_fixup}
use c_liber.RbTree.Erase.{rb_erase}

module _ (fd_of : ℕ → ℕ) where
  -- The order of the items by their descriptors.
  abbrev pub lower_fd : ℕ → ℕ → Bool
  lower_fd w v = ltb (fd_of w) (fd_of v)

  -- The loop of `ev_watch_tree_search`; 0 is NULL.
  unfoldable pub search_loop : (fuel fd node : ℕ) → RbTree → Option ℕ
  search_loop zero fd node tree = none
  search_loop (suc fuel) fd node tree =
      let below = search_loop fuel fd (child_of tree left node) tree in
      let above = search_loop fuel fd (child_of tree right node) tree in
      if node == 0
      then some 0
      else if fd == fd_of node
      then some node
      else if ltb fd (fd_of node)
      then below
      else above

  unfoldable pub ev_watch_tree_search : (fuel : ℕ) → RbTree → (fd : ℕ) → Option ℕ
  unfolding search_loop
  ev_watch_tree_search fuel tree fd = search_loop fuel fd tree.rb_root tree

  -- The loop of `ev_watch_tree_add`: the node to hang the item below, or `some none` where the
  -- descriptor is there already.
  unfoldable pub add_loop : (fuel w p node : ℕ) → RbTree → Option (Option ℕ)
  add_loop zero w p node tree = none
  add_loop (suc fuel) w p node tree =
      let below = add_loop fuel w node (child_of tree left node) tree in
      let above = add_loop fuel w node (child_of tree right node) tree in
      if node == 0
      then some (some p)
      else if lower_fd w node
      then below
      else if lower_fd node w
      then above
      else some none

  abbrev pub returns_zero : Option RbTree → Option (Bool × RbTree)
  returns_zero none = none
  returns_zero (some tree) = some (true, tree)

  -- What follows the loop: the item is hung below `p`.
  unfoldable pub hang : (fuel : ℕ) → RbTree → (w : ℕ) → Option (Option ℕ) → Option (Bool × RbTree)
  hang fuel tree w none = none
  hang fuel tree w (some none) = some (false, tree)
  hang fuel tree w (some (some p)) =
      returns_zero (rb_insert_fixup fuel w (attach lower_fd w p tree))

  -- Whether the call returns 0, and the tree.
  unfoldable pub ev_watch_tree_add : (fuel : ℕ) → RbTree → (w : ℕ) → Option (Bool × RbTree)
  unfolding add_loop hang
  ev_watch_tree_add fuel tree w = hang fuel tree w (add_loop fuel w 0 tree.rb_root tree)

  abbrev pub gives_item : (w : ℕ) → Option RbTree → Option (ℕ × RbTree)
  gives_item w none = none
  gives_item w (some tree) = some (w, tree)

  -- What follows the search.
  unfoldable pub take_out : (fuel : ℕ) → RbTree → Option ℕ → Option (ℕ × RbTree)
  take_out fuel tree none = none
  take_out fuel tree (some w) =
      if w == 0 then some (0, tree) else gives_item w (rb_erase fuel w tree)

  -- The item that is taken out, or NULL, and the tree.
  unfoldable pub ev_watch_tree_delete : (fuel : ℕ) → RbTree → (fd : ℕ) → Option (ℕ × RbTree)
  unfolding ev_watch_tree_search take_out
  ev_watch_tree_delete fuel tree fd = take_out fuel tree (ev_watch_tree_search fuel tree fd)
