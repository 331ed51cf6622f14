-- ===== src/RbTree/Insert.antt =====
-- `rb_insert` and `rb_insert_fixup` of src/common/ds/rbtree.c.
use c_liber.Prelude.{ℕ, zero, suc, Bool, Option, none, some, ◌==◌, ◌||◌, if◌then◌else◌}
use c_liber.RbTree.{
  RbTree, Side, left, right, other, red, black, child_of, rb_parent, rb_gparent, rb_is_red,
  rb_is_child, rb_set_color, rb_set_parent, rb_node_init, set_child, set_root, rotate,
}

-- Cases 2 and 3 of a round of the fixup, for a parent that is the child on side `s`.
unfoldable pub rebalance : Side → (insert_node : ℕ) → RbTree → RbTree × ℕ
unfolding rotate
rebalance s insert_node tree =
    let outer = rb_is_child tree (other s) insert_node in
    let node = if outer then rb_parent tree insert_node else insert_node in
    let t1 : RbTree = if outer then rotate s node tree else tree in
    let t2 : RbTree = rb_set_color (rb_parent t1 node) black t1 in
    let t3 : RbTree = rb_set_color (rb_gparent t2 node) red t2 in
    (rotate (other s) (rb_gparent t3 node) t3, node)

-- Case 1: the uncle is red.
unfoldable pub recolor : (insert_node uncle : ℕ) → RbTree → RbTree × ℕ
recolor insert_node uncle tree =
    let t1 : RbTree = rb_set_color (rb_parent tree insert_node) black tree in
    let t2 : RbTree = rb_set_color uncle black t1 in
    let t3 : RbTree = rb_set_color (rb_gparent t2 insert_node) red t2 in
    (t3, rb_gparent t3 insert_node)

unfoldable pub fixup_at : Side → (insert_node : ℕ) → RbTree → RbTree × ℕ
unfolding rebalance recolor
fixup_at s insert_node tree =
    let uncle = child_of tree (other s) (rb_gparent tree insert_node) in
    if rb_is_red tree uncle then recolor insert_node uncle tree else rebalance s insert_node tree

-- A round of the loop of `rb_insert_fixup`.
unfoldable pub fixup_round : (insert_node : ℕ) → RbTree → RbTree × ℕ
unfolding fixup_at
fixup_round insert_node tree =
    if rb_is_child tree left (rb_parent tree insert_node)
    then fixup_at left insert_node tree
    else fixup_at right insert_node tree

-- The loop and what follows it; `none` means that the fuel ran out.
unfoldable pub fixup_loop : (fuel insert_node : ℕ) → RbTree → Option RbTree
unfolding fixup_round
fixup_loop zero insert_node tree = none
fixup_loop (suc fuel) insert_node tree =
    let (tree', insert_node') = fixup_round insert_node tree in
    let rest = fixup_loop fuel insert_node' tree' in
    if rb_is_red tree (rb_parent tree insert_node)
    then rest
    else some (rb_set_color tree.rb_root black tree)

unfoldable pub rb_insert_fixup : (fuel insert_node : ℕ) → RbTree → Option RbTree
unfolding fixup_loop
rb_insert_fixup fuel insert_node tree =
    if tree.rb_root == 0 || insert_node == 0 then some tree else fixup_loop fuel insert_node tree

-- `less` is `cmp(a, b) < 0`.
module _ (less : ℕ → ℕ → Bool) where
  -- The search for the parent, from `node` under `p`.
  unfoldable pub find_parent : (fuel insert_node p node : ℕ) → RbTree → Option ℕ
  find_parent zero insert_node p node tree = none
  find_parent (suc fuel) insert_node p node tree =
      let lower = find_parent fuel insert_node node (child_of tree left node) tree in
      let upper = find_parent fuel insert_node node (child_of tree right node) tree in
      if node == 0 then some p else if less insert_node node then lower else upper

  unfoldable pub attach : (insert_node p : ℕ) → RbTree → RbTree
  attach insert_node p tree =
      let t1 : RbTree = rb_set_parent insert_node p tree in
      if p == 0
      then set_root insert_node t1
      else if less insert_node p
      then set_child left p insert_node t1
      else set_child right p insert_node t1

  unfoldable pub rb_insert : (fuel insert_node : ℕ) → RbTree → Option RbTree
  unfolding find_parent attach rb_insert_fixup
  rb_insert fuel insert_node tree =
      let t1 : RbTree = rb_node_init insert_node tree in
      elim (find_parent fuel insert_node 0 tree.rb_root t1) [
        | none ↦ none
        | some p ↦ rb_insert_fixup fuel insert_node (attach insert_node p t1)
      ]
