-- ===== src/RbTree/Erase.antt =====
-- `rb_erase`, `rb_delete_fixup`, `rb_transplant` and `rb_replace` of src/common/ds/rbtree.c.
use c_liber.Prelude.{
  ℕ, zero, suc, Bool, true, false, not, ◌&&◌, Option, none, some, ◌==◌, ◌||◌, if◌then◌else◌,
}
use c_liber.RbTree.{
  RbTree, Color, Side, left, right, other, red, black, child_of, rb_parent, rb_color, rb_is_root,
  rb_is_child, rb_is_red, rb_is_black, rb_set_color, rb_set_parent, set_child, update, rotate,
  relink, reparent,
}
use c_liber.RbTree.Walk.{rb_step}

unfoldable pub rb_transplant : (u v : ℕ) → RbTree → RbTree
unfolding relink reparent
rb_transplant u v tree = let t1 : RbTree = relink u v tree in reparent v (rb_parent t1 u) t1

-- Case 1: the sibling `w` is red.
unfoldable pub red_sibling : Side → (p w : ℕ) → RbTree → RbTree × ℕ
unfolding rotate
red_sibling s p w tree =
    if rb_is_red tree w
    then (let t1 : RbTree = rb_set_color p red (rb_set_color w black tree) in
        let t2 : RbTree = rotate s p t1 in (t2, child_of t2 (other s) p))
    else (tree, w)

-- Case 3: the outer child of the sibling is black.
unfoldable pub black_outer : Side → (w : ℕ) → RbTree → RbTree × ℕ
unfolding rotate
black_outer s w tree =
    if rb_is_black tree (child_of tree (other s) w)
    then (let t1 : RbTree = rb_set_color w red tree in
        let t2 : RbTree = rb_set_color (child_of t1 s w) black t1 in
        let t3 : RbTree = rotate (other s) w t2 in (t3, rb_parent t3 w))
    else (tree, w)

-- Case 4
unfoldable pub lift_sibling : Side → (p w : ℕ) → RbTree → RbTree
unfolding rotate
lift_sibling s p w tree =
    let t1 : RbTree = rb_set_color w (rb_color tree p) tree in
    let t2 : RbTree = rb_set_color p black t1 in
    let t3 : RbTree = rb_set_color (child_of t2 (other s) w) black t2 in rotate s p t3

-- A round for a node on side `s` of `p`: the next node, and whether the loop is left at once.
unfoldable pub delete_at : Side → (p : ℕ) → RbTree → RbTree × ℕ × Bool
unfolding red_sibling black_outer lift_sibling
delete_at s p tree =
    if child_of tree (other s) p == 0
    then (tree, tree.rb_root, true)
    else let (t1, w) = red_sibling s p (child_of tree (other s) p) tree in
      if rb_is_black t1 (child_of t1 left w) && rb_is_black t1 (child_of t1 right w)
      then (rb_set_color w red t1, p, false)
      else let (t2, w') = black_outer s w t1 in
        let t3 : RbTree = lift_sibling s p w' t2 in (t3, t3.rb_root, false)

unfoldable pub delete_round : (pnode node : ℕ) → (is_right : Bool) → RbTree → RbTree × ℕ × Bool
unfolding delete_at
delete_round pnode node is_right tree =
    let p = if node == 0 then pnode else rb_parent tree node in
    let is_left = if node == 0 then not is_right else rb_is_child tree left node in
    if is_left then delete_at left p tree else delete_at right p tree

unfoldable pub delete_loop : (fuel pnode node : ℕ) → (is_right : Bool) → RbTree → Option RbTree
unfolding delete_round
delete_loop zero pnode node is_right tree = none
delete_loop (suc fuel) pnode node is_right tree =
    let (tree', node', stop) = delete_round pnode node is_right tree in
    let rest = delete_loop fuel pnode node' is_right tree' in
    if not (rb_is_root tree node) && rb_is_black tree node
    then if stop then some (rb_set_color node' black tree') else rest
    else some (rb_set_color node black tree)

unfoldable pub rb_delete_fixup : (fuel pnode node : ℕ) → (is_right : Bool) → RbTree → Option RbTree
unfolding delete_loop
rb_delete_fixup fuel pnode node is_right tree =
    if pnode == 0
    then some (if node == 0 then tree else rb_set_color node black tree)
    else delete_loop fuel pnode node is_right tree

-- RB_MAKE_ORPHAN: the address of the node, whose lowest bit is 0.
abbrev pub rb_make_orphan : ℕ → RbTree → RbTree
rb_make_orphan p = update p (λ n. record n { parent = p; color = red })

-- The end of `rb_erase`.
unfoldable pub erase_end :
    (fuel node : ℕ) → Color → (pdel_node cld_node : ℕ) → (is_right : Bool) → RbTree → Option RbTree
unfolding rb_delete_fixup
erase_end fuel node red pdel_node cld_node is_right tree = some (rb_make_orphan node tree)
erase_end fuel node black pdel_node cld_node is_right tree =
    elim (rb_delete_fixup fuel pdel_node cld_node is_right tree) [
      | none ↦ none
      | some t ↦ some (rb_make_orphan node t)
    ]

-- The node has a child on side `s` at most.
unfoldable pub erase_outer : Side → (fuel node : ℕ) → RbTree → Option RbTree
unfolding erase_end rb_transplant
erase_outer s fuel node tree =
    erase_end fuel node (rb_color tree node) (rb_parent tree node) (child_of tree s node)
      (rb_is_child tree right node) (rb_transplant node (child_of tree s node) tree)

-- The node has two children, and `del_node` is its successor.
unfoldable pub erase_inner : (fuel node del_node : ℕ) → RbTree → Option RbTree
unfolding erase_end rb_transplant
erase_inner fuel node del_node tree =
    let beside = rb_parent tree del_node == node in
    let cld_node = child_of tree right del_node in
    let t1 : RbTree =
      if beside
      then tree
      else (let t : RbTree = rb_transplant del_node cld_node tree in
          let t' : RbTree = set_child right del_node (child_of t right node) t in
          rb_set_parent (child_of t' right node) del_node t') in
    let t2 : RbTree = rb_transplant node del_node t1 in
    let t3 : RbTree = rb_set_parent (child_of t2 left node) del_node t2 in
    let t4 : RbTree = set_child left del_node (child_of t3 left node) t3 in
    let t5 : RbTree = rb_set_color del_node (rb_color t4 node) t4 in
    erase_end fuel node (rb_color tree del_node)
      (if beside then del_node else rb_parent tree del_node) cld_node
      (rb_is_child tree right del_node) t5

unfoldable pub rb_erase : (fuel node : ℕ) → RbTree → Option RbTree
unfolding erase_outer erase_inner
rb_erase fuel node tree =
    if tree.rb_root == 0 || node == 0
    then some tree
    else if child_of tree left node == 0
    then erase_outer right fuel node tree
    else if child_of tree right node == 0
    then erase_outer left fuel node tree
    else elim (rb_step right fuel node tree) [
      | none ↦ none
      | some del_node ↦ erase_inner fuel node del_node tree
    ]

unfoldable pub rb_replace : (old new : ℕ) → RbTree → RbTree
unfolding rb_transplant
rb_replace old new tree =
    if tree.rb_root == 0 || old == 0 || new == 0
    then tree
    else (let t1 : RbTree = rb_transplant old new tree in
        let t2 : RbTree = set_child right new (child_of t1 right old) t1 in
        let t3 : RbTree = set_child left new (child_of t2 left old) t2 in
        rb_make_orphan old (rb_set_color new (rb_color t3 old) t3))
