-- ===== src/RbTree/Walk.antt =====
-- The walks of src/common/ds/rbtree.c: the first and the last node, the next and the previous one, and
-- the destruction. A walk takes fuel; `none` means that it ran out.
use c_liber.Prelude.{
  ℕ, zero, suc, not, ◌&&◌, Option, none, some, List, [], ◌∷◌, ◌++◌, ◌==◌, if◌then◌else◌,
}
use c_liber.RbTree.{
  RbTree, Side, left, right, other, child_of, rb_parent, rb_is_root, rb_is_child, set_root,
}

-- `__rb_min` is `outermost left`, `__rb_max` is `outermost right`.
unfoldable pub outermost : Side → (fuel root : ℕ) → RbTree → Option ℕ
outermost s zero root tree = none
outermost s (suc fuel) root tree =
    let rest = outermost s fuel (child_of tree s root) tree in
    if not (root == 0) && not (child_of tree s root == 0) then rest else some root

-- `rb_first` and `rb_last`
unfoldable pub rb_end : Side → (fuel : ℕ) → RbTree → Option ℕ
unfolding outermost
rb_end s fuel tree = outermost s fuel tree.rb_root tree

-- The loop that climbs while the node is the child on side `s`.
unfoldable pub climb : Side → (fuel n : ℕ) → RbTree → Option ℕ
climb s zero n tree = none
climb s (suc fuel) n tree =
    let rest = climb s fuel (rb_parent tree n) tree in
    if not (n == 0) && rb_is_child tree s n then rest else some n

-- `rb_next` is `rb_step right`, `rb_prev` is `rb_step left`; the result 0 is NULL.
unfoldable pub rb_step : Side → (fuel node : ℕ) → RbTree → Option ℕ
unfolding outermost climb
rb_step s fuel node tree =
    let next = child_of tree s node in
    if next == 0
    then (if rb_is_root tree node
        then some 0
        else if rb_is_child tree (other s) node
        then some (rb_parent tree node)
        else elim (climb s fuel (rb_parent tree node) tree) [
          | none ↦ none
          | some n ↦ if rb_is_root tree n then some 0 else some (rb_parent tree n)
        ])
    else outermost (other s) fuel next tree

-- `__rb_destroy_r`: the nodes given to `freeFn`, in order. It does not read a node that it has freed.
unfoldable pub destroy_r : (fuel node : ℕ) → RbTree → List ℕ
destroy_r zero node tree = []
destroy_r (suc fuel) node tree =
    let lower = destroy_r fuel (child_of tree left node) tree in
    let upper = destroy_r fuel (child_of tree right node) tree in
    if node == 0 then [] else lower ++ upper ++ node ∷ []

unfoldable pub rb_destroy : (fuel : ℕ) → RbTree → List ℕ × RbTree
unfolding destroy_r
rb_destroy fuel tree = (destroy_r fuel tree.rb_root tree, set_root 0 tree)
