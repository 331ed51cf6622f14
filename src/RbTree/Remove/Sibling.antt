-- ===== src/RbTree/Remove/Sibling.antt =====
-- What `rb_delete_fixup` of src/common/ds/rbtree.c reads of the sibling and its children.
use c_liber.Prelude.{ℕ, ◌≡◌, ◌≢◌, refl, ap, ap₂, sym, ◌∙◌, Bool, true, false, not, ◌&&◌, arith}
use mathlib.Core.Path.{subst}
use c_liber.RbTree.{
  RbTree, Color, Side, left, right, other, red, black, same_color, child_of, rb_color, rb_is_black,
}
use c_liber.RbTree.Shape.{Tree, leaf, fork, join, IsTree, join-IsNode}
use c_liber.RbTree.Moves.{root_color, is_red}

dark_node :
    (tree : RbTree) (a : ℕ) (c : Color)
    → a ≢ 0
    → rb_color tree a ≡ c
    → rb_is_black tree a ≡ not (is_red c)
dark_node tree a red n e = ground (arith, ap (λ c. same_color c black) e)
dark_node tree a black n e = ground (arith, ap (λ c. same_color c black) e)

pub reads_black :
    (tree : RbTree) (q p : ℕ) (t : Tree)
    → IsTree tree.node q p t
    → rb_is_black tree p ≡ not (is_red (root_color t))
reads_black tree q p leaf e = ground arith
reads_black tree q p (fork c l a r) (e, n, par, co, il, ir) =
    subst (λ v. rb_is_black tree v ≡ not (is_red c)) (sym e) (dark_node tree a c n co)

and_false : (b : Bool) → (b && false) ≡ false
and_false true = refl
and_false false = refl

-- What the code reads of the children of the sibling.
module _ (tree : RbTree) (q w : ℕ) (d : Color) (x y : Tree) (aw : ℕ) where
  pub child_black :
      (s : Side)
      → IsTree tree.node q w (join s d x aw y)
      → (rb_is_black tree (child_of tree s w) ≡ not (is_red (root_color x)))
        × (rb_is_black tree (child_of tree (other s) w) ≡ not (is_red (root_color y)))
  child_black s i =
      let (e, n, par, co, ix, iy) = join-IsNode tree.node q w s d x aw y i in
      (
        ap (λ a. rb_is_black tree (child_of tree s a)) e
            ∙ reads_black tree aw (child_of tree s aw) x ix,
        ap (λ a. rb_is_black tree (child_of tree (other s) a)) e
            ∙ reads_black tree aw (child_of tree (other s) aw) y iy,
      )

  abbrev pub both : Bool
  both = rb_is_black tree (child_of tree left w) && rb_is_black tree (child_of tree right w)

  pub both_black :
      (s : Side)
      → IsTree tree.node q w (join s d x aw y)
      → root_color x ≡ black
      → root_color y ≡ black
      → both ≡ true
  both_black s i ex ey =
      let (bx, by) = child_black s i in
      let bx' = bx ∙ ap (λ c. not (is_red c)) ex in
      let by' = by ∙ ap (λ c. not (is_red c)) ey in pair s bx' by'
    where
      pair :
          (s : Side)
          → rb_is_black tree (child_of tree s w) ≡ true
          → rb_is_black tree (child_of tree (other s) w) ≡ true
          → both ≡ true
      pair left e e' = ap₂ (λ a b. a && b) e e'
      pair right e e' = ap₂ (λ a b. a && b) e' e

  pub one_red : (s : Side) → rb_is_black tree (child_of tree s w) ≡ false → both ≡ false
  one_red left e = ap (λ a. a && rb_is_black tree (child_of tree right w)) e
  one_red right e =
      ap (λ a. rb_is_black tree (child_of tree left w) && a) e
      ∙ and_false (rb_is_black tree (child_of tree left w))
