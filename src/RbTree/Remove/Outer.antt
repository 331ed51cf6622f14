-- ===== src/RbTree/Remove/Outer.antt =====
-- `rb_erase` of src/common/ds/rbtree.c for a node with one child at most.
use c_liber.Prelude.{
  ℕ, ◌+◌, ◌<◌, ◌≡◌, ◌≢◌, refl, ap, sym, ◌∙◌, true, false, List, [], ◌∷◌, length, count, arith, ◌⊎◌,
  inl, inr, some,
}
use mathlib.Core.Path.{subst}
use c_liber.RbTree.{
  RbTree, Color, Side, left, right, other, child_of, rb_parent, rb_color, rb_is_child,
}
use c_liber.RbTree.Erase.{rb_transplant, erase_end, erase_outer}
use c_liber.RbTree.Shape.{Tree, leaf, join, IsAt, Frame, plug, inorder, in_tree-join, join-IsNode}
use c_liber.RbTree.Moves.{is_child}
use c_liber.RbTree.Balance.{black_height, IsRb, IsRbPath, IsBlackAbove, IsRb-join}
use c_liber.RbTree.Loop.{IsRbTree}
use c_liber.RbTree.Refine.{in_tree-count}
use c_liber.RbTree.Remove.Short.{IsOnSide, side_of}
use c_liber.RbTree.Remove.End.{erase_end-IsRbTree}
use c_liber.RbTree.Remove.Tail.{black_height-join}
use c_liber.RbTree.Remove.Transplant.{rb_transplant-IsAt}
use c_liber.RbTree.Remove.Taken.{in_tree-plug}

side_read :
    (tree : RbTree) (s : Side) (n : ℕ)
    → (rb_is_child tree s n ≡ true) × (rb_is_child tree (other s) n ≡ false)
    → s ≡ side_of (rb_is_child tree right n)
side_read tree left n (e, e') = ap side_of (sym e')
side_read tree right n (e, e') = ap side_of (sym e)

outer_side :
    (tree : RbTree) (q n : ℕ) (t : Tree) (k : List Frame)
    → IsAt tree q n t k
    → (rb_parent tree n ≡ q) × (n ≢ 0)
    → k ≡ [] ⊎ IsOnSide (rb_is_child tree right n) k
outer_side tree q n t [] i node = inl refl
outer_side tree q n t (f ∷ k) i node =
    inr (side_read tree f.side n (is_child tree q n t f k i node))

erase_outer-end :
    (s : Side) (fuel n q : ℕ) (c : Color) (tree : RbTree)
    → rb_color tree n ≡ c
    → rb_parent tree n ≡ q
    → erase_outer s fuel n tree
      ≡ erase_end fuel n c q
          (child_of tree s n)
          (rb_is_child tree right n)
          (rb_transplant n (child_of tree s n) tree)
unfolding erase_outer
erase_outer-end s fuel n q c tree e e' =
    ap
      (λ d.
        erase_end fuel n d (rb_parent tree n) (child_of tree s n) (rb_is_child tree right n)
          (rb_transplant n (child_of tree s n) tree))
      e
    ∙ ap
        (λ p.
          erase_end fuel n c p (child_of tree s n) (rb_is_child tree right n)
            (rb_transplant n (child_of tree s n) tree))
        e'

pub erase_outer-IsRbTree :
    (s : Side) (fuel q n : ℕ) (c : Color) (tree : RbTree) (v : Tree) (k : List Frame)
    → IsAt tree q n (join s c v n leaf) k
    → IsRb (join s c v n leaf)
    → IsBlackAbove c k
    → IsRbPath (black_height (join s c v n leaf)) k
    → 1 + length k < fuel
    → (tree' : RbTree) × (erase_outer s fuel n tree ≡ some tree')
      × IsRbTree (inorder (plug k v)) tree'
erase_outer-IsRbTree s fuel q n c tree v k i it ab path enough =
    let (e, null, par, co, iv, il) = join-IsNode tree.node q n s c v n leaf i.here in
    let (eh, bv, bl, rv, rl) = IsRb-join s c v n leaf it in
    let j =
      rb_transplant-IsAt tree q n (child_of tree s n) (join s c v n leaf) v k i null par iv
        (λ a. (let w = in_tree-join a s c v n leaf in omega arith)) in
    let once = i.once n in
    let counted = in_tree-join n s c v n leaf in
    let gone : count n (inorder (plug k v)) ≡ 0 =
      sym (in_tree-count n (plug k v)) ∙ in_tree-plug n v k ∙ ground arith in
    let (tree', e', r) =
      erase_end-IsRbTree fuel n q (child_of tree s n) c (rb_is_child tree right n)
        (rb_transplant n (child_of tree s n) tree) v k j rv bv ab
        (subst (λ m. IsRbPath m k) (black_height-join s c v n leaf eh) path)
        (outer_side tree q n (join s c v n leaf) k i (par, null)) gone enough in
    (tree', erase_outer-end s fuel n q c tree co par ∙ e', r)
