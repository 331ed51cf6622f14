-- ===== src/RbTree/Fixup.antt =====
-- A round of `rb_insert_fixup` of src/common/ds/rbtree.c on the tree that the memory represents.
use c_liber.Prelude.{
  ℕ, ◌<◌, ◌≡◌, ◌≢◌, ap, sym, ◌∙◌, true, false, List, length, arith, if◌then◌else◌,
}
use c_liber.RbTree.{
  RbTree, Color, Side, left, right, other, red, black, child_of, rb_parent, rb_gparent, rb_is_child,
  rb_set_color, update, rotate,
}
use c_liber.RbTree.Insert.{rebalance, recolor}
use c_liber.RbTree.Shape.{Tree, leaf, fork, IsTree, IsAt, Frame, plug, inorder}
use c_liber.RbTree.Moves.{root_color, node_parent}
use c_liber.RbTree.Balance.{weight, black_height, IsRb, IsRbPath}

pub parent-rb_set_color :
    (p a : ℕ) (c : Color) (tree : RbTree) → rb_parent (rb_set_color p c tree) a ≡ rb_parent tree a
unfolding update
parent-rb_set_color p a c tree = ground arith

gparent-rb_set_color :
    (p a : ℕ) (c : Color) (tree : RbTree) → rb_gparent (rb_set_color p c tree) a ≡ rb_gparent tree a
gparent-rb_set_color p a c tree =
    parent-rb_set_color p (rb_parent (rb_set_color p c tree) a) c tree
    ∙ ap (rb_parent tree) (parent-rb_set_color p a c tree)

pub child-rb_set_color :
    (s : Side) (p a : ℕ) (c : Color) (tree : RbTree)
    → child_of (rb_set_color p c tree) s a ≡ child_of tree s a
unfolding update
child-rb_set_color left p a c tree = ground arith
child-rb_set_color right p a c tree = ground arith

-- Case 1 by the addresses that it computes.
pub recolor-stores :
    (tree : RbTree) (p q q2 uncle : ℕ)
    → rb_parent tree p ≡ q
    → rb_parent tree q ≡ q2
    → recolor p uncle tree
      ≡ (rb_set_color q2 red (rb_set_color uncle black (rb_set_color q black tree)), q2)
unfolding recolor
recolor-stores tree p q q2 uncle e e2 =
    let t2 : RbTree = rb_set_color uncle black (rb_set_color q black tree) in
    let g2 : rb_gparent t2 p ≡ q2 =
      gparent-rb_set_color uncle p black (rb_set_color q black tree)
      ∙ gparent-rb_set_color q p black tree
      ∙ ap (rb_parent tree) e
      ∙ e2 in
    ap
      (λ v.
        (let t2 : RbTree = rb_set_color uncle black (rb_set_color v black tree) in
          let t3 : RbTree = rb_set_color (rb_gparent t2 p) red t2 in (t3, rb_gparent t3 p)))
      e
    ∙ ap (λ v. (rb_set_color v red t2, rb_gparent (rb_set_color v red t2) p)) g2
    ∙ ap (λ v. (rb_set_color q2 red t2, v)) (gparent-rb_set_color q2 p red t2 ∙ g2)

-- Case 3
abbrev pub straight : Side → ℕ → RbTree → RbTree × ℕ
straight s node tree =
    let t2 : RbTree = rb_set_color (rb_parent tree node) black tree in
    let t3 : RbTree = rb_set_color (rb_gparent t2 node) red t2 in
    (rotate (other s) (rb_gparent t3 node) t3, node)

pub rebalance-straight :
    (s : Side) (p : ℕ) (tree : RbTree)
    → rb_is_child tree (other s) p ≡ false
    → rebalance s p tree ≡ straight s p tree
unfolding rebalance
rebalance-straight s p tree e =
    ap
      (λ b.
        (let node = if b then rb_parent tree p else p in
          let t1 : RbTree = if b then rotate s node tree else tree in straight s node t1))
      e

pub rebalance_bent :
    (s : Side) (p q : ℕ) (tree : RbTree)
    → rb_is_child tree (other s) p ≡ true
    → rb_parent tree p ≡ q
    → rebalance s p tree ≡ straight s q (rotate s q tree)
unfolding rebalance
rebalance_bent s p q tree e e2 =
    ap
      (λ b.
        (let node = if b then rb_parent tree p else p in
          let t1 : RbTree = if b then rotate s node tree else tree in straight s node t1))
      e
    ∙ ap (λ v. straight s v (rotate s v tree)) e2

pub straight-stores :
    (s : Side) (p q q2 : ℕ) (tree : RbTree)
    → rb_parent tree p ≡ q
    → rb_parent tree q ≡ q2
    → straight s p tree ≡ (rotate (other s) q2 (rb_set_color q2 red (rb_set_color q black tree)), p)
straight-stores s p q q2 tree e e2 =
    let t2 : RbTree = rb_set_color q black tree in
    let g2 : rb_gparent t2 p ≡ q2 =
      gparent-rb_set_color q p black tree ∙ ap (rb_parent tree) e ∙ e2 in
    ap
      (λ v.
        (let t2 : RbTree = rb_set_color v black tree in
          let t3 : RbTree = rb_set_color (rb_gparent t2 p) red t2 in
          (rotate (other s) (rb_gparent t3 p) t3, p)))
      e
    ∙ ap (λ v. (rotate (other s) (rb_gparent (rb_set_color v red t2) p) (rb_set_color v red t2), p))
        g2
    ∙ ap (λ v. (rotate (other s) v (rb_set_color q2 red t2), p))
        (gparent-rb_set_color q2 p red t2 ∙ g2)

-- The fixup before a round at the node `p`: the tree there has a red root, which is all that may be
-- wrong with it. Fewer than `n` nodes stand above it.
pub record Loose (xs : List ℕ) (n : ℕ) (tree : RbTree) (p : ℕ) : Type 0 where
  pub q : ℕ
  pub t : Tree
  pub k : List Frame
  pub place : IsAt tree q p t k
  pub top : root_color t ≡ red
  pub balanced : IsRb t
  pub path : IsRbPath (black_height t) k
  pub order : inorder (plug k t) ≡ xs
  pub size : length k < n

pub not_black : {A : Type 0} → black ≡ red → A
not_black e = absurd (ground (arith, ap weight e))

pub red_node :
    (tree : RbTree) (q p : ℕ) (t : Tree)
    → IsTree tree.node q p t
    → root_color t ≡ red
    → (rb_parent tree p ≡ q) × (p ≢ 0)
red_node tree q p leaf i e = not_black e
red_node tree q p (fork c l a r) i e = node_parent tree q p left c l a r i

pub same_address :
    (tree tree' : RbTree) (q q' p p' : ℕ) (t : Tree)
    → IsTree tree.node q p t
    → IsTree tree'.node q' p' t
    → p' ≡ p
same_address tree tree' q q' p p' leaf i i' = i' ∙ sym i
same_address tree tree' q q' p p' (fork c l a r) (e, n, b, d, il, ir) (e', n', b', d', il', ir') =
    e' ∙ sym e
