-- ===== src/RbTree/Rotate.antt =====
-- The rotations of src/common/ds/rbtree.c on the memory, and on the tree that it represents.
use c_liber.Prelude.{ℕ, ◌≡◌, ◌≢◌, refl, ap, sym, ◌∙◌, Bool, true, false, arith, if◌then◌else◌, ◌==◌}
use mathlib.Core.Path.{subst}
use c_liber.RbTree.{
  RbTree, RbNode, Side, left, right, other, with_child, child_of, rb_parent, rotate, relink,
  reparent, set_root, set_child, with_parent, update, at_update, off_update, root-update,
}

-- What a rotation changes. `x` is the node, `y` the child that takes its place, `b` the subtree between
-- them and `q` the parent.
pub record Rotated (s : Side) (x y b q : ℕ) (tree tree' : RbTree) : Type 0 where
  pub at_x : tree'.node x ≡ record (with_child (other s) b (tree.node x)) { parent = y }
  pub at_y : tree'.node y ≡ record (with_child s x (tree.node y)) { parent = q }
  pub at_inner : b ≢ 0 → tree'.node b ≡ record (tree.node b) { parent = x }
  pub at_up :
      q ≢ 0
      → tree'.node q
        ≡ with_child (if (tree.node q).rb_left == x then left else right) y (tree.node q)
  pub elsewhere :
      (a : ℕ) → a ≢ x → a ≢ y → (b ≢ 0 → a ≢ b) → (q ≢ 0 → a ≢ q) → tree'.node a ≡ tree.node a
  pub root : tree'.rb_root ≡ (if q == 0 then y else tree.rb_root)

-- The nodes that a rotation touches are different.
pub record Apart (x y b q : ℕ) : Type 0 where
  pub x_null : x ≢ 0
  pub y_null : y ≢ 0
  pub x_y : x ≢ y
  pub b_x : b ≢ x
  pub b_y : b ≢ y
  pub q_x : q ≢ x
  pub q_y : q ≢ y
  pub b_q : b ≢ 0 → b ≢ q

-- The place of a node under `q`.
abbrev pub side_of : RbTree → (q u : ℕ) → Side
side_of tree q u = if (tree.node q).rb_left == u then left else right

abbrev pub place : (q : ℕ) → Side → (v : ℕ) → RbTree → RbTree
place q s v tree = if q == 0 then set_root v tree else set_child s q v tree

set_side :
    (b : Bool) (q v : ℕ) (tree : RbTree)
    → (if b then set_child left q v tree else set_child right q v tree)
      ≡ set_child (if b then left else right) q v tree
set_side true q v tree = refl
set_side false q v tree = refl

pub relink-place :
    (u v q : ℕ) (tree : RbTree)
    → u ≢ 0
    → rb_parent tree u ≡ q
    → relink u v tree ≡ place q (side_of tree q u) v tree
unfolding relink
relink-place u v q tree n e =
    subst (λ r. relink u v tree ≡ place r (side_of tree r u) v tree) e ground
      (arith, set_side ((tree.node (rb_parent tree u)).rb_left == u) (rb_parent tree u) v tree)

pub off_reparent :
    (b x a : ℕ) (tree : RbTree) → (b ≢ 0 → a ≢ b) → (reparent b x tree).node a ≡ tree.node a
unfolding reparent
off_reparent b x a tree h = ground (arith, off_update b a (with_parent x) tree)

pub at_reparent :
    (b x : ℕ) (tree : RbTree) → b ≢ 0 → (reparent b x tree).node b ≡ with_parent x (tree.node b)
unfolding reparent
at_reparent b x tree h = ground (arith, at_update b (with_parent x) tree)

pub off_place :
    (q v a : ℕ) (s : Side) (tree : RbTree)
    → (q ≢ 0 → a ≢ q)
    → (place q s v tree).node a ≡ tree.node a
off_place q v a s tree h = ground (arith, off_update q a (with_child s v) tree)

pub at_place :
    (q v : ℕ) (s : Side) (tree : RbTree)
    → q ≢ 0
    → (place q s v tree).node q ≡ with_child s v (tree.node q)
at_place q v s tree h = ground (arith, at_update q (with_child s v) tree)

pub root-place :
    (q v : ℕ) (s : Side) (tree : RbTree)
    → (place q s v tree).rb_root ≡ (if q == 0 then v else tree.rb_root)
root-place q v s tree = ground (arith, root-update q (with_child s v) tree)

pub root-reparent : (b x : ℕ) (tree : RbTree) → (reparent b x tree).rb_root ≡ tree.rb_root
unfolding reparent
root-reparent b x tree = ground (arith, root-update b (with_parent x) tree)

parent-with_child : (s : Side) (v : ℕ) (n : RbNode) → (with_child s v n).parent ≡ n.parent
parent-with_child left v n = refl
parent-with_child right v n = refl

child-parent :
    (s : Side) (x q : ℕ) (n : RbNode)
    → with_child s x (with_parent q n) ≡ record (with_child s x n) { parent = q }
child-parent left x q n = refl
child-parent right x q n = refl

-- The stores of a rotation, with the addresses that it computes.
module _ (s : Side) (x y b q : ℕ) (tree : RbTree) where
  abbrev bent : RbTree
  bent = reparent b x (set_child (other s) x b tree)

  abbrev lifted : RbTree
  lifted = update y (with_parent q) bent

  abbrev placed : RbTree
  placed = place q (side_of tree q x) y lifted

  abbrev sunk : RbTree
  sunk = set_child s y x placed

  abbrev turned : RbTree
  turned = update x (with_parent y) sunk

  module _ (v : Apart x y b q) where
    -- What is read before the place of `x` is given away.
    bent_x : bent.node x ≡ with_child (other s) b (tree.node x)
    bent_x =
        off_reparent b x x (set_child (other s) x b tree) (λ n e. v.b_x (sym e))
        ∙ at_update x (with_child (other s) b) tree

    lifted_x : lifted.node x ≡ with_child (other s) b (tree.node x)
    lifted_x = off_update y x (with_parent q) bent v.x_y ∙ bent_x

    lifted_y : lifted.node y ≡ with_parent q (tree.node y)
    lifted_y =
        at_update y (with_parent q) bent
        ∙ ap (with_parent q) (
            off_reparent b x y (set_child (other s) x b tree) (λ n e. v.b_y (sym e))
            ∙ off_update x y (with_child (other s) b) tree (λ e. v.x_y (sym e)))

    -- Away from `x` and `y`, only the subtree between them is touched so far.
    lifted_off : (a : ℕ) → a ≢ x → a ≢ y → (b ≢ 0 → a ≢ b) → lifted.node a ≡ tree.node a
    lifted_off a ax ay ab =
        off_update y a (with_parent q) bent ay
        ∙ off_reparent b x a (set_child (other s) x b tree) ab
        ∙ off_update x a (with_child (other s) b) tree ax

    turned_off : (a : ℕ) → a ≢ x → a ≢ y → turned.node a ≡ placed.node a
    turned_off a ax ay =
        off_update x a (with_parent y) sunk ax ∙ off_update y a (with_child s x) placed ay

    root-lifted : lifted.rb_root ≡ tree.rb_root
    root-lifted =
        root-update y (with_parent q) bent
        ∙ root-reparent b x (set_child (other s) x b tree)
        ∙ root-update x (with_child (other s) b) tree

    turned-Rotated : Rotated s x y b q tree turned
    turned-Rotated = record {
      at_x =
          at_update x (with_parent y) sunk
          ∙ ap (with_parent y) (
              off_update y x (with_child s x) placed v.x_y
              ∙ off_place q y x (side_of tree q x) lifted (λ n e. v.q_x (sym e))
              ∙ lifted_x);
      at_y =
          off_update x y (with_parent y) sunk (λ e. v.x_y (sym e))
          ∙ at_update y (with_child s x) placed
          ∙ ap (with_child s x)
              (off_place q y y (side_of tree q x) lifted (λ n e. v.q_y (sym e)) ∙ lifted_y)
          ∙ child-parent s x q (tree.node y);
      at_inner = λ n.
          turned_off b v.b_x v.b_y
          ∙ off_place q y b (side_of tree q x) lifted (λ m. v.b_q n)
          ∙ off_update y b (with_parent q) bent v.b_y
          ∙ at_reparent b x (set_child (other s) x b tree) n
          ∙ ap (with_parent x) (off_update x b (with_child (other s) b) tree v.b_x);
      at_up = λ n.
          turned_off q v.q_x v.q_y
          ∙ at_place q y (side_of tree q x) lifted n
          ∙ ap (with_child (side_of tree q x) y)
              (lifted_off q v.q_x v.q_y (λ m e. v.b_q m (sym e)));
      elsewhere = λ a ax ay ab aq.
          turned_off a ax ay ∙ off_place q y a (side_of tree q x) lifted aq ∙ lifted_off a ax ay ab;
      root =
          root-update x (with_parent y) sunk
          ∙ root-update y (with_child s x) placed
          ∙ root-place q y (side_of tree q x) lifted
          ∙ ap (λ r. if q == 0 then y else r) root-lifted;
    }

-- A rotation with the addresses that it reads as arguments; `p` is the parent that it reads last.
abbrev rotated : Side → (x y b p : ℕ) → RbTree → RbTree
rotated s x y b p tree =
    update x (with_parent y)
      (set_child s y x (relink x y (update y (with_parent p) (bent s x y b p tree))))

rotate-rotated :
    (s : Side) (x y b q : ℕ) (tree : RbTree)
    → child_of tree (other s) x ≡ y
    → child_of tree s y ≡ b
    → rb_parent (bent s x y b q tree) x ≡ q
    → rotate s x tree ≡ rotated s x y b q tree
unfolding rotate
rotate-rotated s x y b q tree ey eb eq =
    ap
      (λ v.
        rotated s x v (child_of tree s v) (rb_parent (bent s x v (child_of tree s v) q tree) x)
          tree)
      ey
    ∙ ap (λ v. rotated s x y v (rb_parent (bent s x y v q tree) x) tree) eb
    ∙ ap (λ v. rotated s x y b v tree) eq

-- A rotation changes these nodes only, when they are different.
pub rotate-Rotated :
    (s : Side) (x y b q : ℕ) (tree : RbTree)
    → child_of tree (other s) x ≡ y
    → child_of tree s y ≡ b
    → rb_parent tree x ≡ q
    → Apart x y b q
    → Rotated s x y b q tree (rotate s x tree)
rotate-Rotated s x y b q tree ey eb eq v =
    let up : rb_parent (lifted s x y b q tree) x ≡ q =
      ap (λ n. n.parent) (lifted_x s x y b q tree v)
      ∙ parent-with_child (other s) b (tree.node x)
      ∙ eq in
    subst (Rotated s x y b q tree)
      (sym (
        rotate-rotated s x y b q tree ey eb (
          ap (λ n. n.parent) (bent_x s x y b q tree v)
          ∙ parent-with_child (other s) b (tree.node x)
          ∙ eq)
        ∙ ap (λ t. update x (with_parent y) (set_child s y x t))
            (relink-place x y q (lifted s x y b q tree) v.x_null up
              ∙ ap (λ n. place q (if n.rb_left == x then left else right) y (lifted s x y b q tree))
                  (lifted_off s x y b q tree v q v.q_x v.q_y (λ m e. v.b_q m (sym e))))))
      (turned-Rotated s x y b q tree v)
