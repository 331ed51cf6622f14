-- ===== src/RbTree/Remove/Crown.antt =====
-- `rb_erase` of src/common/ds/rbtree.c for a node with two children: the successor takes its place.
use c_liber.Prelude.{
  ℕ, ◌+◌, ◌≤◌, ◌<◌, ◌≡◌, ◌≢◌, refl, ap, sym, ◌∙◌, List, arith, if◌then◌else◌, ◌==◌,
}
use mathlib.Core.Path.{subst}
use c_liber.RbTree.{
  RbTree, Color, left, right, child_of, rb_parent, rb_color, rb_set_parent, rb_set_color, set_child,
  with_parent, with_child, with_color, at_update, off_update, root-update,
}
use c_liber.RbTree.Erase.{rb_transplant}
use c_liber.RbTree.Shape.{
  Tree, fork, IsTree, IsPath, IsAt, Frame, in_tree, in_path, at_root, frame-IsTree, move-IsTree,
}
use c_liber.RbTree.Turn.{IsStored, move-IsPath, above_path}
use c_liber.RbTree.Remove.Transplant.{
  moved_elsewhere, moved_at, moved_root, moved_up, moved-IsStored,
}

-- The memory when `n` is to be replaced by `y`, which has the right subtree already.
pub record Ready (tree : RbTree) (q n y : ℕ) (c : Color) (l r : Tree) (k : List Frame)
    : Type 0 where
  pub above : IsPath tree.node tree.rb_root q n k
  pub up : rb_parent tree n ≡ q
  pub color : rb_color tree n ≡ c
  pub lower : IsTree tree.node n (child_of tree left n) l
  pub upper : IsTree tree.node y (child_of tree right y) r
  pub n_null : n ≢ 0
  pub y_null : y ≢ 0
  pub l_null : child_of tree left n ≢ 0
  pub once :
      (a : ℕ)
      → in_tree a l
          + in_tree a r
          + (if a == n then 1 else 0)
          + (if a == y then 1 else 0)
          + in_path a k
        ≤ 1

-- The stores of `rb_erase` from the second transplantation on.
abbrev pub crown : (n y : ℕ) → RbTree → RbTree
crown n y tree =
    let t2 : RbTree = rb_transplant n y tree in
    let t3 : RbTree = rb_set_parent (child_of t2 left n) y t2 in
    let t4 : RbTree = set_child left y (child_of t3 left n) t3 in rb_set_color y (rb_color t4 n) t4

module _ (tree : RbTree) (q n y : ℕ) (c : Color) (l r : Tree) (k : List Frame)
    (i : Ready tree q n y c l r k) where
  abbrev pl : ℕ
  pl = child_of tree left n

  root_q : q ≢ 0 → 0 < in_path q k
  root_q = above_path tree.node tree.rb_root q n k i.above

  root_l : pl ≢ 0 → 0 < in_tree pl l
  root_l = at_root tree.node n pl l i.lower

  n_y : n ≢ y
  n_y e = (let o = i.once n in ground arith)

  n_q : n ≢ q
  n_q e =
      (let m = subst (λ a. 0 < in_path a k) (sym e) (root_q (λ z. i.n_null (e ∙ z))) in
        let o = i.once n in ground arith)

  y_q : y ≢ q
  y_q e =
      (let m = subst (λ a. 0 < in_path a k) (sym e) (root_q (λ z. i.y_null (e ∙ z))) in
        let o = i.once y in ground arith)

  n_pl : n ≢ pl
  n_pl e =
      (let m = subst (λ a. 0 < in_tree a l) (sym e) (root_l (λ z. i.n_null (e ∙ z))) in
        let o = i.once n in ground arith)

  y_pl : y ≢ pl
  y_pl e =
      (let m = subst (λ a. 0 < in_tree a l) (sym e) (root_l (λ z. i.y_null (e ∙ z))) in
        let o = i.once y in ground arith)

  n_off : in_path n k ≡ 0
  n_off = (let o = i.once n in ground arith)

  y_off : in_path y k ≡ 0
  y_off = (let o = i.once y in ground arith)

  abbrev t2 : RbTree
  t2 = rb_transplant n y tree

  t2_off : (a : ℕ) → a ≢ y → (q ≢ 0 → a ≢ q) → t2.node a ≡ tree.node a
  t2_off a ay aq =
      moved_elsewhere n y q tree k i.n_null i.up n_q i.above (λ m. y_off) n_off a (λ m. ay) aq

  t2_y : t2.node y ≡ with_parent q (tree.node y)
  t2_y = moved_at n y q tree k i.n_null i.up n_q i.above (λ m. y_off) n_off i.y_null

  abbrev t3 : RbTree
  t3 = rb_set_parent pl y t2

  abbrev t4 : RbTree
  t4 = set_child left y pl t3

  abbrev t5 : RbTree
  t5 = rb_set_color y c t4

  t3_n : t3.node n ≡ tree.node n
  t3_n = off_update pl n (with_parent y) t2 n_pl ∙ t2_off n n_y (λ m. n_q)

  t4_n : t4.node n ≡ tree.node n
  t4_n = off_update y n (with_child left pl) t3 n_y ∙ t3_n

  crown-t5 : crown n y tree ≡ t5
  crown-t5 =
      ap
        (λ b.
          (let t3 : RbTree = rb_set_parent b.rb_left y t2 in
            let t4 : RbTree = set_child left y (child_of t3 left n) t3 in
            rb_set_color y (rb_color t4 n) t4))
        (t2_off n n_y (λ m. n_q))
      ∙ ap
          (λ b.
            (let t4 : RbTree = set_child left y b.rb_left t3 in rb_set_color y (rb_color t4 n) t4))
          t3_n
      ∙ ap (λ b. rb_set_color y b.color t4) t4_n
      ∙ ap (λ d. rb_set_color y d t4) i.color

  t5_y :
      t5.node y ≡ record { parent = q; color = c; rb_left = pl; rb_right = child_of tree right y }
  t5_y =
      at_update y (with_color c) t4
      ∙ ap (with_color c) (
          at_update y (with_child left pl) t3
          ∙ ap (with_child left pl) (off_update pl y (with_parent y) t2 y_pl ∙ t2_y))

  t5_off : (a : ℕ) → a ≢ y → a ≢ pl → t5.node a ≡ t2.node a
  t5_off a ay al =
      off_update y a (with_color c) t4 ay
      ∙ off_update y a (with_child left pl) t3 ay
      ∙ off_update pl a (with_parent y) t2 al

  t5_pl : pl ≢ 0 → t5.node pl ≡ with_parent y (tree.node pl)
  t5_pl m =
      off_update y pl (with_color c) t4 (λ e. y_pl (sym e))
      ∙ off_update y pl (with_child left pl) t3 (λ e. y_pl (sym e))
      ∙ at_update pl (with_parent y) t2
      ∙ ap (with_parent y) (
          t2_off pl (λ e. y_pl (sym e))
            (λ z e.
              (let a = subst (λ b. 0 < in_path b k) (sym e) (root_q z) in
                let b = root_l m in let o = i.once pl in omega arith)))

  t5_root : t5.rb_root ≡ t2.rb_root
  t5_root =
      root-update y (with_color c) t4
      ∙ root-update y (with_child left pl) t3
      ∙ root-update pl (with_parent y) t2

  abbrev Spare : ℕ → Type 0
  Spare a = 0 < in_tree a l + in_tree a r + in_path a k

  spared : (a : ℕ) → Spare a → a ≢ pl → (q ≢ 0 → a ≢ q) → t5.node a ≡ tree.node a
  spared a some al aq =
      let o = i.once a in let ay : a ≢ y = λ e. ground arith in t5_off a ay al ∙ t2_off a ay aq

  pl_q : pl ≢ 0 → q ≢ 0 → pl ≢ q
  pl_q m z e =
      let a = subst (λ b. 0 < in_path b k) (sym e) (root_q z) in
      let b = root_l m in let o = i.once pl in omega arith

  stored : IsStored tree.node t5.node t5.rb_root y k
  stored =
      moved-IsStored n y q tree t5 k i.n_null n_off i.above
        (t5_root ∙ moved_root n y q tree k i.n_null i.up n_q i.above (λ m. y_off) n_off)
        (λ m.
          t5_off q (λ e. y_q (sym e)) (q_pl m)
          ∙ moved_up n y q tree k i.n_null i.up n_q i.above (λ m. y_off) n_off m)
    where
      q_pl : q ≢ 0 → q ≢ pl
      q_pl m e = pl_q (λ z. m (e ∙ z)) m (sym e)

  -- The successor stands where the node stood.
  pub crown-IsAt : IsAt (crown n y tree) q y (fork c l y r) k
  crown-IsAt =
      subst (λ t. IsAt t q y (fork c l y r) k) (sym crown-t5)
        (record {
          here = (
            refl,
            i.y_null,
            ap (λ b. b.parent) t5_y,
            ap (λ b. b.color) t5_y,
            subst (λ p. IsTree t5.node y p l) (sym (ap (λ b. b.rb_left) t5_y))
                (move-IsTree tree.node t5.node n y pl l
                  (λ a m d. spared a (omega arith) d (λ z e. off_q a z e (omega arith))) t5_pl
                  (let o = i.once pl in omega arith) i.lower),
            subst (λ p. IsTree t5.node y p r) (sym (ap (λ b. b.rb_right) t5_y))
                (frame-IsTree tree.node t5.node y (child_of tree right y) r
                  (λ a m.
                    spared a (omega arith) (off_l a (omega arith))
                      (λ z e. off_q a z e (omega arith)))
                  i.upper),
          );
          above =
              move-IsPath tree.node t5.node tree.rb_root t5.rb_root q n y k stored
                (λ a m d. spared a (omega arith) (off_l a (omega arith)) (λ z. d))
                (λ m.
                  t5_root
                  ∙ moved_root n y q tree k i.n_null i.up n_q i.above (λ z. y_off) n_off
                  ∙ ground arith)
                (λ a. (let o = i.once a in omega arith)) i.above;
          once = λ a. (let o = i.once a in ground arith);
        })
    where
      off_q : (a : ℕ) → q ≢ 0 → a ≡ q → 0 < in_tree a l + in_tree a r → ⊥
      off_q a z e m =
          let b = subst (λ b. 0 < in_path b k) (sym e) (root_q z) in let o = i.once a in omega arith

      off_l : (a : ℕ) → 0 < in_tree a r + in_path a k → a ≢ pl
      off_l a m e =
          let b = subst (λ b. 0 < in_tree b l) (sym e) (root_l i.l_null) in
          let o = i.once a in omega arith
