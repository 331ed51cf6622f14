-- ===== src/RbTree/Remove/Transplant.antt =====
-- `rb_transplant` of src/common/ds/rbtree.c.
use c_liber.Prelude.{
  ℕ, ◌+◌, ◌≤◌, ◌<◌, ◌≡◌, ◌≢◌, ap, sym, ◌∙◌, List, [], ◌∷◌, arith, if◌then◌else◌, ◌==◌,
}
use mathlib.Core.Path.{subst}
use c_liber.RbTree.{RbTree, other, child, rb_parent, reparent, with_parent, with_child}
use c_liber.RbTree.Erase.{rb_transplant}
use c_liber.RbTree.Shape.{Tree, IsTree, IsPath, IsAt, Frame, in_tree, in_path, at_root, move-IsTree}
use c_liber.RbTree.Rotate.{
  place, side_of, relink-place, off_reparent, at_reparent, off_place, at_place, root-place,
  root-reparent,
}
use c_liber.RbTree.Turn.{IsStored, move-IsPath, side_found, above_path}

rb_transplant-place :
    (u v q : ℕ) (tree : RbTree)
    → u ≢ 0
    → rb_parent tree u ≡ q
    → u ≢ q
    → rb_transplant u v tree ≡ reparent v q (place q (side_of tree q u) v tree)
unfolding rb_transplant
rb_transplant-place u v q tree n e d =
    ap (λ t. reparent v (rb_parent t u) t) (relink-place u v q tree n e)
    ∙ ap (λ p. reparent v p (place q (side_of tree q u) v tree))
        (ap (λ b. b.parent) (off_place q v u (side_of tree q u) tree (λ m. d)) ∙ e)

-- What is stored for the subtree `v` in the place of `u` under `q`.
module _ (u v q : ℕ) (tree : RbTree) (k : List Frame) (null : u ≢ 0) (up : rb_parent tree u ≡ q)
    (apart : u ≢ q) (above : IsPath tree.node tree.rb_root q u k) (off : v ≢ 0 → in_path v k ≡ 0)
    (away : in_path u k ≡ 0) where
  abbrev pub moved : RbTree
  moved = rb_transplant u v tree

  abbrev placed : RbTree
  placed = place q (side_of tree q u) v tree

  as_placed : moved ≡ reparent v q placed
  as_placed = rb_transplant-place u v q tree null up apart

  not_parent : v ≢ 0 → q ≢ 0 → v ≢ q
  not_parent n m e =
      let o = off n in
      let l =
        subst (λ a. 0 < in_path a k) (sym e) (above_path tree.node tree.rb_root q u k above m) in
      omega arith

  pub moved_elsewhere : (a : ℕ) → (v ≢ 0 → a ≢ v) → (q ≢ 0 → a ≢ q) → moved.node a ≡ tree.node a
  moved_elsewhere a av aq =
      ap (λ t. t.node a) as_placed
      ∙ off_reparent v q a placed av
      ∙ off_place q v a (side_of tree q u) tree aq

  pub moved_at : v ≢ 0 → moved.node v ≡ with_parent q (tree.node v)
  moved_at n =
      ap (λ t. t.node v) as_placed
      ∙ at_reparent v q placed n
      ∙ ap (with_parent q) (off_place q v v (side_of tree q u) tree (not_parent n))

  pub moved_root : moved.rb_root ≡ (if q == 0 then v else tree.rb_root)
  moved_root =
      ap (λ t. t.rb_root) as_placed
      ∙ root-reparent v q placed
      ∙ root-place q v (side_of tree q u) tree

  pub moved_up : q ≢ 0 → moved.node q ≡ with_child (side_of tree q u) v (tree.node q)
  moved_up m =
      ap (λ t. t.node q) as_placed
      ∙ off_reparent v q q placed (λ n e. not_parent n m (sym e))
      ∙ at_place q v (side_of tree q u) tree m

pub moved-IsStored :
    (u v q : ℕ) (tree t' : RbTree) (k : List Frame)
    → u ≢ 0
    → in_path u k ≡ 0
    → IsPath tree.node tree.rb_root q u k
    → t'.rb_root ≡ (if q == 0 then v else tree.rb_root)
    → (q ≢ 0 → t'.node q ≡ with_child (side_of tree q u) v (tree.node q))
    → IsStored tree.node t'.node t'.rb_root v k
moved-IsStored u v q tree t' [] null away (e, i) root at_up = root ∙ ground arith
moved-IsStored u v q tree t' (f ∷ k) null away (e, m, co, ch, it, above) root at_up =
    subst (λ a. t'.node a ≡ with_child f.side v (tree.node a)) e
      (at_up (λ z. m (sym e ∙ z))
        ∙ ap (λ sd. with_child sd v (tree.node q))
            (side_found tree.node q u f.side f.sibling null
              (subst (λ a. child f.side (tree.node a) ≡ u) (sym e) ch)
              (subst (λ a. IsTree tree.node a (child (other f.side) (tree.node a)) f.sibling)
                (sym e) it)
              (omega arith)))

-- A subtree of `u` takes its place.
pub rb_transplant-IsAt :
    (tree : RbTree) (q u v : ℕ) (t w : Tree) (k : List Frame)
    → IsAt tree q u t k
    → u ≢ 0
    → rb_parent tree u ≡ q
    → IsTree tree.node u v w
    → ((a : ℕ) → in_tree a w + (if a == u then 1 else 0) ≤ in_tree a t)
    → IsAt (rb_transplant u v tree) q v w k
rb_transplant-IsAt tree q u v t w k i null up iw part =
    let once : (a : ℕ) → in_tree a w + (if a == u then 1 else 0) + in_path a k ≤ 1 =
      λ a. (let o = i.once a in let p = part a in omega arith) in
    let away : in_path u k ≡ 0 = (let o = once u in ground arith) in
    let root_w = at_root tree.node u v w iw in
    let off : v ≢ 0 → in_path v k ≡ 0 = λ n. (let o = once v in let r = root_w n in omega arith) in
    let root_q = above_path tree.node tree.rb_root q u k i.above in
    let apart : u ≢ q = λ e.
      (let l = root_q (λ z. null (e ∙ z)) in
        let m = subst (λ a. 0 < in_path a k) (sym e) l in omega arith) in
    let t' : RbTree = rb_transplant u v tree in
    let same = moved_elsewhere u v q tree k null up apart i.above off away in
    record {
      here =
          move-IsTree tree.node t'.node u q v w
            (λ a l n.
              same a (λ m. n)
                (λ m z.
                  (let r = subst (λ b. 0 < in_path b k) (sym z) (root_q m) in
                    let o = once a in omega arith)))
            (moved_at u v q tree k null up apart i.above off away) (let o = once v in omega arith)
            iw;
      above =
          move-IsPath tree.node t'.node tree.rb_root t'.rb_root q u v k
            (moved-IsStored u v q tree t' k null away i.above
              (moved_root u v q tree k null up apart i.above off away)
              (moved_up u v q tree k null up apart i.above off away))
            (λ a l n.
              same a
                (λ m z.
                  (let r = subst (λ b. 0 < in_tree b w) (sym z) (root_w m) in
                    let o = once a in omega arith))
                (λ m. n))
            (λ m. moved_root u v q tree k null up apart i.above off away ∙ ground arith)
            (λ a. (let o = once a in omega arith)) i.above;
      once = λ a. (let o = once a in omega arith);
    }
