-- ===== src/RbTree/Remove/Inner.antt =====
-- `rb_erase` of src/common/ds/rbtree.c for a node with two children: the memory in which its successor
-- has taken its place.
use c_liber.Prelude.{
  ℕ, ◌+◌, ◌≤◌, ◌<◌, ◌≡◌, ◌≢◌, refl, ap, sym, ◌∙◌, List, [], ◌∷◌, ◌++◌, arith, if◌then◌else◌, ◌==◌,
}
use mathlib.Core.Path.{subst}
use c_liber.RbTree.{
  RbTree, RbNode, Color, left, right, child_of, rb_set_parent, set_child, with_parent, with_child,
  at_update, off_update, root-update,
}
use c_liber.RbTree.Shape.{
  Tree, leaf, fork, join, IsTree, IsPath, IsAt, Frame, plug, in_tree, in_path, in_tree-join,
  at_root, frame-IsTree, frame-IsPath, move-IsTree,
}
use c_liber.RbTree.Remove.Lift.{below}
use c_liber.RbTree.Remove.Crown.{Ready}

-- The addresses of a tree and its path stay the same up a path.
pub in_path-append :
    (a : ℕ) (t : Tree) (ks k : List Frame)
    → in_tree a (plug ks t) + in_path a k ≡ in_tree a t + in_path a (ks ++ k)
in_path-append a t [] k = refl
in_path-append a t (f ∷ ks) k =
    let more = in_path-append a (join f.side f.color t f.addr f.sibling) ks k in
    let j = in_tree-join a f.side f.color t f.addr f.sibling in ground arith

pub path_parent :
    (h h' : ℕ → RbNode) (r r' q q' p p' : ℕ) (k : List Frame)
    → IsPath h r q p k
    → IsPath h' r' q' p' k
    → q' ≡ q
path_parent h h' r r' q q' p p' [] (e, i) (e', i') = e' ∙ sym e
path_parent h h' r r' q q' p p' (f ∷ k) (e, m, co, ch, it, above) (e', m', co', ch', it', above') =
    e' ∙ sym e

-- The successor is the right child.
pub beside-Ready :
    (tree : RbTree) (q n q1 y : ℕ) (c cy : Color) (l v r : Tree) (k : List Frame)
    → IsAt tree q n (fork c l n r) k
    → child_of tree left n ≢ 0
    → IsAt tree q1 y (fork cy leaf y v) (below right c n l ∷ k)
    → Ready tree q n y c l v k
beside-Ready tree q n q1 y c cy l v r k i null g =
    let (e, m, par, co, il, ir) = i.here in
    let (e', m', par', co', il', ir') = g.here in
    record {
      above = i.above;
      up = par;
      color = co;
      lower = il;
      upper = ir';
      n_null = m;
      y_null = m';
      l_null = null;
      once = λ a. (let o = g.once a in ground arith);
    }

-- The stores between the two transplantations.
abbrev pub handed : (n y : ℕ) → RbTree → RbTree
handed n y t1 =
    let t : RbTree = set_child right y (child_of t1 right n) t1 in
    rb_set_parent (child_of t right n) y t

fresh_once :
    (a n y f g h : ℕ)
    → f + (if a == n then 1 else 0) + g + h ≤ 1
    → (a ≡ y → f + (if a == n then 1 else 0) + g + h ≡ 0)
    → f + g + (if a == n then 1 else 0) + (if a == y then 1 else 0) + h ≤ 1
fresh_once a n y f g h o e = ground arith

-- The successor is deeper, and was taken out before.
pub handed-Ready :
    (tree : RbTree) (q n y : ℕ) (c : Color) (l r : Tree) (k : List Frame)
    → IsAt tree q n (fork c l n r) k
    → child_of tree left n ≢ 0
    → child_of tree right n ≢ 0
    → y ≢ 0
    → in_tree y (fork c l n r) + in_path y k ≡ 0
    → Ready (handed n y tree) q n y c l r k
handed-Ready tree q n y c l r k i null upper_null m fresh =
    let (e, nn, par, co, il, ir) = i.here in
    let pr : ℕ = child_of tree right n in
    let t : RbTree = set_child right y pr tree in
    let n_y : n ≢ y = λ z. ground arith in
    let same_n : t.node n ≡ tree.node n = off_update y n (with_child right pr) tree n_y in
    let t' : RbTree = rb_set_parent pr y t in
    let root_r = at_root tree.node n pr r ir upper_null in
    let pr_y : pr ≢ y = λ d. (let b = subst (λ b. 0 < in_tree b r) d root_r in omega arith) in
    let pr_n : pr ≢ n = λ d. (let o = i.once pr in ground arith) in
    let once : (a : ℕ)
        → in_tree a l
            + in_tree a r
            + (if a == n then 1 else 0)
            + (if a == y then 1 else 0)
            + in_path a k
          ≤ 1 =
      λ a.
        (let o = i.once a in
          fresh_once a n y (in_tree a l) (in_tree a r) (in_path a k) o
            (λ d. subst (λ b. in_tree b (fork c l n r) + in_path b k ≡ 0) (sym d) fresh)) in
    let off : (a : ℕ) → a ≢ y → a ≢ pr → t'.node a ≡ tree.node a = λ a ay ar.
      off_update pr a (with_parent y) t ar ∙ off_update y a (with_child right pr) tree ay in
    let not_pr : (a : ℕ) → 0 < in_tree a l + in_path a k → a ≢ pr = λ a z d.
      (let b = subst (λ b. 0 < in_tree b r) (sym d) root_r in let o = once a in omega arith) in
    let not_y : (a : ℕ) → 0 < in_tree a l + in_tree a r + in_path a k → a ≢ y =
      λ a z d. (let o = once a in ground arith) in
    let at_n : t'.node n ≡ tree.node n = off n n_y (λ z. pr_n (sym z)) in
    let at_y : t'.node y ≡ with_child right pr (tree.node y) =
      off_update pr y (with_parent y) t (λ z. pr_y (sym z))
      ∙ at_update y (with_child right pr) tree in
    subst (λ b. Ready (rb_set_parent b.rb_right y t) q n y c l r k) (sym same_n)
      (record {
        above =
            subst (λ p. IsPath t'.node p q n k)
              (sym (root-update pr (with_parent y) t ∙ root-update y (with_child right pr) tree))
              (frame-IsPath tree.node t'.node tree.rb_root q n k
                (λ a z. off a (not_y a (omega arith)) (not_pr a (omega arith))) i.above);
        up = ap (λ b. b.parent) at_n ∙ par;
        color = ap (λ b. b.color) at_n ∙ co;
        lower =
            subst (λ p. IsTree t'.node n p l) (ap (λ b. b.rb_left) (sym at_n))
              (frame-IsTree tree.node t'.node n (child_of tree left n) l
                (λ a z. off a (not_y a (omega arith)) (not_pr a (omega arith))) il);
        upper =
            subst (λ p. IsTree t'.node y p r) (ap (λ b. b.rb_right) (sym at_y))
              (move-IsTree tree.node t'.node n y pr r (λ a z d. off a (not_y a (omega arith)) d)
                (λ z.
                  at_update pr (with_parent y) t
                  ∙ ap (with_parent y) (off_update y pr (with_child right pr) tree pr_y))
                (let o = once pr in omega arith) ir);
        n_null = nn;
        y_null = m;
        l_null = λ z. null (ap (λ b. b.rb_left) (sym at_n) ∙ z);
        once = once;
      })
