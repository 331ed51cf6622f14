-- ===== src/RbTree/Moves.antt =====
-- Steps through the tree that the memory of src/common/ds/rbtree.c represents, up and down its path,
-- and what the code reads at each place.
use c_liber.Prelude.{
  ℕ, ◌+◌, ◌≤◌, ◌<◌, ◌≡◌, ◌≢◌, refl, ap, sym, ◌∙◌, Bool, true, false, List, [], ◌∷◌, arith,
  if◌then◌else◌, ◌==◌,
}
use mathlib.Core.Path.{subst}
use mathlib.Core.Bool.{not, ◌&&◌}
use c_liber.RbTree.{
  RbTree, RbNode, Color, Side, left, right, other, red, black, child, child_of, rb_parent,
  rb_is_root, rb_is_child, rb_is_red, rb_color, same_color, rb_set_color, with_color, at_update,
  off_update, root-update,
}
use c_liber.RbTree.Shape.{
  Tree, leaf, fork, join, IsTree, IsPath, IsAt, Frame, in_tree, in_path, in_tree-join, at_root,
  join-IsNode, IsNode-join, frame-IsTree, frame-IsPath,
}

-- The subtree at `p` is focused; the parent is focused instead.
pub up :
    (tree : RbTree) (q p : ℕ) (t : Tree) (f : Frame) (k : List Frame)
    → IsAt tree q p t (f ∷ k)
    → IsAt tree (rb_parent tree q) q (join f.side f.color t f.addr f.sibling) k
up tree q p t f k i =
    let (e, n, co, ch, it, above) = i.above in
    record {
      here = IsNode-join tree.node (rb_parent tree q) q f.side f.color t f.addr f.sibling (
        e,
        n,
        ap (rb_parent tree) (sym e),
        co,
        subst (λ v. IsTree tree.node f.addr v t) (sym ch)
            (subst (λ v. IsTree tree.node v p t) e i.here),
        it,
      );
      above = subst (λ v. IsPath tree.node tree.rb_root (rb_parent tree v) v k) (sym e) above;
      once = λ u.
          (let o = i.once u in
            let j = in_tree-join u f.side f.color t f.addr f.sibling in ground arith);
    }

-- The child on side `s` is focused instead.
pub down :
    (tree : RbTree) (q p : ℕ) (s : Side) (c : Color) (t : Tree) (a : ℕ) (u : Tree) (k : List Frame)
    → IsAt tree q p (join s c t a u) k
    → IsAt tree p (child_of tree s p) t (record { side = s; color = c; addr = a; sibling = u } ∷ k)
down tree q p s c t a u k i =
    let (e, n, par, co, it, iu) = join-IsNode tree.node q p s c t a u i.here in
    record {
      here = subst (λ v. IsTree tree.node v (child_of tree s v) t) (sym e) it;
      above = (
        e,
        n,
        co,
        ap (child_of tree s) (sym e),
        iu,
        subst (λ v. IsPath tree.node tree.rb_root v a k) (sym par)
            (subst (λ v. IsPath tree.node tree.rb_root q v k) e i.above),
      );
      once = λ v. (let o = i.once v in let j = in_tree-join v s c t a u in ground arith);
    }

pub join-other :
    (s : Side) (c : Color) (t : Tree) (a : ℕ) (u : Tree) → join s c t a u ≡ join (other s) c u a t
join-other left c t a u = refl
join-other right c t a u = refl

-- The two sides of the focused node, exchanged.
pub swap :
    (tree : RbTree) (q p : ℕ) (s : Side) (c : Color) (t : Tree) (a : ℕ) (u : Tree) (k : List Frame)
    → IsAt tree q p (join s c t a u) k
    → IsAt tree q p (join (other s) c u a t) k
swap tree q p s c t a u k i = subst (λ v. IsAt tree q p v k) (join-other s c t a u) i

pub swap_back :
    (tree : RbTree) (q p : ℕ) (s : Side) (c : Color) (t : Tree) (a : ℕ) (u : Tree) (k : List Frame)
    → IsAt tree q p (join (other s) c u a t) k
    → IsAt tree q p (join s c t a u) k
swap_back tree q p s c t a u k i = subst (λ v. IsAt tree q p v k) (sym (join-other s c t a u)) i

child-with_color : (s : Side) (c : Color) (n : RbNode) → child s (with_color c n) ≡ child s n
child-with_color left c n = refl
child-with_color right c n = refl

-- A colour is stored to the focused node.
pub paint :
    (tree : RbTree) (q p : ℕ) (s : Side) (c c' : Color) (t : Tree) (a : ℕ) (u : Tree)
    (k : List Frame)
    → IsAt tree q p (join s c t a u) k
    → IsAt (rb_set_color p c' tree) q p (join s c' t a u) k
paint tree q p s c c' t a u k i =
    let (e, n, par, co, it, iu) = join-IsNode tree.node q p s c t a u i.here in
    let t' : RbTree = rb_set_color p c' tree in
    let at : t'.node a ≡ with_color c' (tree.node a) =
      subst (λ v. t'.node v ≡ with_color c' (tree.node v)) e (at_update p (with_color c') tree) in
    let away : (v : ℕ) → v ≢ a → t'.node v ≡ tree.node v =
      λ v d. off_update p v (with_color c') tree (λ z. d (z ∙ e)) in
    let once : (v : ℕ) → in_tree v t + (if v == a then 1 else 0) + in_tree v u + in_path v k ≤ 1 =
      λ v. (let o = i.once v in let j = in_tree-join v s c t a u in omega arith) in
    record {
      here = IsNode-join t'.node q p s c' t a u (
        e,
        n,
        ap (λ b. b.parent) at ∙ par,
        ap (λ b. b.color) at,
        subst (λ v. IsTree t'.node a v t)
            (sym (ap (child s) at ∙ child-with_color s c' (tree.node a)))
            (frame-IsTree tree.node t'.node a (child s (tree.node a)) t
              (λ v l. away v (let o = once v in λ z. ground arith)) it),
        subst (λ v. IsTree t'.node a v u)
            (sym (ap (child (other s)) at ∙ child-with_color (other s) c' (tree.node a)))
            (frame-IsTree tree.node t'.node a (child (other s) (tree.node a)) u
              (λ v l. away v (let o = once v in λ z. ground arith)) iu),
      );
      above =
          subst (λ r. IsPath t'.node r q p k) (sym (root-update p (with_color c') tree))
            (frame-IsPath tree.node t'.node tree.rb_root q p k
              (λ v l. away v (let o = once v in λ z. ground arith)) i.above);
      once = λ v. (let o = once v in let j = in_tree-join v s c' t a u in ground arith);
    }

abbrev pub root_color : Tree → Color
root_color leaf = black
root_color (fork c l a r) = c

-- The colour above a place; a red node may stand under a black one only, never at the root.
abbrev pub path_color : List Frame → Color
path_color [] = black
path_color (f ∷ k) = f.color

abbrev pub is_red : Color → Bool
is_red red = true
is_red black = false

red_here : (tree : RbTree) (a : ℕ) → a ≢ 0 → rb_color tree a ≡ red → rb_is_red tree a ≡ true
red_here tree a n co = ground (arith, ap (λ c. same_color c red) co)

black_here : (tree : RbTree) (a : ℕ) → rb_color tree a ≡ black → rb_is_red tree a ≡ false
black_here tree a co = ground (arith, ap (λ c. same_color c red) co)

color_here :
    (tree : RbTree) (a : ℕ) (c : Color) → a ≢ 0 → rb_color tree a ≡ c → rb_is_red tree a ≡ is_red c
color_here tree a red n co = red_here tree a n co
color_here tree a black n co = black_here tree a co

pub reads_red :
    (tree : RbTree) (q p : ℕ) (t : Tree)
    → IsTree tree.node q p t
    → rb_is_red tree p ≡ is_red (root_color t)
reads_red tree q p leaf e = ground arith
reads_red tree q p (fork red l a r) (e, n, par, co, il, ir) =
    subst (λ v. rb_is_red tree v ≡ true) (sym e) (red_here tree a n co)
reads_red tree q p (fork black l a r) (e, n, par, co, il, ir) =
    subst (λ v. rb_is_red tree v ≡ false) (sym e) (black_here tree a co)

pub path_red :
    (tree : RbTree) (q p : ℕ) (k : List Frame)
    → IsPath tree.node tree.rb_root q p k
    → rb_is_red tree q ≡ is_red (path_color k)
path_red tree q p [] (e, i) = ground arith
path_red tree q p (f ∷ k) (e, n, co, ch, it, above) =
    subst (λ v. rb_is_red tree v ≡ is_red f.color) (sym e) (color_here tree f.addr f.color n co)

-- What stands at a node of the tree.
pub node_parent :
    (tree : RbTree) (q p : ℕ) (s : Side) (c : Color) (t : Tree) (a : ℕ) (u : Tree)
    → IsTree tree.node q p (join s c t a u)
    → (rb_parent tree p ≡ q) × (p ≢ 0)
node_parent tree q p s c t a u i =
    let (e, n, par, co, it, iu) = join-IsNode tree.node q p s c t a u i in
    (ap (rb_parent tree) e ∙ par, λ z. n (sym e ∙ z))

child_test :
    (tree : RbTree) (s : Side) (p q : ℕ) (b : Bool)
    → rb_parent tree p ≡ q
    → p ≢ 0
    → q ≢ 0
    → (child_of tree s q == p) ≡ b
    → rb_is_child tree s p ≡ b
child_test tree s p q b par n m e =
    subst (λ v. (not (p == 0) && not (not (p == 0) && (v == 0)) && (child_of tree s v == p)) ≡ b)
      (sym par) (ground arith)

pub is_child :
    (tree : RbTree) (q p : ℕ) (t : Tree) (f : Frame) (k : List Frame)
    → IsAt tree q p t (f ∷ k)
    → (rb_parent tree p ≡ q) × (p ≢ 0)
    → (rb_is_child tree f.side p ≡ true) × (rb_is_child tree (other f.side) p ≡ false)
is_child tree q p t f k i (par, n) =
    let (e, m, co, ch, it, above) = i.above in
    let q_null : q ≢ 0 = λ z. m (sym e ∙ z) in
    let here : child f.side (tree.node q) ≡ p = ap (child_of tree f.side) e ∙ ch in
    let there : child (other f.side) (tree.node q) ≢ p = λ z.
      (let o = i.once p in
        let mine = at_root tree.node q p t i.here n in
        let theirs =
          subst (λ v. 0 < in_tree v f.sibling) (sym (ap (child_of tree (other f.side)) e) ∙ z)
            (at_root tree.node f.addr (child_of tree (other f.side) f.addr) f.sibling it
              (λ w. n (sym z ∙ ap (child_of tree (other f.side)) e ∙ w))) in
        ground arith) in
    (
      child_test tree f.side p q true par n q_null (ground arith),
      child_test tree (other f.side) p q false par n q_null (ground arith),
    )

pub is_root :
    (tree : RbTree) (q p : ℕ) (t : Tree) (k : List Frame)
    → IsAt tree q p t k
    → (rb_parent tree p ≡ q) × (p ≢ 0)
    → rb_is_root tree p ≡ (q == 0)
is_root tree q p t k i (par, n) = ground arith
