-- ===== src/RbTree/Turn.antt =====
-- What the rotations of src/common/ds/rbtree.c do to the tree that the memory represents.
use c_liber.Prelude.{
  ℕ, ◌+◌, ◌≤◌, ◌<◌, ◌≡◌, ◌≢◌, refl, ap, sym, ◌∙◌, List, [], ◌∷◌, arith, if◌then◌else◌, ◌==◌,
}
use mathlib.Core.Path.{subst}
use c_liber.RbTree.{RbTree, RbNode, Color, Side, left, right, other, child, with_child, rotate}
use c_liber.RbTree.Shape.{
  Tree, join, IsTree, IsPath, IsAt, Frame, in_tree, in_path, at_root, join-IsNode, IsNode-join,
  frame-IsTree, frame-IsPath, move-IsTree,
}
use c_liber.RbTree.Rotate.{Rotated, Apart, rotate-Rotated}

-- The fields of a node after a store to a child and to the parent.
fields :
    (s : Side) (v q : ℕ) (n m : RbNode)
    → m ≡ record (with_child s v n) { parent = q }
    → (m.parent ≡ q)
      × (m.color ≡ n.color)
      × (child s m ≡ v)
      × (child (other s) m ≡ child (other s) n)
fields left v q n m e =
    (ap (λ b. b.parent) e, ap (λ b. b.color) e, ap (λ b. b.rb_left) e, ap (λ b. b.rb_right) e)
fields right v q n m e =
    (ap (λ b. b.parent) e, ap (λ b. b.color) e, ap (λ b. b.rb_right) e, ap (λ b. b.rb_left) e)

fields_other :
    (s : Side) (v q : ℕ) (n m : RbNode)
    → m ≡ record (with_child (other s) v n) { parent = q }
    → (m.parent ≡ q) × (m.color ≡ n.color) × (child (other s) m ≡ v) × (child s m ≡ child s n)
fields_other left v q n m e = fields right v q n m e
fields_other right v q n m e = fields left v q n m e

-- The fields of a node after a store to a child.
child_fields :
    (s : Side) (v : ℕ) (n m : RbNode)
    → m ≡ with_child s v n
    → (m.parent ≡ n.parent)
      × (m.color ≡ n.color)
      × (child s m ≡ v)
      × (child (other s) m ≡ child (other s) n)
child_fields left v n m e = fields left v n.parent n m e
child_fields right v n m e = fields right v n.parent n m e

-- The parent above a place is NULL or on the path.
pub above_path :
    (h : ℕ → RbNode) (root q p : ℕ) (k : List Frame) → IsPath h root q p k → q ≢ 0 → 0 < in_path q k
above_path h root q p [] (e, r) n = absurd (n e)
above_path h root q p (f ∷ k) (e, m, c, ch, i, u) n = ground arith

absurd_of_once : {n : ℕ} → n ≡ 0 → 0 < n → ⊥
absurd_of_once e l = omega arith

-- The side on which the code finds a node is that of the path.
pub side_found :
    (h : ℕ → RbNode) (q p : ℕ) (s : Side) (u : Tree)
    → p ≢ 0
    → child s (h q) ≡ p
    → IsTree h q (child (other s) (h q)) u
    → in_tree p u ≡ 0
    → (if (h q).rb_left == p then left else right) ≡ s
side_found h q p left u n e i o = ground arith
side_found h q p right u n e i o =
    let spare : (h q).rb_left ≢ p = λ b.
      absurd_of_once o
        (subst (λ v. 0 < in_tree v u) b (at_root h q (h q).rb_left u i (λ z. n (sym b ∙ z)))) in
    ground arith

join-once :
    (s : Side) (c d : Color) (x y u : ℕ) (a b e : Tree) (k : List Frame)
    → in_tree u (join s c a x (join s d b y e)) + in_path u k ≤ 1
    → in_tree u a
        + (if u == x then 1 else 0)
        + (in_tree u b + (if u == y then 1 else 0) + in_tree u e)
        + in_path u k
      ≤ 1
join-once left c d x y u a b e k o = o
join-once right c d x y u a b e k o = omega arith

once-turned :
    (s : Side) (c d : Color) (x y u : ℕ) (a b e : Tree) (k : List Frame)
    → in_tree u a
        + (if u == x then 1 else 0)
        + (in_tree u b + (if u == y then 1 else 0) + in_tree u e)
        + in_path u k
      ≤ 1
    → in_tree u (join s d (join s c a x b) y e) + in_path u k ≤ 1
once-turned left c d x y u a b e k o = omega arith
once-turned right c d x y u a b e k o = omega arith

-- No address is counted twice in a rotation's subtrees `f`, `g`, `w` and its path `z`.
counts-Apart :
    (x y v q : ℕ) (f g w z : ℕ → ℕ)
    → ((u : ℕ)
        → f u + (if u == x then 1 else 0) + (g u + (if u == y then 1 else 0) + w u) + z u ≤ 1)
    → x ≢ 0
    → y ≢ 0
    → (v ≢ 0 → 0 < g v)
    → (q ≢ 0 → 0 < z q)
    → Apart x y v q
counts-Apart x y v q f g w z counted nx ny root_b root_q = record {
  x_null = nx;
  y_null = ny;
  x_y = λ e. (let o = counted x in ground arith);
  b_x = λ e. (let o = counted v in ground arith);
  b_y = λ e. (let o = counted v in ground arith);
  q_x = λ e. (let o = counted q in ground arith);
  q_y = λ e. (let o = counted q in ground arith);
  b_q = λ n e.
      (let o = counted v in let m = subst (λ u. u ≢ 0 → 0 < z u) (sym e) root_q n in omega arith);
}

-- The addresses around a rotation are different, since none occurs twice.
around-Apart :
    (tree : RbTree) (s : Side) (c d : Color) (x y q : ℕ) (a b e : Tree) (k : List Frame)
    → IsAt tree q x (join s c a x (join s d b y e)) k
    → Apart x y (child s (tree.node y)) q
around-Apart tree s c d x y q a b e k i =
    let (ex, nx, up, co, ia, below) = join-IsNode tree.node q x s c a x (join s d b y e) i.here in
    let (ey, ny, up', co', ib, ie) =
      join-IsNode tree.node x (child (other s) (tree.node x)) s d b y e below in
    counts-Apart x y (child s (tree.node y)) q (λ u. in_tree u a) (λ u. in_tree u b)
      (λ u. in_tree u e) (λ u. in_path u k) (λ u. join-once s c d x y u a b e k (i.once u)) nx ny
      (at_root tree.node y (child s (tree.node y)) b ib)
      (above_path tree.node tree.rb_root q x k i.above)

-- The store that gives the place under the path to the node `p`.
abbrev pub IsStored : (h h' : ℕ → RbNode) → (root' p : ℕ) → List Frame → Type 0
IsStored h h' root' p [] = root' ≡ p
IsStored h h' root' p (f ∷ k) = h' f.addr ≡ with_child f.side p (h f.addr)

pub move-IsPath :
    (h h' : ℕ → RbNode) (root root' q p p' : ℕ) (k : List Frame)
    → IsStored h h' root' p' k
    → ((u : ℕ) → 0 < in_path u k → u ≢ q → h' u ≡ h u)
    → (q ≢ 0 → root' ≡ root)
    → ((u : ℕ) → in_path u k ≤ 1)
    → IsPath h root q p k
    → IsPath h' root' q p' k
move-IsPath h h' root root' q p p' [] store same r once (e, i) = (e, store)
move-IsPath h h' root root' q p p' (f ∷ k) store same r once (e, m, co, ch, it, u) =
    let (up', co', ch', sib') = child_fields f.side p' (h f.addr) (h' f.addr) store in
    let root_same : root ≡ root' = sym (r (λ z. m (sym e ∙ z))) in
    (
      e,
      m,
      co' ∙ co,
      ch',
      subst (λ v. IsTree h' f.addr v f.sibling) (sym sib')
          (frame-IsTree h h' f.addr (child (other f.side) (h f.addr)) f.sibling
            (λ v i. same v (ground arith) (let o = once v in ground arith)) it),
      subst (λ v. IsPath h' v (h' f.addr).parent f.addr k) root_same
          (subst (λ v. IsPath h' root v f.addr k) (sym up')
            (frame-IsPath h h' root (h f.addr).parent f.addr k
              (λ v i. same v (ground arith) (let o = once v in ground arith)) u)),
    )

-- A rotation gives the place under the path to `y`.
Rotated-IsStored :
    (s : Side) (x y b q : ℕ) (tree tree' : RbTree) (k : List Frame)
    → Rotated s x y b q tree tree'
    → x ≢ 0
    → in_path x k ≡ 0
    → IsPath tree.node tree.rb_root q x k
    → IsStored tree.node tree'.node tree'.rb_root y k
Rotated-IsStored s x y b q tree tree' [] r n o (e, i) = r.root ∙ ground arith
Rotated-IsStored s x y b q tree tree' (f ∷ k) r n o (e, m, co, ch, it, u) =
    subst (λ v. tree'.node v ≡ with_child f.side y (tree.node v)) e
      (r.at_up (λ z. m (sym e ∙ z))
        ∙ ap (λ sd. with_child sd y (tree.node q))
            (side_found tree.node q x f.side f.sibling n
              (subst (λ v. child f.side (tree.node v) ≡ x) (sym e) ch)
              (subst (λ v. IsTree tree.node v (child (other f.side) (tree.node v)) f.sibling)
                (sym e) it)
              (omega arith)))

-- A rotation spares every node of the subtrees and the path, but for the root of the subtree between
-- and for the parent.
spared :
    (s : Side) (x y v q u : ℕ) (f g w z : ℕ → ℕ) (tree tree' : RbTree)
    → Rotated s x y v q tree tree'
    → f u + (if u == x then 1 else 0) + (g u + (if u == y then 1 else 0) + w u) + z u ≤ 1
    → (v ≢ 0 → 0 < g v)
    → (q ≢ 0 → 0 < z q)
    → 0 < f u + g u + w u + z u
    → (0 < g u → u ≢ v)
    → (0 < z u → u ≢ q)
    → tree'.node u ≡ tree.node u
spared s x y v q u f g w z tree tree' r counted root_b root_q some not_v not_q =
    r.elsewhere u (λ e. ground arith) (λ e. ground arith)
      (λ n e. not_v (subst (λ i. 0 < g i) (sym e) (root_b n)) e)
      (λ n e. not_q (subst (λ i. 0 < z i) (sym e) (root_q n)) e)

-- A rotation at `x` turns the tree there, and leaves the path above it.
rotate_here-IsAt :
    (tree : RbTree) (s : Side) (c d : Color) (x y q : ℕ) (a b e : Tree) (k : List Frame)
    → IsAt tree q x (join s c a x (join s d b y e)) k
    → IsAt (rotate s x tree) q y (join s d (join s c a x b) y e) k
rotate_here-IsAt tree s c d x y q a b e k i =
    let (ex, nx, up, co, ia, below) = join-IsNode tree.node q x s c a x (join s d b y e) i.here in
    let (ey, ny, up', co', ib, ie) =
      join-IsNode tree.node x (child (other s) (tree.node x)) s d b y e below in
    let v : ℕ = child s (tree.node y) in
    let t' : RbTree = rotate s x tree in
    let r : Rotated s x y v q tree t' =
      rotate-Rotated s x y v q tree ey refl up (around-Apart tree s c d x y q a b e k i) in
    let (yq, yc, yx, ye) = fields s x q (tree.node y) (t'.node y) r.at_y in
    let (xy, xc, xv, xa) = fields_other s v y (tree.node x) (t'.node x) r.at_x in
    let once : (u : ℕ)
        → in_tree u a
            + (if u == x then 1 else 0)
            + (in_tree u b + (if u == y then 1 else 0) + in_tree u e)
            + in_path u k
          ≤ 1 =
      λ u. join-once s c d x y u a b e k (i.once u) in
    let root_b = at_root tree.node y v b ib in
    let root_q = above_path tree.node tree.rb_root q x k i.above in
    let same : (u : ℕ)
        → 0 < in_tree u a + in_tree u b + in_tree u e + in_path u k
        → (0 < in_tree u b → u ≢ v)
        → (0 < in_path u k → u ≢ q)
        → t'.node u ≡ tree.node u =
      λ u.
        spared s x y v q u (λ u. in_tree u a) (λ u. in_tree u b) (λ u. in_tree u e)
          (λ u. in_path u k) tree t' r (once u) root_b root_q in
    record {
      here = IsNode-join t'.node q y s d (join s c a x b) y e (
        refl,
        ny,
        yq,
        yc ∙ co',
        subst (λ p. IsTree t'.node y p (join s c a x b)) (sym yx)
            (IsNode-join t'.node y x s c a x b (
              refl,
              nx,
              xy,
              xc ∙ co,
              subst (λ p. IsTree t'.node x p a) (sym xa)
                  (frame-IsTree tree.node t'.node x (child s (tree.node x)) a
                    (λ u l.
                      same u (omega arith) (λ m z. (let o = once u in omega arith))
                        (λ m z. (let o = once u in omega arith)))
                    ia),
              subst (λ p. IsTree t'.node x p b) (sym xv)
                  (move-IsTree tree.node t'.node y x v b
                    (λ u l n.
                      same u (omega arith) (λ m. n) (λ m z. (let o = once u in omega arith)))
                    r.at_inner (let o = once v in omega arith) ib),
            )),
        subst (λ p. IsTree t'.node y p e) (sym ye)
            (frame-IsTree tree.node t'.node y (child (other s) (tree.node y)) e
              (λ u l.
                same u (omega arith) (λ m z. (let o = once u in omega arith))
                  (λ m z. (let o = once u in omega arith)))
              ie),
      );
      above =
          move-IsPath tree.node t'.node tree.rb_root t'.rb_root q x y k
            (Rotated-IsStored s x y v q tree t' k r nx (let o = once x in ground arith) i.above)
            (λ u l n. same u (omega arith) (λ m z. (let o = once u in omega arith)) (λ m. n))
            (λ n. r.root ∙ ground arith) (λ u. (let o = once u in omega arith)) i.above;
      once = λ u. once-turned s c d x y u a b e k (once u);
    }

-- Let `p` be a node with the path `k` above it, whose subtree on the other side than `s` is a node `y`.
-- A rotation of `p` to the side `s` puts `y` at its place under the same path, with `p` below it on side
-- `s`, and gives the subtree between them to `p`; it changes nothing else of the tree.
pub rotate-IsAt :
    (tree : RbTree) (s : Side) (c d : Color) (x y q p : ℕ) (a b e m : Tree) (k : List Frame)
    → IsAt tree q p (join s c a x m) k
    → m ≡ join s d b y e
    → IsAt (rotate s p tree) q y (join s d (join s c a x b) y e) k
rotate-IsAt tree s c d x y q p a b e m k i em =
    let j : IsAt tree q p (join s c a x (join s d b y e)) k =
      subst (λ v. IsAt tree q p (join s c a x v) k) em i in
    let (ep, nx, par, co, ia, ie) = join-IsNode tree.node q p s c a x (join s d b y e) j.here in
    subst (λ v. IsAt (rotate s v tree) q y (join s d (join s c a x b) y e) k) (sym ep)
      (rotate_here-IsAt tree s c d x y q a b e k
        (subst (λ v. IsAt tree q v (join s c a x (join s d b y e)) k) ep j))
