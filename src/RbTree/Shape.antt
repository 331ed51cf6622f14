-- ===== src/RbTree/Shape.antt =====
-- What the memory of src/common/ds/rbtree.c represents: a tree, and a place in a tree, which is the
-- subtree there with the path of its parents up to the root.
use c_liber.Prelude.{
  ℕ, ◌+◌, ◌≤◌, ◌<◌, ◌≡◌, ◌≢◌, refl, ap, sym, ◌∙◌, List, [], ◌∷◌, ◌++◌, arith, if◌then◌else◌, ◌==◌,
}
use c_liber.RbTree.{RbTree, RbNode, Color, Side, left, right, other, child}
use mathlib.Core.Path.{subst}

pub data Tree : Type 0 where
  leaf : Tree
  fork : Color → (l : Tree) → ℕ → (r : Tree) → Tree

-- The node with the subtree `t` on side `s` and the subtree `u` on the other.
abbrev pub join : Side → Color → (t : Tree) → ℕ → (u : Tree) → Tree
join left c t a u = fork c t a u
join right c t a u = fork c u a t

abbrev pub inorder : Tree → List ℕ
inorder leaf = []
inorder (fork c l a r) = inorder l ++ a ∷ inorder r

-- The memory at `p` is the tree, under the parent `q`.
abbrev pub IsTree : (ℕ → RbNode) → (q p : ℕ) → Tree → Type 0
IsTree h q p leaf = p ≡ 0
IsTree h q p (fork c l a r) =
    (p ≡ a)
    × (a ≢ 0)
    × ((h a).parent ≡ q)
    × ((h a).color ≡ c)
    × IsTree h a (h a).rb_left l
    × IsTree h a (h a).rb_right r

-- A step of the path upwards: the subtree hangs on side `side` of the node `addr`.
pub record Frame : Type 0 where
  pub side : Side
  pub color : Color
  pub addr : ℕ
  pub sibling : Tree

abbrev pub plug : List Frame → Tree → Tree
plug [] t = t
plug (f ∷ k) t = plug k (join f.side f.color t f.addr f.sibling)

-- The path above the subtree at `p`, whose parent is `q`.
abbrev pub IsPath : (ℕ → RbNode) → (root q p : ℕ) → List Frame → Type 0
IsPath h root q p [] = (q ≡ 0) × (root ≡ p)
IsPath h root q p (f ∷ k) =
    (q ≡ f.addr)
    × (f.addr ≢ 0)
    × ((h f.addr).color ≡ f.color)
    × (child f.side (h f.addr) ≡ p)
    × IsTree h f.addr (child (other f.side) (h f.addr)) f.sibling
    × IsPath h root (h f.addr).parent f.addr k

-- How often an address occurs.
abbrev pub in_tree : ℕ → Tree → ℕ
in_tree a leaf = 0
in_tree a (fork c l b r) = in_tree a l + (if a == b then 1 else 0) + in_tree a r

abbrev pub in_path : ℕ → List Frame → ℕ
in_path a [] = 0
in_path a (f ∷ k) = (if a == f.addr then 1 else 0) + in_tree a f.sibling + in_path a k

-- The tree stands at `p` in the memory, with the path above it; no address occurs twice.
pub record IsAt (tree : RbTree) (q p : ℕ) (t : Tree) (k : List Frame) : Type 0 where
  pub here : IsTree tree.node q p t
  pub above : IsPath tree.node tree.rb_root q p k
  pub once : (a : ℕ) → in_tree a t + in_path a k ≤ 1

-- A tree survives any change that spares its own nodes.
pub frame-IsTree :
    (h h' : ℕ → RbNode) (q p : ℕ) (t : Tree)
    → ((a : ℕ) → 0 < in_tree a t → h' a ≡ h a)
    → IsTree h q p t
    → IsTree h' q p t
frame-IsTree h h' q p leaf same i = i
frame-IsTree h h' q p (fork c l a r) same (e, n, up, co, il, ir) =
    let at : h' a ≡ h a = same a (ground arith) in
    (
      e,
      n,
      ap (λ b. b.parent) at ∙ up,
      ap (λ b. b.color) at ∙ co,
      subst (λ b. IsTree h' a b.rb_left l) (sym at)
          (frame-IsTree h h' a (h a).rb_left l (λ b i. same b (ground arith)) il),
      subst (λ b. IsTree h' a b.rb_right r) (sym at)
          (frame-IsTree h h' a (h a).rb_right r (λ b i. same b (ground arith)) ir),
    )

pub frame-IsPath :
    (h h' : ℕ → RbNode) (root q p : ℕ) (k : List Frame)
    → ((a : ℕ) → 0 < in_path a k → h' a ≡ h a)
    → IsPath h root q p k
    → IsPath h' root q p k
frame-IsPath h h' root q p [] same i = i
frame-IsPath h h' root q p (f ∷ k) same (e, n, co, ch, it, ik) =
    let at : h' f.addr ≡ h f.addr = same f.addr (ground arith) in
    (
      e,
      n,
      ap (λ b. b.color) at ∙ co,
      ap (child f.side) at ∙ ch,
      subst (λ b. IsTree h' f.addr (child (other f.side) b) f.sibling) (sym at)
          (frame-IsTree h h' f.addr (child (other f.side) (h f.addr)) f.sibling
            (λ b i. same b (ground arith)) it),
      subst (λ b. IsPath h' root b.parent f.addr k) (sym at)
          (frame-IsPath h h' root (h f.addr).parent f.addr k (λ b i. same b (ground arith)) ik),
    )

-- A tree by the sides of its root.
abbrev pub IsNode : (ℕ → RbNode) → (q p : ℕ) → Side → Color → (t : Tree) → ℕ → (u : Tree) → Type 0
IsNode h q p s c t a u =
    (p ≡ a)
    × (a ≢ 0)
    × ((h a).parent ≡ q)
    × ((h a).color ≡ c)
    × IsTree h a (child s (h a)) t
    × IsTree h a (child (other s) (h a)) u

pub join-IsNode :
    (h : ℕ → RbNode) (q p : ℕ) (s : Side) (c : Color) (t : Tree) (a : ℕ) (u : Tree)
    → IsTree h q p (join s c t a u)
    → IsNode h q p s c t a u
join-IsNode h q p left c t a u i = i
join-IsNode h q p right c t a u (e, n, up, co, il, ir) = (e, n, up, co, ir, il)

pub IsNode-join :
    (h : ℕ → RbNode) (q p : ℕ) (s : Side) (c : Color) (t : Tree) (a : ℕ) (u : Tree)
    → IsNode h q p s c t a u
    → IsTree h q p (join s c t a u)
IsNode-join h q p left c t a u i = i
IsNode-join h q p right c t a u (e, n, up, co, il, ir) = (e, n, up, co, ir, il)

pub in_tree-join :
    (b : ℕ) (s : Side) (c : Color) (t : Tree) (a : ℕ) (u : Tree)
    → in_tree b (join s c t a u) ≡ in_tree b t + (if b == a then 1 else 0) + in_tree b u
in_tree-join b left c t a u = refl
in_tree-join b right c t a u = omega arith

-- The address at which a tree stands is NULL or one of its nodes.
pub at_root : (h : ℕ → RbNode) (q p : ℕ) (t : Tree) → IsTree h q p t → p ≢ 0 → 0 < in_tree p t
at_root h q p leaf i n = absurd (n i)
at_root h q p (fork c l a r) (e, m, up, co, il, ir) n = ground arith

-- A change of the parent of its root moves a tree.
pub move-IsTree :
    (h h' : ℕ → RbNode) (q q' p : ℕ) (t : Tree)
    → ((a : ℕ) → 0 < in_tree a t → a ≢ p → h' a ≡ h a)
    → (p ≢ 0 → h' p ≡ record (h p) { parent = q' })
    → in_tree p t ≤ 1
    → IsTree h q p t
    → IsTree h' q' p t
move-IsTree h h' q q' p leaf same moved once i = i
move-IsTree h h' q q' p (fork c l a r) same moved once (e, n, up, co, il, ir) =
    let at : h' a ≡ record (h a) { parent = q' } =
      subst (λ b. b ≢ 0 → h' b ≡ record (h b) { parent = q' }) e moved n in
    (
      e,
      n,
      ap (λ b. b.parent) at,
      ap (λ b. b.color) at ∙ co,
      subst (λ b. IsTree h' a b l) (sym (ap (λ b. b.rb_left) at))
          (frame-IsTree h h' a (h a).rb_left l (λ b i. same b (ground arith) (ground arith)) il),
      subst (λ b. IsTree h' a b r) (sym (ap (λ b. b.rb_right) at))
          (frame-IsTree h h' a (h a).rb_right r (λ b i. same b (ground arith) (ground arith)) ir),
    )
