-- ===== src/RbTree/Remove/Locate.antt =====
-- Where a node stands in the tree of src/common/ds/rbtree.c, and the list of the nodes without it.
use c_liber.Prelude.{
  ℕ, ◌+◌, ◌≤◌, ◌<◌, ◌≡◌, ◌≢◌, refl, ap, sym, ◌∙◌, true, false, List, [], ◌∷◌, ◌++◌, length, count,
  count-append, arith, ◌⊎◌, inl, inr, if◌then◌else◌, ◌==◌, ltb, Bool-cases,
}
use mathlib.Core.Path.{subst}
use c_liber.RbTree.{RbTree, Color, Side, left, right, child_of}
use c_liber.RbTree.Shape.{Tree, leaf, fork, join, IsAt, Frame, plug, inorder, in_tree, in_path}
use c_liber.RbTree.Moves.{down, root_color}
use c_liber.RbTree.Balance.{weight, black_height, IsRb, IsRbPath, IsBlackAbove, height}
use c_liber.RbTree.Insertion.{above_child}
use c_liber.RbTree.Refine.{in_tree-count}
use c_liber.RbTree.Remove.Lift.{below}

-- The list without the first occurrence.
abbrev pub remove : ℕ → List ℕ → List ℕ
remove n [] = []
remove n (a ∷ xs) = if n == a then xs else a ∷ remove n xs

remove_left : (n : ℕ) (xs ys : List ℕ) → 0 < count n xs → remove n (xs ++ ys) ≡ remove n xs ++ ys
remove_left n [] ys h = absurd (omega arith)
remove_left n (a ∷ xs) ys h = elim (Bool-cases (n == a)) [
  | inl e ↦
      ap (λ b. if b then xs ++ ys else a ∷ remove n (xs ++ ys)) e
      ∙ ap (λ b. (if b then xs else a ∷ remove n xs) ++ ys) (sym e)
  | inr e ↦
      ap (λ b. if b then xs ++ ys else a ∷ remove n (xs ++ ys)) e
      ∙ ap (◌∷◌ a) (remove_left n xs ys (ground arith))
      ∙ ap (λ b. (if b then xs else a ∷ remove n xs) ++ ys) (sym e)
]

remove_right : (n : ℕ) (xs ys : List ℕ) → count n xs ≡ 0 → remove n (xs ++ ys) ≡ xs ++ remove n ys
remove_right n [] ys h = refl
remove_right n (a ∷ xs) ys h =
    let differ : (n == a) ≡ false = ground arith in
    ap (λ b. if b then xs ++ ys else a ∷ remove n (xs ++ ys)) differ
    ∙ ap (◌∷◌ a) (remove_right n xs ys (ground arith))

remove_here : (n : ℕ) (ys : List ℕ) → remove n (n ∷ ys) ≡ ys
remove_here n ys =
    (let same : (n == n) ≡ true = ground arith in ap (λ b. if b then ys else n ∷ remove n ys) same)

remove_past : (n a : ℕ) (ys : List ℕ) → n ≢ a → remove n (a ∷ ys) ≡ a ∷ remove n ys
remove_past n a ys d =
    (let differ : (n == a) ≡ false = ground arith in
      ap (λ b. if b then ys else a ∷ remove n ys) differ)

-- The node leaves the root of a subtree.
pub remove-root :
    (n : ℕ) (c : Color) (l r : Tree)
    → in_tree n l ≡ 0
    → remove n (inorder (fork c l n r)) ≡ inorder l ++ inorder r
remove-root n c l r o =
    remove_right n (inorder l) (n ∷ inorder r) (sym (in_tree-count n l) ∙ o)
    ∙ ap (λ xs. inorder l ++ xs) (remove_here n (inorder r))

remove-join :
    (n : ℕ) (s : Side) (c : Color) (t t' : Tree) (a : ℕ) (u : Tree)
    → remove n (inorder t) ≡ inorder t'
    → 0 < count n (inorder t)
    → n ≢ a
    → in_tree n u ≡ 0
    → remove n (inorder (join s c t a u)) ≡ inorder (join s c t' a u)
remove-join n left c t t' a u e h d o =
    remove_left n (inorder t) (a ∷ inorder u) h ∙ ap (λ xs. xs ++ a ∷ inorder u) e
remove-join n right c t t' a u e h d o =
    remove_right n (inorder u) (a ∷ inorder t) (sym (in_tree-count n u) ∙ o)
    ∙ ap (λ xs. inorder u ++ xs) (remove_past n a (inorder t) d ∙ ap (◌∷◌ a) e)

count-join :
    (n : ℕ) (s : Side) (c : Color) (t : Tree) (a : ℕ) (u : Tree)
    → 0 < count n (inorder t)
    → 0 < count n (inorder (join s c t a u))
count-join n left c t a u h = omega (arith, count-append n (inorder t) (a ∷ inorder u))
count-join n right c t a u h =
    (let both = count-append n (inorder u) (a ∷ inorder t) in ground arith)

-- The node leaves the whole tree.
pub remove-plug :
    (n : ℕ) (t t' : Tree) (k : List Frame)
    → remove n (inorder t) ≡ inorder t'
    → 0 < count n (inorder t)
    → in_path n k ≡ 0
    → remove n (inorder (plug k t)) ≡ inorder (plug k t')
remove-plug n t t' [] e h o = e
remove-plug n t t' (f ∷ k) e h o =
    remove-plug n (join f.side f.color t f.addr f.sibling) (join f.side f.color t' f.addr f.sibling)
      k (remove-join n f.side f.color t t' f.addr f.sibling e h (λ z. ground arith) (omega arith))
      (count-join n f.side f.color t f.addr f.sibling h) (omega arith)

-- The node with its subtrees and the path above it.
pub record Located (n : ℕ) (tree : RbTree) (whole : Tree) (deep : ℕ) : Type 0 where
  pub q : ℕ
  pub c : Color
  pub l : Tree
  pub r : Tree
  pub k : List Frame
  pub place : IsAt tree q n (fork c l n r) k
  pub balanced : IsRb (fork c l n r)
  pub above : IsBlackAbove c k
  pub path : IsRbPath (weight c + black_height l) k
  pub same : plug k (fork c l n r) ≡ whole
  pub depth : length k + height (fork c l n r) ≤ deep

found_in : (f g n a : ℕ) → 0 < f + (if n == a then 1 else 0) + g → (n ≡ a) ⊎ (0 < f) ⊎ (0 < g)
found_in f g n a h = elim (Bool-cases (n == a)) [
  | inl e ↦ inl (ground arith)
  | inr e ↦ elim (Bool-cases (ltb 0 f)) [
    | inl d ↦ inr (inl (ground arith))
    | inr d ↦ inr (inr (ground arith))
  ]
]

deeper :
    (n : ℕ) (tree : RbTree) (whole : Tree) (d d' : ℕ)
    → d ≤ d'
    → Located n tree whole d
    → Located n tree whole d'
deeper n tree whole d d' h z = record {
  q = z.q;
  c = z.c;
  l = z.l;
  r = z.r;
  k = z.k;
  place = z.place;
  balanced = z.balanced;
  above = z.above;
  path = z.path;
  same = z.same;
  depth = (let o = z.depth in omega arith);
}

pub locate :
    (n : ℕ) (tree : RbTree) (q p : ℕ) (t : Tree) (k : List Frame)
    → IsAt tree q p t k
    → IsRb t
    → IsBlackAbove (root_color t) k
    → IsRbPath (black_height t) k
    → 0 < in_tree n t
    → Located n tree (plug k t) (length k + height t)
locate n tree q p leaf k i it ab path h = absurd (omega arith)
locate n tree q p (fork c l a r) k i it ab path h =
    let (e, m, par, co, il, ir) = i.here in
    let (eh, bl, br, rl, rr) = it in
    elim (found_in (in_tree n l) (in_tree n r) n a h) [
      | inl z ↦
          subst (λ b. Located n tree (plug k (fork c l b r)) (length k + height (fork c l b r))) z
            (record {
              q = q;
              c = c;
              l = l;
              r = r;
              k = k;
              place =
                  subst (λ b. IsAt tree q b (fork c l n r) k) (e ∙ sym z)
                    (subst (λ b. IsAt tree q p (fork c l b r) k) (sym z) i);
              balanced = it;
              above = ab;
              path = path;
              same = refl;
              depth = omega arith;
            })
      | inr (inl z) ↦
          deeper n tree (plug k (fork c l a r)) (length (below left c a r ∷ k) + height l)
            (length k + height (fork c l a r)) (ground arith)
            (locate n tree p (child_of tree left p) l (below left c a r ∷ k)
              (down tree q p left c l a r k i) rl (above_child c left a l r k bl)
              (sym eh, rr, br, ab, path) z)
      | inr (inr z) ↦
          deeper n tree (plug k (fork c l a r)) (length (below right c a l ∷ k) + height r)
            (length k + height (fork c l a r)) (ground arith)
            (locate n tree p (child_of tree right p) r (below right c a l ∷ k)
              (down tree q p right c r a l k i) rr (above_child c right a r l k br)
              (eh, rl, bl, ab, subst (λ b. IsRbPath (weight c + b) k) eh path) z)
    ]
