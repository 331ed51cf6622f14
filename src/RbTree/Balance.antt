-- ===== src/RbTree/Balance.antt =====
-- The colours and the order that src/common/ds/rbtree.c keeps: no red node under a red one, as many
-- black nodes on each way down, and the order of the nodes.
use c_liber.Prelude.{
  ℕ, suc, ◌+◌, ◌≤◌, ◌<◌, ◌≡◌, refl, ap, sym, ◌∙◌, List, [], ◌∷◌, ◌++◌, append_assoc, arith, ltb,
  Bool-cases, if◌then◌else◌, length, length-append, ◌^◌, ◌*◌, ◌⊎◌, inl, inr,
}
use mathlib.Core.Path.{subst}
use native.Mathlib.Nat.{pow-le-pow_right}
use c_liber.RbTree.{Color, Side, left, right, red, black}
use c_liber.RbTree.Shape.{Tree, leaf, fork, join, Frame, plug, inorder}
use c_liber.RbTree.Moves.{root_color, path_color}

abbrev pub weight : Color → ℕ
weight red = 0
weight black = 1

abbrev pub black_height : Tree → ℕ
black_height leaf = 0
black_height (fork c l a r) = weight c + black_height l

abbrev pub height : Tree → ℕ
height leaf = 0
height (fork c l a r) = 1 + (if ltb (height l) (height r) then height r else height l)

-- Under a red node stand black ones.
abbrev pub IsBlackUnder : Color → Tree → Type 0
IsBlackUnder red t = root_color t ≡ black
IsBlackUnder black t = Unit

abbrev pub IsRb : Tree → Type 0
IsRb leaf = Unit
IsRb (fork c l a r) =
    (black_height l ≡ black_height r) × IsBlackUnder c l × IsBlackUnder c r × IsRb l × IsRb r

-- Above a red node stands a black one.
abbrev pub IsBlackAbove : Color → List Frame → Type 0
IsBlackAbove red [] = ⊥
IsBlackAbove red (f ∷ k) = f.color ≡ black
IsBlackAbove black k = Unit

-- The path leaves a place for a tree of black height `n`.
abbrev pub IsRbPath : ℕ → List Frame → Type 0
IsRbPath n [] = Unit
IsRbPath n (f ∷ k) =
    (black_height f.sibling ≡ n)
    × IsRb f.sibling
    × IsBlackUnder f.color f.sibling
    × IsBlackAbove f.color k
    × IsRbPath (weight f.color + n) k

pub join-IsRb :
    (s : Side) (c : Color) (t : Tree) (a : ℕ) (u : Tree)
    → black_height u ≡ black_height t
    → IsBlackUnder c t
    → IsBlackUnder c u
    → IsRb t
    → IsRb u
    → IsRb (join s c t a u) × (black_height (join s c t a u) ≡ weight c + black_height t)
join-IsRb left c t a u e bt bu it iu = ((sym e, bt, bu, it, iu), refl)
join-IsRb right c t a u e bt bu it iu = ((e, bu, bt, iu, it), ap (λ n. weight c + n) e)

pub IsRb-join :
    (s : Side) (c : Color) (t : Tree) (a : ℕ) (u : Tree)
    → IsRb (join s c t a u)
    → (black_height u ≡ black_height t) × IsBlackUnder c t × IsBlackUnder c u × IsRb t × IsRb u
IsRb-join left c t a u (e, bt, bu, it, iu) = (sym e, bt, bu, it, iu)
IsRb-join right c t a u (e, bu, bt, iu, it) = (e, bt, bu, it, iu)

abbrev pub blacken : Tree → Tree
blacken leaf = leaf
blacken (fork c l a r) = fork black l a r

pub blacken-IsRb : (t : Tree) → IsRb t → IsRb (blacken t)
blacken-IsRb leaf i = i
blacken-IsRb (fork c l a r) (e, bl, br, il, ir) = (e, tt, tt, il, ir)

pub inorder-blacken : (t : Tree) → inorder (blacken t) ≡ inorder t
inorder-blacken leaf = refl
inorder-blacken (fork c l a r) = refl

pub under : (c : Color) (t : Tree) → root_color t ≡ black → IsBlackUnder c t
under red t e = e
under black t e = tt

under_either : (c : Color) (t : Tree) → root_color t ≡ black ⊎ c ≡ black → IsBlackUnder c t
under_either red t (inl e) = e
under_either red t (inr e) = absurd (ground (arith, ap weight e))
under_either black t o = tt

pub above_either :
    (c : Color) (k : List Frame) → IsBlackAbove c k → c ≡ black ⊎ path_color k ≡ black
above_either red [] i = absurd i
above_either red (f ∷ k) i = inr i
above_either black k i = inl refl

pub root-join :
    (s : Side) (c : Color) (t : Tree) (a : ℕ) (u : Tree) → root_color (join s c t a u) ≡ c
root-join left c t a u = refl
root-join right c t a u = refl

pub inorder-join :
    (s : Side) (c : Color) (t : Tree) (a : ℕ) (u v : Tree)
    → inorder t ≡ inorder v
    → inorder (join s c t a u) ≡ inorder (join s c v a u)
inorder-join left c t a u v e = ap (λ xs. xs ++ a ∷ inorder u) e
inorder-join right c t a u v e = ap (λ xs. inorder u ++ a ∷ xs) e

-- The whole tree is balanced when the part and its path are, and only the root may be red under
-- nothing.
pub plug-IsRb :
    (t : Tree) (k : List Frame)
    → IsRb t
    → IsRbPath (black_height t) k
    → root_color t ≡ black ⊎ path_color k ≡ black
    → IsRb (blacken (plug k t))
plug-IsRb t [] i path o = blacken-IsRb t i
plug-IsRb t (f ∷ k) i (e, iu, bu, above, path) o =
    let (j, h) = join-IsRb f.side f.color t f.addr f.sibling e (under_either f.color t o) bu i iu in
    plug-IsRb (join f.side f.color t f.addr f.sibling) k j (subst (λ n. IsRbPath n k) (sym h) path)
      (subst (λ c. c ≡ black ⊎ path_color k ≡ black)
        (sym (root-join f.side f.color t f.addr f.sibling)) (above_either f.color k above))

pub inorder-plug :
    (t u : Tree) (k : List Frame) → inorder t ≡ inorder u → inorder (plug k t) ≡ inorder (plug k u)
inorder-plug t u [] e = e
inorder-plug t u (f ∷ k) e =
    inorder-plug (join f.side f.color t f.addr f.sibling) (join f.side f.color u f.addr f.sibling) k
      (inorder-join f.side f.color t f.addr f.sibling u e)

-- A rotation keeps the order of the nodes.
pub inorder-turn :
    (s : Side) (c d c' d' : Color) (t u v : Tree) (a b : ℕ)
    → inorder (join s d' (join s c' t a u) b v) ≡ inorder (join s c t a (join s d u b v))
inorder-turn left c d c' d' t u v a b = append_assoc (inorder t) (a ∷ inorder u) (b ∷ inorder v)
inorder-turn right c d c' d' t u v a b =
    sym (append_assoc (inorder v) (b ∷ inorder u) (a ∷ inorder t))

pub inorder-recolor :
    (s : Side) (c c' : Color) (t : Tree) (a : ℕ) (u u' : Tree)
    → inorder u ≡ inorder u'
    → inorder (join s c t a u) ≡ inorder (join s c' t a u')
inorder-recolor left c c' t a u u' e = ap (λ xs. inorder t ++ a ∷ xs) e
inorder-recolor right c c' t a u u' e = ap (λ xs. xs ++ a ∷ inorder t) e

zero_plus : (h : ℕ) → h ≡ 0 + h
zero_plus h = omega arith

power_step : (h : ℕ) → 2 * 2 ^ h ≡ 2 ^ (1 + h)
power_step h =
    let one : suc h ≡ 1 + h = omega arith in
    let step : 2 * 2 ^ h ≡ 2 ^ suc h = omega arith in step ∙ ap (λ k. 2 ^ k) one

-- A balanced tree of black height h has at least 2 ^ h - 1 nodes.
pub size_of_black_height : (t : Tree) → IsRb t → 2 ^ black_height t ≤ length (inorder t) + 1
size_of_black_height leaf i = omega arith
size_of_black_height (fork red l a r) (e, bl, br, il, ir) =
    let ml = size_of_black_height l il in
    let both = length-append (inorder l) (a ∷ inorder r) in
    subst (λ h. 2 ^ h ≤ length (inorder l ++ a ∷ inorder r) + 1) (zero_plus (black_height l))
      (omega arith)
size_of_black_height (fork black l a r) (e, bl, br, il, ir) =
    let ml = size_of_black_height l il in
    let mr : 2 ^ black_height l ≤ length (inorder r) + 1 =
      subst (λ h. 2 ^ h ≤ length (inorder r) + 1) (sym e) (size_of_black_height r ir) in
    let both = length-append (inorder l) (a ∷ inorder r) in
    subst (λ h. h ≤ length (inorder l ++ a ∷ inorder r) + 1) (power_step (black_height l))
      (omega arith)

-- The height is at most twice the black height, and one more under a red root.
pub height_of_black_height :
    (t : Tree) → IsRb t → height t + weight (root_color t) ≤ 2 * black_height t + 1
height_of_black_height leaf i = omega arith
height_of_black_height (fork red l a r) (e, bl, br, il, ir) =
    let ml = height_of_black_height l il in
    let mr = height_of_black_height r ir in
    let wl = ap weight bl in let wr = ap weight br in ground arith
height_of_black_height (fork black l a r) (e, bl, br, il, ir) =
    let ml = height_of_black_height l il in let mr = height_of_black_height r ir in ground arith

-- A balanced tree with a black root and `m` nodes is at most twice as high as the binary logarithm of
-- `m + 1`, here bounded by `b`.
pub height_bound :
    (t : Tree) (b : ℕ)
    → IsRb t
    → root_color t ≡ black
    → length (inorder t) + 1 < 2 ^ suc b
    → height t ≤ 2 * b
height_bound t b i e few =
    let tall = height_of_black_height t i in
    let size = size_of_black_height t i in
    let w = ap weight e in
    elim (Bool-cases (ltb b (black_height t))) [
      | inl l ↦ absurd (
          let more : 2 ^ suc b ≤ 2 ^ black_height t =
            pow-le-pow_right (omega arith) (ground arith) in
          omega arith)
      | inr l ↦ ground arith
    ]
