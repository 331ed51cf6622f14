-- ===== src/RbTree/Remove/Short.antt =====
-- What stands before and after a round of `rb_delete_fixup` of src/common/ds/rbtree.c.
use c_liber.Prelude.{
  ℕ, ◌+◌, ◌≤◌, ◌<◌, ◌≡◌, ◌≢◌, refl, ap, sym, ◌∙◌, Bool, true, false, List, [], ◌∷◌, length, arith,
  ◌⊎◌, inl, inr,
}
use mathlib.Core.Path.{subst}
use c_liber.RbTree.{RbTree, Color, Side, left, right, red, black, rb_set_color}
use c_liber.RbTree.Shape.{Tree, leaf, fork, join, IsAt, Frame, plug, inorder}
use c_liber.RbTree.Moves.{root_color, path_color, paint}
use c_liber.RbTree.Balance.{
  weight, black_height, IsRb, IsRbPath, IsBlackAbove, under, above_either, join-IsRb, blacken,
  root-join, inorder-blacken, inorder-plug, inorder-turn, inorder-recolor, plug-IsRb,
}
use c_liber.RbTree.Fixup.{not_black}
use c_liber.RbTree.Loop.{IsRbTree, whole, root-blacken}
use c_liber.RbTree.Refine.{length-join, length-plug, root_not_null}

-- How many rounds follow at most: none at a red node.
abbrev pub rounds : Color → List Frame → ℕ
rounds red k = 0
rounds black k = 1 + length k

abbrev pub side_of : Bool → Side
side_of false = left
side_of true = right

-- The empty place hangs on the side of `pnode` that `is_right` says.
abbrev pub IsOnSide : Bool → List Frame → Type 0
IsOnSide is_right [] = ⊥
IsOnSide is_right (f ∷ k) = f.side ≡ side_of is_right

-- The fixup before a round at `node`, which is NULL at first where an empty place is left: the tree
-- there is balanced once its root is black, and has one black node less on its ways than its place asks
-- for.
pub record Short (xs : List ℕ) (n : ℕ) (tree : RbTree) (pnode node : ℕ) (is_right : Bool)
    : Type 0 where
  pub q : ℕ
  pub t : Tree
  pub k : List Frame
  pub place : IsAt tree q node t k
  pub balanced : IsRb (blacken t)
  pub path : IsRbPath (1 + black_height t) k
  pub order : inorder (plug k t) ≡ xs
  pub size : rounds (root_color t) k < n
  pub linked : (node ≢ 0) ⊎ ((q ≡ pnode) × IsOnSide is_right k)

pub blacken_black : (t : Tree) → root_color t ≡ black → blacken t ≡ t
blacken_black leaf e = refl
blacken_black (fork c l a r) e = ap (λ d. fork d l a r) (sym e)

pub root-plug :
    (t : Tree) (k : List Frame) (n : ℕ)
    → IsRbPath n k
    → IsBlackAbove (root_color t) k
    → root_color (plug k t) ≡ black
root-plug t [] n path ab = top_black (root_color t) ab
  where
    top_black : (c : Color) → IsBlackAbove c [] → c ≡ black
    top_black red i = absurd i
    top_black black i = refl
root-plug t (f ∷ k) n (e, iu, bu, above, path) ab =
    root-plug (join f.side f.color t f.addr f.sibling) k (weight f.color + n) path
      (subst (λ c. IsBlackAbove c k) (sym (root-join f.side f.color t f.addr f.sibling)) above)

-- The height that the place asks for, once the root is black.
path_blacken :
    (t : Tree) (k : List Frame)
    → root_color t ≡ red ⊎ k ≡ []
    → IsRbPath (1 + black_height t) k
    → IsRbPath (black_height (blacken t)) k
path_blacken t k (inr e) path = subst (λ k. IsRbPath (black_height (blacken t)) k) (sym e) tt
path_blacken leaf k (inl e) path = not_black e
path_blacken (fork black l a r) k (inl e) path = not_black e
path_blacken (fork red l a r) k (inl e) path =
    subst (λ m. IsRbPath m k) (one_plus (black_height l)) path
  where
    one_plus : (m : ℕ) → 1 + (0 + m) ≡ 1 + m
    one_plus m = omega arith

paint_node :
    (tree : RbTree) (q p : ℕ) (t : Tree) (k : List Frame)
    → IsAt tree q p t k
    → p ≢ 0
    → IsAt (rb_set_color p black tree) q p (blacken t) k
paint_node tree q p leaf k i n = absurd (n i.here)
paint_node tree q p (fork c l a r) k i n = paint tree q p left c black l a r k i

-- The last store of the fixup.
pub end-IsRbTree :
    (xs : List ℕ) (tree : RbTree) (q node : ℕ) (t : Tree) (k : List Frame)
    → IsAt tree q node t k
    → IsRb (blacken t)
    → IsRbPath (1 + black_height t) k
    → inorder (plug k t) ≡ xs
    → node ≢ 0
    → root_color t ≡ red ⊎ k ≡ []
    → IsRbTree xs (rb_set_color node black tree)
end-IsRbTree xs tree q node t k i b path order n last =
    let path' = path_blacken t k last path in
    let dark : root_color (plug k (blacken t)) ≡ black =
      root-plug (blacken t) k (black_height (blacken t)) path'
        (subst (λ c. IsBlackAbove c k) (sym (root-blacken t)) tt) in
    record {
      shape = plug k (blacken t);
      stored =
          whole (rb_set_color node black tree) q node (blacken t) k
            (paint_node tree q node t k i n);
      balanced =
          subst IsRb (blacken_black (plug k (blacken t)) dark)
            (plug-IsRb (blacken t) k b path' (inl (root-blacken t)));
      root_black = dark;
      order = inorder-plug (blacken t) t k (inorder-blacken t) ∙ order;
    }

pub rounds_top : (c : Color) → rounds c [] ≤ 1
rounds_top red = omega arith
rounds_top black = omega arith

-- The sibling has taken the parent's place: the whole tree is in order, and the root is next.
pub lifted-Short :
    (tree : RbTree) (s : Side) (c : Color) (q a aw n pnode : ℕ) (is_right : Bool) (t x y : Tree)
    (k : List Frame)
    → IsAt tree q aw (join s c (join s black t a x) aw (blacken y)) k
    → IsRb t
    → IsRb x
    → IsRb (blacken y)
    → black_height x ≡ black_height t
    → black_height (blacken y) ≡ 1 + black_height t
    → IsBlackAbove c k
    → IsRbPath (weight c + (1 + black_height t)) k
    → 1 < n
    → Short
        (inorder (plug k (join s c t a (join s black x aw y))))
        n
        tree
        pnode
        tree.rb_root
        is_right
lifted-Short tree s c q a aw n pnode is_right t x y k i it ix iy ex ey above path more =
    let u : Tree = join s black t a x in
    let w : Tree = join s c u aw (blacken y) in
    let (iu, hu) = join-IsRb s black t a x ex tt tt it ix in
    let (iw, hw) =
      join-IsRb s c u aw (blacken y) (ey ∙ sym hu) (under c u (root-join s black t a x))
        (under c (blacken y) (root-blacken y)) iu iy in
    let root = whole tree q aw w k i in
    let sized = length-plug w k in
    let joined = length-join s c u aw (blacken y) in
    record {
      q = 0;
      t = plug k w;
      k = [];
      place = root;
      balanced =
          plug-IsRb w k iw (subst (λ m. IsRbPath m k) (sym (hw ∙ ap (λ m. weight c + m) hu)) path) (
            subst (λ d. d ≡ black ⊎ path_color k ≡ black) (sym (root-join s c u aw (blacken y)))
              (above_either c k above));
      path = tt;
      order = inorder-plug w (join s c t a (join s black x aw y)) k (
          inorder-recolor s c c u aw (blacken y) y (inorder-blacken y)
          ∙ inorder-turn s c black black c t x y a aw);
      size = (let few = rounds_top (root_color (plug k w)) in omega arith);
      linked = inl (root_not_null tree.node 0 tree.rb_root (plug k w) root.here (omega arith));
    }
