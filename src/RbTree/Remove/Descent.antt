-- ===== src/RbTree/Remove/Descent.antt =====
-- The successor of a node with two children in src/common/ds/rbtree.c, and the ways to it.
use c_liber.Prelude.{
  ℕ, zero, suc, ◌+◌, ◌≤◌, ◌<◌, ◌≡◌, ◌≢◌, refl, ap, sym, ◌∙◌, Bool, true, false, not, ◌&&◌, List, [],
  ◌∷◌, ◌++◌, append_assoc, append-nil, length-append, length, arith, if◌then◌else◌, ◌==◌, some,
}
use mathlib.Core.Path.{subst}
use c_liber.RbTree.{RbTree, Color, left, child_of, rb_parent}
use c_liber.RbTree.Walk.{outermost}
use c_liber.RbTree.Shape.{Tree, leaf, fork, join, IsAt, Frame, plug, inorder}
use c_liber.RbTree.Moves.{up, down}
use c_liber.RbTree.Balance.{weight, black_height, IsRb, IsRbPath, IsBlackAbove, height}
use c_liber.RbTree.Insertion.{above_child}

pub plug-append : (ks k : List Frame) (t : Tree) → plug (ks ++ k) t ≡ plug k (plug ks t)
plug-append [] k t = refl
plug-append (f ∷ ks) k t = plug-append ks k (join f.side f.color t f.addr f.sibling)

-- Up a path `ks`, and down it again.
pub up_all :
    (tree : RbTree) (q p : ℕ) (t : Tree) (ks k : List Frame)
    → IsAt tree q p t (ks ++ k)
    → (q' : ℕ) × (p' : ℕ) × IsAt tree q' p' (plug ks t) k
up_all tree q p t [] k i = (q, p, i)
up_all tree q p t (f ∷ ks) k i =
    up_all tree (rb_parent tree q) q (join f.side f.color t f.addr f.sibling) ks k
      (up tree q p t f (ks ++ k) i)

pub down_all :
    (tree : RbTree) (q p : ℕ) (t : Tree) (ks k : List Frame)
    → IsAt tree q p (plug ks t) k
    → (q' : ℕ) × (p' : ℕ) × IsAt tree q' p' t (ks ++ k)
down_all tree q p t [] k i = (q, p, i)
down_all tree q p t (f ∷ ks) k i =
    let (q1, p1, j) = down_all tree q p (join f.side f.color t f.addr f.sibling) ks k i in
    (p1, child_of tree f.side p1, down tree q1 p1 f.side f.color t f.addr f.sibling (ks ++ k) j)

-- All steps go to the left.
abbrev pub IsLeftmost : List Frame → Type 0
IsLeftmost [] = Unit
IsLeftmost (f ∷ k) = (f.side ≡ left) × IsLeftmost k

-- The leftmost node of a tree comes first.
pub inorder-leftmost :
    (ks : List Frame) (t : Tree)
    → IsLeftmost ks
    → inorder (plug ks t) ≡ inorder t ++ inorder (plug ks leaf)
inorder-leftmost [] t i = sym (append-nil (inorder t))
inorder-leftmost (f ∷ ks) t (e, i) =
    subst
      (λ s.
        inorder (plug ks (join s f.color t f.addr f.sibling))
        ≡ inorder t ++ inorder (plug ks (join s f.color leaf f.addr f.sibling)))
      (sym e)
      (inorder-leftmost ks (fork f.color t f.addr f.sibling) i
        ∙ append_assoc (inorder t) (f.addr ∷ inorder f.sibling) (inorder (plug ks leaf))
        ∙ ap (λ xs. inorder t ++ xs)
            (sym (inorder-leftmost ks (fork f.color leaf f.addr f.sibling) i)))

-- Where the walk of `__rb_min` ends, under the path `k` from the tree where it starts.
pub record Leftmost (whole : Tree) (tree : RbTree) (y : ℕ) (k : List Frame) : Type 0 where
  pub q : ℕ
  pub c : Color
  pub right_tree : Tree
  pub ks : List Frame
  pub place : IsAt tree q y (fork c leaf y right_tree) (ks ++ k)
  pub balanced : IsRb (fork c leaf y right_tree)
  pub above : IsBlackAbove c (ks ++ k)
  pub path : IsRbPath (weight c + 0) (ks ++ k)
  pub lefts : IsLeftmost ks
  pub same : plug ks (fork c leaf y right_tree) ≡ whole
  pub deep : length ks < height whole

outermost_step :
    (fuel p : ℕ) (tree : RbTree) (b : Bool)
    → (not (p == 0) && not (child_of tree left p == 0)) ≡ b
    → outermost left (suc fuel) p tree
      ≡ (if b then outermost left fuel (child_of tree left p) tree else some p)
unfolding outermost
outermost_step fuel p tree b e =
    ap (λ b. if b then outermost left fuel (child_of tree left p) tree else some p) e

IsLeftmost-append :
    (ks : List Frame) (f : Frame) → IsLeftmost ks → f.side ≡ left → IsLeftmost (ks ++ f ∷ [])
IsLeftmost-append [] f i e = (e, tt)
IsLeftmost-append (g ∷ ks) f (d, i) e = (d, IsLeftmost-append ks f i e)

-- The walk of `__rb_min` ends at the leftmost node.
pub outermost-Leftmost :
    (fuel : ℕ) (tree : RbTree) (q p : ℕ) (c : Color) (l r : Tree) (a : ℕ) (k : List Frame)
    → IsAt tree q p (fork c l a r) k
    → IsRb (fork c l a r)
    → IsBlackAbove c k
    → IsRbPath (weight c + black_height l) k
    → height (fork c l a r) ≤ fuel
    → (y : ℕ) × (outermost left fuel p tree ≡ some y) × Leftmost (fork c l a r) tree y k
outermost-Leftmost zero tree q p c l r a k i it above path enough = absurd (omega arith)
outermost-Leftmost (suc fuel) tree q p c leaf r a k i it above path enough =
    let (e, n, par, co, il, ir) = i.here in
    let ended : (not (p == 0) && not (child_of tree left p == 0)) ≡ false =
      (let z : child_of tree left p ≡ 0 = ap (child_of tree left) e ∙ il in ground arith) in
    (
      a,
      outermost_step fuel p tree false ended ∙ ap some e,
      record {
        q = q;
        c = c;
        right_tree = r;
        ks = [];
        place = subst (λ b. IsAt tree q b (fork c leaf a r) k) e i;
        balanced = it;
        above = above;
        path = path;
        lefts = tt;
        same = refl;
        deep = omega arith;
      },
    )
outermost-Leftmost (suc fuel) tree q p c (fork d l' b r') r a k i it above path enough =
    let (e, n, par, co, il, ir) = i.here in
    let l : Tree = fork d l' b r' in
    let f : Frame = record { side = left; color = c; addr = a; sibling = r } in
    let (eh, bl, br, rl, rr) = it in
    let on : (not (p == 0) && not (child_of tree left p == 0)) ≡ true =
      (let z : child_of tree left p ≢ 0 =
          λ w. il.1 (sym il.0 ∙ ap (child_of tree left) (sym e) ∙ w) in
        let m : p ≢ 0 = λ w. n (sym e ∙ w) in ground arith) in
    let (y, found, g) =
      outermost-Leftmost fuel tree p (child_of tree left p) d l' r' b (f ∷ k)
        (down tree q p left c l a r k i) rl (above_child c left a l r k bl)
        (sym eh, rr, br, above, path) (ground arith) in
    let last : (g.ks ++ f ∷ []) ++ k ≡ g.ks ++ f ∷ k = append_assoc g.ks (f ∷ []) k in
    (
      y,
      outermost_step fuel p tree true on ∙ found,
      record {
        q = g.q;
        c = g.c;
        right_tree = g.right_tree;
        ks = g.ks ++ f ∷ [];
        place = subst (λ v. IsAt tree g.q y (fork g.c leaf y g.right_tree) v) (sym last) g.place;
        balanced = g.balanced;
        above = subst (λ v. IsBlackAbove g.c v) (sym last) g.above;
        path = subst (λ v. IsRbPath (weight g.c + 0) v) (sym last) g.path;
        lefts = IsLeftmost-append g.ks f g.lefts refl;
        same =
            plug-append g.ks (f ∷ []) (fork g.c leaf y g.right_tree)
            ∙ ap (λ v. fork c v a r) g.same;
        deep = (let o = g.deep in let m = length-append g.ks (f ∷ []) in ground arith);
      },
    )
