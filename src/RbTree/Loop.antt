-- ===== src/RbTree/Loop.antt =====
-- `rb_insert_fixup` of src/common/ds/rbtree.c: its loop ends with a red-black tree.
use c_liber.Prelude.{
  ℕ, zero, suc, ◌≡◌, refl, ap, sym, ◌∙◌, Bool, true, false, List, [], ◌∷◌, arith, if◌then◌else◌,
  some, Bool-cases, inl, inr,
}
use mathlib.Core.Path.{subst}
use c_liber.RbTree.{
  RbTree, Color, left, red, black, rb_parent, rb_is_red, rb_set_color, with_color, root-update,
}
use c_liber.RbTree.Insert.{fixup_round, fixup_loop}
use c_liber.RbTree.Shape.{Tree, leaf, fork, join, IsAt, Frame, plug, inorder}
use c_liber.RbTree.Moves.{up, paint, root_color, path_color, is_red, path_red}
use c_liber.RbTree.Balance.{IsRb, plug-IsRb, blacken, inorder-blacken}
use c_liber.RbTree.Fixup.{Loose, red_node}
use c_liber.RbTree.Round.{round-Loose}

-- The tree is a red-black tree with a black root, and its nodes stand in the order `xs`.
pub record IsRbTree (xs : List ℕ) (tree : RbTree) : Type 0 where
  pub shape : Tree
  pub stored : IsAt tree 0 tree.rb_root shape []
  pub balanced : IsRb shape
  pub root_black : root_color shape ≡ black
  pub order : inorder shape ≡ xs

-- The whole tree, seen from a place in it.
pub whole :
    (tree : RbTree) (q p : ℕ) (t : Tree) (k : List Frame)
    → IsAt tree q p t k
    → IsAt tree 0 tree.rb_root (plug k t) []
whole tree q p t [] i =
    let (e, r) = i.above in
    subst (λ v. IsAt tree v tree.rb_root t []) e (subst (λ v. IsAt tree q v t []) (sym r) i)
whole tree q p t (f ∷ k) i =
    whole tree (rb_parent tree q) q (join f.side f.color t f.addr f.sibling) k (up tree q p t f k i)

pub root-blacken : (t : Tree) → root_color (blacken t) ≡ black
root-blacken leaf = refl
root-blacken (fork c l a r) = refl

paint_root :
    (tree : RbTree) (t : Tree)
    → IsAt tree 0 tree.rb_root t []
    → (let tree' : RbTree = rb_set_color tree.rb_root black tree in
        IsAt tree' 0 tree'.rb_root (blacken t) [])
paint_root tree leaf i =
    let same = root-update tree.rb_root (with_color black) tree in
    record { here = same ∙ i.here; above = (refl, refl); once = i.once }
paint_root tree (fork c l a r) i =
    subst (λ v. IsAt (rb_set_color tree.rb_root black tree) 0 v (fork black l a r) [])
      (sym (root-update tree.rb_root (with_color black) tree))
      (paint tree 0 tree.rb_root left c black l a r [] i)

pub red_of : (c : Color) → is_red c ≡ true → c ≡ red
red_of red e = refl
red_of black e = absurd (ground arith)

pub black_of : (c : Color) → is_red c ≡ false → c ≡ black
black_of red e = absurd (ground arith)
black_of black e = refl

-- The last store of the loop.
end-IsRbTree :
    (xs : List ℕ) (n : ℕ) (tree : RbTree) (p : ℕ) (l : Loose xs n tree p)
    → path_color l.k ≡ black
    → IsRbTree xs (rb_set_color tree.rb_root black tree)
end-IsRbTree xs n tree p l e = record {
  shape = blacken (plug l.k l.t);
  stored = paint_root tree (plug l.k l.t) (whole tree l.q p l.t l.k l.place);
  balanced = plug-IsRb l.t l.k l.balanced l.path (inr e);
  root_black = root-blacken (plug l.k l.t);
  order = inorder-blacken (plug l.k l.t) ∙ l.order;
}

loop_step :
    (fuel p : ℕ) (tree : RbTree) (b : Bool)
    → rb_is_red tree (rb_parent tree p) ≡ b
    → fixup_loop (suc fuel) p tree ≡ (
        if b
        then fixup_loop fuel (fixup_round p tree).1 (fixup_round p tree).0
        else some (rb_set_color tree.rb_root black tree))
unfolding fixup_loop
loop_step fuel p tree b e =
    ap
      (λ b.
        if b
        then fixup_loop fuel (fixup_round p tree).1 (fixup_round p tree).0
        else some (rb_set_color tree.rb_root black tree))
      e

-- Let the tree at `p` have a red root under a path of fewer than `fuel` nodes, where nothing may be wrong
-- with the colours but that this root and its parent may both be red, or that it is the root of all. Let
-- `xs` be all nodes from left to right. Then the loop of rb_insert_fixup ends within `fuel` rounds with a
-- red-black tree whose nodes are `xs` in the same order.
pub loop-IsRbTree :
    (fuel : ℕ) (xs : List ℕ) (tree : RbTree) (p : ℕ)
    → Loose xs fuel tree p
    → (tree' : RbTree) × (fixup_loop fuel p tree ≡ some tree') × IsRbTree xs tree'
loop-IsRbTree zero xs tree p l = absurd (let o = l.size in omega arith)
loop-IsRbTree (suc fuel) xs tree p l =
    let (par, n) = red_node tree l.q p l.t l.place.here l.top in
    let seen : rb_is_red tree (rb_parent tree p) ≡ is_red (path_color l.k) =
      ap (rb_is_red tree) par ∙ path_red tree l.q p l.k l.place.above in
    elim (Bool-cases (rb_is_red tree (rb_parent tree p))) [
      | inl e ↦
          (let r =
              round-Loose tree l.q p l.t l.k l.place l.top l.balanced l.path
                (red_of (path_color l.k) (sym seen ∙ e)) in
            let (tree', e', i) =
              loop-IsRbTree fuel xs (fixup_round p tree).0 (fixup_round p tree).1 (record {
                q = r.q;
                t = r.t;
                k = r.k;
                place = r.place;
                top = r.top;
                balanced = r.balanced;
                path = r.path;
                order = r.order ∙ l.order;
                size = (let a = r.size in let b = l.size in omega arith);
              }) in
            (tree', loop_step fuel p tree true e ∙ e', i))
      | inr e ↦ (
        rb_set_color tree.rb_root black tree,
        loop_step fuel p tree false e,
        end-IsRbTree xs (suc fuel) tree p l (black_of (path_color l.k) (sym seen ∙ e)),
      )
    ]
