-- ===== src/RbTree/Remove/Round.antt =====
-- A round of `rb_delete_fixup` of src/common/ds/rbtree.c.
use c_liber.Prelude.{
  ℕ, ◌+◌, ◌<◌, ◌≡◌, ◌≢◌, refl, ap, sym, ◌∙◌, Bool, true, false, List, ◌∷◌, arith, inl, inr,
  if◌then◌else◌, ◌==◌,
}
use mathlib.Core.Path.{subst}
use c_liber.RbTree.{
  RbTree, rotate, Color, Side, left, right, other, red, black, child_of, rb_set_color, rb_parent,
  rb_is_red,
}
use c_liber.RbTree.Erase.{red_sibling, delete_at}
use c_liber.RbTree.Shape.{Tree, leaf, fork, join, IsAt, Frame, plug, inorder}
use c_liber.RbTree.Moves.{root_color, is_red, up}
use c_liber.RbTree.Balance.{
  weight, black_height, IsRb, IsRbPath, IsBlackAbove, IsBlackUnder, IsRb-join, inorder-plug,
  inorder-turn,
}
use c_liber.RbTree.Fixup.{not_black}
use c_liber.RbTree.Remove.Lift.{below, red_sibling-IsAt}
use c_liber.RbTree.Remove.Short.{rounds}
use c_liber.RbTree.Moves.{down, swap, node_parent, reads_red}
use c_liber.RbTree.Remove.Tail.{tail, Goes, tail-Goes, red_join, color_cases, black_height-join}

black_join :
    (s : Side) (t : Tree)
    → root_color t ≡ black
    → 0 < black_height t
    → (l : Tree) × (r : Tree) × (a : ℕ) × (t ≡ join s black l a r)
black_join s leaf e h = absurd (omega arith)
black_join s (fork red l a r) e h = not_black (sym e)
black_join left (fork black l a r) e h = (l, r, a, refl)
black_join right (fork black l a r) e h = (r, l, a, refl)

under_red : (c : Color) (t : Tree) → IsBlackUnder c t → root_color t ≡ red → c ≡ black
under_red red t i e = not_black (sym i ∙ e)
under_red black t i e = refl

delete_at-tail :
    (s : Side) (p w : ℕ) (tree : RbTree) (out : RbTree × ℕ)
    → child_of tree (other s) p ≡ w
    → w ≢ 0
    → red_sibling s p w tree ≡ out
    → delete_at s p tree ≡ tail s p out.1 out.0
unfolding delete_at
delete_at-tail s p w tree out e n r =
    let null : (w == 0) ≡ false = ground arith in
    ap
      (λ v.
        (if v == 0
          then (tree, tree.rb_root, true)
          else (let o = red_sibling s p v tree in tail s p o.1 o.0)))
      e
    ∙ ap
        (λ b.
          (if b
            then (tree, tree.rb_root, true)
            else (let o = red_sibling s p w tree in tail s p o.1 o.0)))
        null
    ∙ ap (λ o. tail s p o.1 o.0) r

sibling-kept :
    (s : Side) (p w : ℕ) (tree : RbTree)
    → rb_is_red tree w ≡ false
    → red_sibling s p w tree ≡ (tree, w)
unfolding red_sibling
sibling-kept s p w tree e =
    ap
      (λ b.
        (if b
          then (let t1 : RbTree = rb_set_color p red (rb_set_color w black tree) in
              let t2 : RbTree = rotate s p t1 in (t2, child_of t2 (other s) p))
          else (tree, w)))
      e

module _ (tree : RbTree) (s : Side) (c : Color) (q node a n pnode : ℕ) (is_right : Bool)
    (t u : Tree) (k : List Frame) (place : IsAt tree q node t (below s c a u ∷ k))
    (balanced : IsRb t) (dark : root_color t ≡ black) (height : black_height u ≡ 1 + black_height t)
    (sibling : IsRb u) (under_c : IsBlackUnder c u) (above : IsBlackAbove c k)
    (path : IsRbPath (weight c + (1 + black_height t)) k) (more : 1 < n)
    (size : rounds c k < n) where
  abbrev w : ℕ
  w = child_of tree (other s) q

  abbrev Goal : Type 0
  Goal = Goes (inorder (plug k (join s c t a u))) n pnode is_right (delete_at s q tree)

  at_sibling : IsAt tree q w u (below (other s) c a t ∷ k)
  at_sibling =
      let q1 : ℕ = rb_parent tree q in
      down tree q1 q (other s) c u a t k
        (swap tree q1 q s c t a u k (up tree q node t (below s c a u) k place))

  black-Goes : root_color u ≡ black → Goal
  black-Goes e =
      let (x, y, aw, eu) = black_join s u e (omega arith) in
      let i = subst (λ v. IsAt tree q w v (below (other s) c a t ∷ k)) eu at_sibling in
      let (par, null) = node_parent tree q w s black x aw y i.here in
      let iu = subst IsRb eu sibling in
      let (eyx, bx, by, ix, iy) = IsRb-join s black x aw y iu in
      let h = black_height-join s black x aw y eyx in
      let hu = ap black_height eu in
      let kept = sibling-kept s q w tree (reads_red tree q w u at_sibling.here ∙ ap is_red e) in
      subst (Goes (inorder (plug k (join s c t a u))) n pnode is_right)
        (sym (delete_at-tail s q w tree (tree, w) refl null kept))
        (subst (λ v. Goes (inorder (plug k (join s c t a v))) n pnode is_right (tail s q w tree))
          (sym eu)
          (tail-Goes tree s c q w a aw n pnode is_right t x y k i balanced dark iu (omega arith)
            above path more size))

  -- Case 1, and the others after it.
  red-Goes : root_color u ≡ red → Goal
  red-Goes e =
      let (x, y, aw, eu) = red_join s u e in
      let c_black = under_red c u under_c e in
      let i = subst (λ v. IsAt tree q w v (below (other s) c a t ∷ k)) eu at_sibling in
      let (par, null) = node_parent tree q w s red x aw y i.here in
      let (eyx, bx, by, ix, iy) = IsRb-join s red x aw y (subst IsRb eu sibling) in
      let h = black_height-join s red x aw y eyx in
      let hu = ap black_height eu in
      let (x1, x2, ax, ex) = black_join s x bx (omega arith) in
      let out : RbTree × ℕ = red_sibling s q w tree in
      let i1 = red_sibling-IsAt tree s c q w a aw t x y k i in
      let i2 =
        subst (λ v. IsAt out.0 q out.1 v (below (other s) red a t ∷ below s black aw y ∷ k)) ex
          i1 in
      let ix' = subst IsRb ex ix in
      let (e21, b1, b2, ix1, ix2) = IsRb-join s black x1 ax x2 ix' in
      let h1 = black_height-join s black x1 ax x2 e21 in
      let hx = ap black_height ex in
      let path1 = subst (λ d. IsRbPath (weight d + (1 + black_height t)) k) c_black path in
      let done =
        tail-Goes out.0 s red q out.1 a ax n pnode is_right t x1 x2 (below s black aw y ∷ k) i2
          balanced dark ix' (omega arith) refl
          (omega arith, iy, tt, tt, subst (λ m. IsRbPath m k) (omega arith) path1) more
          (omega arith) in
      subst (Goes (inorder (plug k (join s c t a u))) n pnode is_right)
        (sym (delete_at-tail s q w tree out refl null refl))
        (subst (λ xs. Goes xs n pnode is_right (tail s q out.1 out.0))
          (inorder-plug (join s black (join s red t a (join s black x1 ax x2)) aw y)
            (join s c t a u) k
            (inorder-turn s c red red black t (join s black x1 ax x2) y a aw
              ∙ ap (λ v. inorder (join s c t a (join s red v aw y))) (sym ex)
              ∙ ap (λ v. inorder (join s c t a v)) (sym eu)))
          done)

  pub delete_at-Goes : Goal
  delete_at-Goes = elim (color_cases (root_color u)) [ inl e ↦ red-Goes e | inr e ↦ black-Goes e ]
