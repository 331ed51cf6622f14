-- ===== src/RbTree/Remove/Tail.antt =====
-- A round of `rb_delete_fixup` of src/common/ds/rbtree.c once its sibling is black.
use c_liber.Prelude.{
  ℕ, ◌+◌, ◌<◌, ◌≡◌, refl, ap, sym, ◌∙◌, Bool, true, false, not, ◌&&◌, List, ◌∷◌, arith, ◌⊎◌, inl,
  inr, if◌then◌else◌,
}
use mathlib.Core.Path.{subst}
use c_liber.RbTree.{
  RbTree, rotate, Color, Side, left, right, other, red, black, child_of, rb_set_color, rb_parent,
  rb_is_black,
}
use c_liber.RbTree.Erase.{black_outer, lift_sibling}
use c_liber.RbTree.Shape.{Tree, leaf, fork, join, IsAt, Frame, plug, inorder}
use c_liber.RbTree.Moves.{root_color, is_red, paint, up, join-other}
use c_liber.RbTree.Balance.{
  weight, black_height, IsRb, IsRbPath, IsBlackAbove, join-IsRb, IsRb-join, blacken, blacken-IsRb,
  root-join, inorder-plug, inorder-turn, inorder-recolor,
}
use c_liber.RbTree.Fixup.{not_black}
use c_liber.RbTree.Remove.Lift.{below, lift_sibling-IsAt, black_outer-IsAt}
use c_liber.RbTree.Remove.Short.{Short, rounds, lifted-Short}
use c_liber.RbTree.Remove.Sibling.{both_black, one_red, child_black}

-- What follows the choice of the sibling.
abbrev pub tail : Side → (p w : ℕ) → RbTree → RbTree × ℕ × Bool
tail s p w tree =
    if rb_is_black tree (child_of tree left w) && rb_is_black tree (child_of tree right w)
    then (rb_set_color w red tree, p, false)
    else let (t2, w') = black_outer s w tree in
      let t3 : RbTree = lift_sibling s p w' t2 in (t3, t3.rb_root, false)

abbrev pub Goes : List ℕ → ℕ → (pnode : ℕ) → Bool → RbTree × ℕ × Bool → Type 0
Goes xs n pnode is_right out = (out.2 ≡ false) × Short xs n out.0 pnode out.1 is_right

pub red_join :
    (s : Side) (t : Tree)
    → root_color t ≡ red
    → (l : Tree) × (r : Tree) × (a : ℕ) × (t ≡ join s red l a r)
red_join s leaf e = not_black e
red_join s (fork black l a r) e = not_black e
red_join left (fork red l a r) e = (l, r, a, refl)
red_join right (fork red l a r) e = (r, l, a, refl)

pub color_cases : (c : Color) → (c ≡ red) ⊎ (c ≡ black)
color_cases red = inl refl
color_cases black = inr refl

pub black_height-join :
    (s : Side) (c : Color) (t : Tree) (a : ℕ) (u : Tree)
    → black_height u ≡ black_height t
    → black_height (join s c t a u) ≡ weight c + black_height t
black_height-join left c t a u e = refl
black_height-join right c t a u e = ap (λ n. weight c + n) e

blacken-join :
    (s : Side) (c : Color) (t : Tree) (a : ℕ) (u : Tree)
    → blacken (join s c t a u) ≡ join s black t a u
blacken-join left c t a u = refl
blacken-join right c t a u = refl

height-blacken : (t : Tree) → root_color t ≡ red → black_height (blacken t) ≡ 1 + black_height t
height-blacken leaf e = not_black e
height-blacken (fork black l a r) e = not_black e
height-blacken (fork red l a r) e = omega arith

abbrev leave : Side → (p w : ℕ) → RbTree → RbTree × ℕ × Bool
leave s p w tree =
    let (t2, w') = black_outer s w tree in
    let t3 : RbTree = lift_sibling s p w' t2 in (t3, t3.rb_root, false)

tail_case :
    (s : Side) (p w : ℕ) (tree : RbTree) (b : Bool)
    → (rb_is_black tree (child_of tree left w) && rb_is_black tree (child_of tree right w)) ≡ b
    → tail s p w tree ≡ (if b then (rb_set_color w red tree, p, false) else leave s p w tree)
tail_case s p w tree b e =
    ap (λ b. if b then (rb_set_color w red tree, p, false) else leave s p w tree) e

outer_kept :
    (s : Side) (w : ℕ) (tree : RbTree)
    → rb_is_black tree (child_of tree (other s) w) ≡ false
    → black_outer s w tree ≡ (tree, w)
unfolding black_outer
outer_kept s w tree e =
    ap
      (λ b.
        (if b
          then (let t1 : RbTree = rb_set_color w red tree in
              let t2 : RbTree = rb_set_color (child_of t1 s w) black t1 in
              let t3 : RbTree = rotate (other s) w t2 in (t3, rb_parent t3 w))
          else (tree, w)))
      e

-- The node stands below `a` with a black sibling; the place asks for one black node more.
module _ (tree : RbTree) (s : Side) (c : Color) (q w a aw n pnode : ℕ) (is_right : Bool)
    (t x y : Tree) (k : List Frame)
    (place : IsAt tree q w (join s black x aw y) (below (other s) c a t ∷ k)) (balanced : IsRb t)
    (dark : root_color t ≡ black) (sibling : IsRb (join s black x aw y))
    (inner : black_height x ≡ black_height t) (above : IsBlackAbove c k)
    (path : IsRbPath (weight c + (1 + black_height t)) k) (more : 1 < n)
    (size : rounds c k < n) where
  abbrev order : List ℕ
  order = inorder (plug k (join s c t a (join s black x aw y)))

  -- Case 2: both children of the sibling are black.
  even-Goes :
      root_color x ≡ black → root_color y ≡ black → Goes order n pnode is_right (tail s q w tree)
  even-Goes ex ey =
      let (eyx, bx, by, ix, iy) = IsRb-join s black x aw y sibling in
      let v : Tree = join s red x aw y in
      let t1 : RbTree = rb_set_color w red tree in
      let u : Tree = join (other s) c v a t in
      let i1 = paint tree q w s black red x aw y (below (other s) c a t ∷ k) place in
      let q1 : ℕ = rb_parent t1 q in
      let i2 = up t1 q w v (below (other s) c a t) k i1 in
      let (iv, hv) = join-IsRb s red x aw y eyx ex ey ix iy in
      let (iu, hu) = join-IsRb (other s) black v a t (omega (arith, hv)) tt tt iv balanced in
      let hc = black_height-join (other s) c v a t (omega (arith, hv)) in
      let (e, nq, co, ch, it, ab) = place.above in
      subst (Goes order n pnode is_right)
        (sym (tail_case s q w tree true (both_black tree q w black x y aw s place.here ex ey)))
        (
          refl,
          record {
            q = q1;
            t = u;
            k = k;
            place = i2;
            balanced = subst IsRb (sym (blacken-join (other s) c v a t)) iu;
            path = subst (λ m. IsRbPath m k) (omega (arith, hc, hv)) path;
            order = inorder-plug u (join s c t a (join s black x aw y)) k (
                ap inorder (sym (join-other s c t a v))
                ∙ inorder-recolor s c c t a v (join s black x aw y)
                    (inorder-recolor s red black x aw y y refl));
            size = subst (λ d. rounds d k < n) (sym (root-join (other s) c v a t)) size;
            linked = inl (λ z. nq (sym e ∙ z));
          },
        )

  -- Case 4
  outer-Goes : root_color y ≡ red → Goes order n pnode is_right (tail s q w tree)
  outer-Goes ey =
      let (eyx, bx, by, ix, iy) = IsRb-join s black x aw y sibling in
      let (seen_x, seen_y) = child_black tree q w black x y aw s place.here in
      let seen = seen_y ∙ ap (λ d. not (is_red d)) ey in
      let t1 : RbTree = lift_sibling s q w tree in
      let (q1, i1) = lift_sibling-IsAt tree s c q w a aw t x y k place ey in
      subst (Goes order n pnode is_right)
        (sym (
          tail_case s q w tree false (one_red tree q w black x y aw (other s) seen)
          ∙ ap
              (λ o.
                (let (t2, w') = o in
                  let t3 : RbTree = lift_sibling s q w' t2 in (t3, t3.rb_root, false)))
              (outer_kept s w tree seen)))
        (
          refl,
          lifted-Short t1 s c q1 a aw n pnode is_right t x y k i1 balanced ix (blacken-IsRb y iy)
              inner (height-blacken y ey ∙ ap (λ m. 1 + m) (eyx ∙ inner)) above path more,
        )

  -- Case 3, and 4 after it.
  inner-Goes :
      (x1 x2 : Tree) (ax : ℕ)
      → x ≡ join s red x1 ax x2
      → root_color y ≡ black
      → Goes order n pnode is_right (tail s q w tree)
  inner-Goes x1 x2 ax ex ey =
      let (eyx, bx, by, ix, iy) = IsRb-join s black x aw y sibling in
      let (e21, b1, b2, ix1, ix2) = IsRb-join s red x1 ax x2 (subst IsRb ex ix) in
      let h1 = black_height-join s red x1 ax x2 e21 in
      let hx : black_height x ≡ weight red + black_height x1 = ap black_height ex ∙ h1 in
      let (seen_x, seen_y) = child_black tree q w black x y aw s place.here in
      let red_x =
        seen_x
        ∙ ap (λ d. not (is_red (root_color d))) ex
        ∙ ap (λ d. not (is_red d)) (root-join s red x1 ax x2) in
      let black_y = seen_y ∙ ap (λ d. not (is_red d)) ey in
      let v : Tree = join (other s) red y aw x2 in
      let out : RbTree × ℕ = black_outer s w tree in
      let i1 =
        black_outer-IsAt tree s c q w a aw ax t x1 x2 y k
          (subst (λ d. IsAt tree q w (join s black d aw y) (below (other s) c a t ∷ k)) ex place)
          black_y in
      let t3 : RbTree = lift_sibling s q out.1 out.0 in
      let (q2, i2) =
        lift_sibling-IsAt out.0 s c q out.1 a ax t x1 v k i1 (root-join (other s) red y aw x2) in
      let (iv, hv) = join-IsRb (other s) black y aw x2 (omega (arith, hx)) tt tt iy ix2 in
      let done =
        lifted-Short t3 s c q2 a ax n pnode is_right t x1 v k i2 balanced ix1
          (subst IsRb (sym (blacken-join (other s) red y aw x2)) iv) (omega (arith, hx))
          (ap black_height (blacken-join (other s) red y aw x2)
            ∙ hv
            ∙ ap (λ m. 1 + m) (eyx ∙ inner))
          above path more in
      subst (Goes order n pnode is_right)
        (sym (tail_case s q w tree false (one_red tree q w black x y aw s red_x)))
        (
          refl,
          subst (λ xs. Short xs n t3 pnode t3.rb_root is_right)
              (inorder-plug (join s c t a (join s black x1 ax v))
                (join s c t a (join s black x aw y)) k
                (inorder-recolor s c c t a (join s black x1 ax v) (join s black x aw y) (
                  inorder-recolor s black black x1 ax v (join s red x2 aw y)
                    (ap inorder (sym (join-other s red x2 aw y)))
                  ∙ sym (inorder-turn s black red red black x1 x2 y ax aw)
                  ∙ ap (λ d. inorder (join s black d aw y)) (sym ex))))
              done,
        )

  -- A round with a black sibling.
  pub tail-Goes : Goes order n pnode is_right (tail s q w tree)
  tail-Goes = elim (color_cases (root_color y)) [
    | inl ey ↦ outer-Goes ey
    | inr ey ↦ elim (color_cases (root_color x)) [
      | inl ex ↦ (let (x1, x2, ax, e) = red_join s x ex in inner-Goes x1 x2 ax e ey)
      | inr ex ↦ even-Goes ex ey
    ]
  ]
