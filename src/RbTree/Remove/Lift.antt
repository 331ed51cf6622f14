-- ===== src/RbTree/Remove/Lift.antt =====
-- The cases of `rb_delete_fixup` of src/common/ds/rbtree.c that rotate the sibling up.
use c_liber.Prelude.{ℕ, ◌≡◌, refl, ap, sym, ◌∙◌, true, List, ◌∷◌, if◌then◌else◌}
use mathlib.Core.Path.{subst}
use c_liber.RbTree.{
  RbTree, Color, Side, left, other, red, black, child_of, rb_parent, rb_color, rb_is_red,
  rb_is_black, rb_set_color, rotate,
}
use c_liber.RbTree.Erase.{red_sibling, black_outer, lift_sibling}
use c_liber.RbTree.Shape.{Tree, leaf, fork, join, IsAt, Frame, join-IsNode}
use c_liber.RbTree.Turn.{rotate-IsAt}
use c_liber.RbTree.Moves.{
  up, down, swap, swap_back, paint, join-other, root_color, is_red, reads_red,
}
use c_liber.RbTree.Balance.{blacken, root-join}
use c_liber.RbTree.Fixup.{same_address, not_black}

abbrev pub below : (s : Side) (c : Color) (a : ℕ) (u : Tree) → Frame
below s c a u = record { side = s; color = c; addr = a; sibling = u }

paint_black :
    (tree : RbTree) (q p : ℕ) (t : Tree) (k : List Frame)
    → IsAt tree q p t k
    → root_color t ≡ red
    → IsAt (rb_set_color p black tree) q p (blacken t) k
paint_black tree q p leaf k i e = not_black e
paint_black tree q p (fork c l a r) k i e = paint tree q p left c black l a r k i

-- The parent under a path is the address of its first node.
pub parent_addr :
    (tree tree' : RbTree) (q q' p p' a : ℕ) (s s' : Side) (c c' : Color) (t t' u u' : Tree)
    (k k' : List Frame)
    → IsAt tree q p t (below s c a u ∷ k)
    → IsAt tree' q' p' t' (below s' c' a u' ∷ k')
    → q' ≡ q
parent_addr tree tree' q q' p p' a s s' c c' t t' u u' k k' i i' =
    let (e, n, co, ch, it, above) = i.above in
    let (e', n', co', ch', it', above') = i'.above in e' ∙ sym e

-- Case 4: the sibling takes the parent's place and colour.
pub lift_sibling-IsAt :
    (tree : RbTree) (s : Side) (c : Color) (q w a aw : ℕ) (t x y : Tree) (k : List Frame)
    → IsAt tree q w (join s black x aw y) (below (other s) c a t ∷ k)
    → root_color y ≡ red
    → (q' : ℕ) × IsAt
        (lift_sibling s q w tree)
        q'
        aw
        (join s c (join s black t a x) aw (blacken y))
        k
unfolding lift_sibling
lift_sibling-IsAt tree s c q w a aw t x y k i e =
    let (eq, nq, co, ch, it, above) = i.above in
    let seen : rb_color tree q ≡ c = ap (rb_color tree) eq ∙ co in
    let v : Tree = join s c x aw y in
    let y' : Tree = blacken y in
    let t1 : RbTree = rb_set_color w c tree in
    let t2 : RbTree = rb_set_color q black t1 in
    let u : ℕ = child_of t2 (other s) w in
    let t3 : RbTree = rb_set_color u black t2 in
    let f : Frame = below (other s) c a t in
    let g : Frame = below (other s) black a t in
    let h : Frame = below (other s) c aw x in
    let i1 = paint tree q w s black c x aw y (f ∷ k) i in
    let q1 : ℕ = rb_parent t1 q in
    let i3 = paint t1 q1 q (other s) c black v a t k (up t1 q w v f k i1) in
    let i4 = down t2 q1 q (other s) black v a t k i3 in
    let i4' =
      subst (λ b. IsAt t2 q b v (g ∷ k))
        (same_address t1 t2 q q w (child_of t2 (other s) q) v i1.here i4.here) i4 in
    let i5 = down t2 q w (other s) c y aw x (g ∷ k) (swap t2 q w s c x aw y (g ∷ k) i4') in
    let i6 = paint_black t2 w u y (h ∷ g ∷ k) i5 e in
    let q2 : ℕ = rb_parent t3 w in
    let i7 = up t3 w u y' h (g ∷ k) i6 in
    let i7' =
      subst (λ b. IsAt t3 b w (join (other s) c y' aw x) (g ∷ k))
        (parent_addr tree t3 q q2 w w a (other s) (other s) c black (join s black x aw y)
          (join (other s) c y' aw x) t t k k i i7)
        i7 in
    let q3 : ℕ = rb_parent t3 q in
    let i8 = up t3 q w (join (other s) c y' aw x) g k i7' in
    let i9 = swap_back t3 q3 q s black t a (join (other s) c y' aw x) k i8 in
    (
      q3,
      subst
          (λ d.
            (let t1 : RbTree = rb_set_color w d tree in
              let t2 : RbTree = rb_set_color q black t1 in
              IsAt (rotate s q (rb_set_color (child_of t2 (other s) w) black t2)) q3 aw
                (join s c (join s black t a x) aw y') k))
          (sym seen)
          (rotate-IsAt t3 s black c a aw q3 q t x y' (join (other s) c y' aw x) k i9
            (sym (join-other s c x aw y'))),
    )

outer-black :
    (s : Side) (w : ℕ) (tree : RbTree)
    → rb_is_black tree (child_of tree (other s) w) ≡ true
    → black_outer s w tree ≡ (
        let t1 : RbTree = rb_set_color w red tree in
        let t2 : RbTree = rb_set_color (child_of t1 s w) black t1 in
        let t3 : RbTree = rotate (other s) w t2 in (t3, rb_parent t3 w))
unfolding black_outer
outer-black s w tree e =
    ap
      (λ b.
        (if b
          then (let t1 : RbTree = rb_set_color w red tree in
              let t2 : RbTree = rb_set_color (child_of t1 s w) black t1 in
              let t3 : RbTree = rotate (other s) w t2 in (t3, rb_parent t3 w))
          else (tree, w)))
      e

-- Case 3: the inner child of the sibling takes its place.
pub black_outer-IsAt :
    (tree : RbTree) (s : Side) (c : Color) (q w a aw ax : ℕ) (t x1 x2 y : Tree) (k : List Frame)
    → IsAt tree q w (join s black (join s red x1 ax x2) aw y) (below (other s) c a t ∷ k)
    → rb_is_black tree (child_of tree (other s) w) ≡ true
    → (let out = black_outer s w tree in
        IsAt out.0 q out.1
          (join s black x1 ax (join (other s) red y aw x2))
          (below (other s) c a t ∷ k))
black_outer-IsAt tree s c q w a aw ax t x1 x2 y k i e =
    let f : Frame = below (other s) c a t in
    let x : Tree = join s red x1 ax x2 in
    let x' : Tree = join s black x1 ax x2 in
    let t1 : RbTree = rb_set_color w red tree in
    let u : ℕ = child_of t1 s w in
    let t2 : RbTree = rb_set_color u black t1 in
    let t3 : RbTree = rotate (other s) w t2 in
    let v : Tree = join (other s) red y aw x2 in
    let i1 = paint tree q w s black red x aw y (f ∷ k) i in
    let i2 = down t1 q w s red x aw y (f ∷ k) i1 in
    let i3 = paint t1 w u s red black x1 ax x2 (below s red aw y ∷ f ∷ k) i2 in
    let q4 : ℕ = rb_parent t2 w in
    let i4 = up t2 w u x' (below s red aw y) (f ∷ k) i3 in
    let i5 = swap t2 q4 w s red x' aw y (f ∷ k) i4 in
    let i6 =
      rotate-IsAt t2 (other s) red black aw ax q4 w y x2 x1 x' (f ∷ k) i5
        (join-other s black x1 ax x2) in
    let b : ℕ = child_of t3 (other s) ax in
    let i7 = down t3 q4 ax (other s) black v ax x1 (f ∷ k) i6 in
    let (e1, n1, p1, c1, l1, r1) = join-IsNode t3.node ax b (other s) red y aw x2 i7.here in
    let (e2, n2, p2, c2, l2, r2) = join-IsNode tree.node q w s black x aw y i.here in
    let up_w : rb_parent t3 w ≡ ax = ap (rb_parent t3) e2 ∙ p1 in
    let i8 = swap_back t3 q4 ax s black x1 ax v (f ∷ k) i6 in
    subst (λ out. IsAt out.0 q out.1 (join s black x1 ax v) (f ∷ k)) (sym (outer-black s w tree e))
      (subst (λ d. IsAt t3 q d (join s black x1 ax v) (f ∷ k)) (sym up_w)
        (subst (λ d. IsAt t3 d ax (join s black x1 ax v) (f ∷ k))
          (parent_addr tree t3 q q4 w ax a (other s) (other s) c c (join s black x aw y)
            (join s black x1 ax v) t t k k i i8)
          i8))

pub sibling-red :
    (s : Side) (p w : ℕ) (tree : RbTree)
    → rb_is_red tree w ≡ true
    → red_sibling s p w tree ≡ (
        let t2 : RbTree = rotate s p (rb_set_color p red (rb_set_color w black tree)) in
        (t2, child_of t2 (other s) p))
unfolding red_sibling
sibling-red s p w tree e =
    ap
      (λ b.
        (if b
          then (let t1 : RbTree = rb_set_color p red (rb_set_color w black tree) in
              let t2 : RbTree = rotate s p t1 in (t2, child_of t2 (other s) p))
          else (tree, w)))
      e

-- Case 1: the parent gets a black sibling below it.
pub red_sibling-IsAt :
    (tree : RbTree) (s : Side) (c : Color) (q w a aw : ℕ) (t x y : Tree) (k : List Frame)
    → IsAt tree q w (join s red x aw y) (below (other s) c a t ∷ k)
    → (let out = red_sibling s q w tree in
        IsAt out.0 q out.1 x (below (other s) red a t ∷ below s black aw y ∷ k))
red_sibling-IsAt tree s c q w a aw t x y k i =
    let f : Frame = below (other s) c a t in
    let v : Tree = join s black x aw y in
    let t1 : RbTree = rb_set_color w black tree in
    let t2 : RbTree = rb_set_color q red t1 in
    let t3 : RbTree = rotate s q t2 in
    let i1 = paint tree q w s red black x aw y (f ∷ k) i in
    let q1 : ℕ = rb_parent t1 q in
    let i3 = paint t1 q1 q (other s) c red v a t k (up t1 q w v f k i1) in
    let i4 = swap_back t2 q1 q s red t a v k i3 in
    let i5 = rotate-IsAt t2 s red black a aw q1 q t x y v k i4 refl in
    let b : ℕ = child_of t3 s aw in
    let i6 = down t3 q1 aw s black (join s red t a x) aw y k i5 in
    let (e1, n1, p1, c1, l1, r1) = join-IsNode t3.node aw b s red t a x i6.here in
    let (e2, n2, p2, c2, l2, above) = i.above in
    let i7 =
      subst (λ d. IsAt t3 aw d (join s red t a x) (below s black aw y ∷ k)) (e1 ∙ sym e2) i6 in
    let i8 =
      down t3 aw q (other s) red x a t (below s black aw y ∷ k)
        (swap t3 aw q s red t a x (below s black aw y ∷ k) i7) in
    subst (λ out. IsAt out.0 q out.1 x (below (other s) red a t ∷ below s black aw y ∷ k))
      (sym (
        sibling-red s q w tree
          (reads_red tree q w (join s red x aw y) i.here ∙ ap is_red (root-join s red x aw y))))
      i8
