-- ===== src/RbTree/Cases.antt =====
-- The three cases of a round of `rb_insert_fixup` of src/common/ds/rbtree.c.
use c_liber.Prelude.{ℕ, suc, ◌+◌, ◌≡◌, refl, ap, sym, ◌∙◌, List, ◌∷◌, length, arith}
use mathlib.Core.Path.{subst}
use c_liber.RbTree.{
  RbTree, Side, left, other, red, black, child_of, rb_parent, rb_set_color, rotate,
}
use c_liber.RbTree.Insert.{recolor}
use c_liber.RbTree.Shape.{Tree, fork, join, IsAt, Frame, plug, inorder, join-IsNode}
use c_liber.RbTree.Turn.{rotate-IsAt}
use c_liber.RbTree.Moves.{up, down, swap, swap_back, paint, root_color, join-other}
use c_liber.RbTree.Balance.{
  weight, black_height, IsRb, IsRbPath, join-IsRb, IsRb-join, inorder-plug, inorder-turn,
  inorder-join, root-join, inorder-recolor,
}
use c_liber.RbTree.Fixup.{
  Loose, red_node, same_address, straight, straight-stores, recolor-stores, child-rb_set_color,
}

-- Case 3: the node, its parent and its grandparent stand in one line.
pub straight-Loose :
    (tree : RbTree) (s : Side) (q p af ag : ℕ) (t u v : Tree) (k : List Frame)
    → IsAt tree q p t (
        record { side = s; color = red; addr = af; sibling = u }
        ∷ record { side = s; color = black; addr = ag; sibling = v }
        ∷ k)
    → root_color t ≡ red
    → root_color v ≡ black
    → IsRb t
    → IsRbPath (black_height t) (
        record { side = s; color = red; addr = af; sibling = u }
        ∷ record { side = s; color = black; addr = ag; sibling = v }
        ∷ k)
    → Loose
        (inorder (plug k (join s black (join s red t af u) ag v)))
        (suc (suc (length k)))
        (straight s p tree).0
        (straight s p tree).1
straight-Loose tree s q p af ag t u v k i top bv it (eu, iu, bu, up', (ev, iv, bl, ab, rest)) =
    let (par, n) = red_node tree q p t i.here top in
    let q2 : ℕ = rb_parent tree q in
    let t1 : RbTree = rb_set_color q black tree in
    let t2 : RbTree = rb_set_color q2 red t1 in
    let i1 =
      up tree q p t record { side = s; color = red; addr = af; sibling = u }
        (record { side = s; color = black; addr = ag; sibling = v } ∷ k) i in
    let i2 =
      paint tree q2 q s red black t af u
        (record { side = s; color = black; addr = ag; sibling = v } ∷ k) i1 in
    let q3 : ℕ = rb_parent t1 q2 in
    let i3 =
      up t1 q2 q (join s black t af u) record { side = s; color = black; addr = ag; sibling = v } k
        i2 in
    let i4 = paint t1 q3 q2 s black red (join s black t af u) ag v k i3 in
    let i5 = swap t2 q3 q2 s red (join s black t af u) ag v k i4 in
    let t3 : RbTree = rotate (other s) q2 t2 in
    let i6 : IsAt t3 q3 af (join (other s) black (join (other s) red v ag u) af t) k =
      rotate-IsAt t2 (other s) red black ag af q3 q2 v u t (join s black t af u) k i5
        (join-other s black t af u) in
    let i7 = swap_back t3 q3 af s black t af (join (other s) red v ag u) k i6 in
    let i8 = down t3 q3 af s black t af (join (other s) red v ag u) k i7 in
    let zero_plus : 0 + black_height t ≡ black_height t = omega arith in
    let ev' = ev ∙ zero_plus in
    let (ij, hj) = join-IsRb (other s) red v ag u (eu ∙ sym ev') bv bu iv iu in
    let f' : Frame = record {
      side = s;
      color = black;
      addr = af;
      sibling = join (other s) red v ag u;
    } in
    subst
      (λ r.
        Loose (inorder (plug k (join s black (join s red t af u) ag v))) (suc (suc (length k))) r.0
          r.1)
      (sym (straight-stores s p q q2 tree par refl))
      (record {
        q = af;
        t = t;
        k = f' ∷ k;
        place =
            subst (λ a. IsAt t3 af a t (f' ∷ k))
              (same_address tree t3 q af p (child_of t3 s af) t i.here i8.here) i8;
        top = top;
        balanced = it;
        path =
            (hj ∙ omega (arith, ev'), ij, tt, tt, subst (λ n. IsRbPath (1 + n) k) zero_plus rest);
        order =
            inorder-plug (join s black t af (join (other s) red v ag u))
              (join s black (join s red t af u) ag v) k
              (ap (λ w. inorder (join s black t af w)) (sym (join-other s red u ag v))
                ∙ sym (inorder-turn s black red red black t u v af ag));
        size = omega arith;
      })

-- Case 2: the node stands between its parent and its grandparent.
pub bent-Loose :
    (tree : RbTree) (s : Side) (q p af ag a : ℕ) (l r u v : Tree) (k : List Frame)
    → IsAt tree q p (join s red l a r) (
        record { side = other s; color = red; addr = af; sibling = u }
        ∷ record { side = s; color = black; addr = ag; sibling = v }
        ∷ k)
    → root_color v ≡ black
    → IsRb (join s red l a r)
    → IsRbPath (black_height (join s red l a r)) (
        record { side = other s; color = red; addr = af; sibling = u }
        ∷ record { side = s; color = black; addr = ag; sibling = v }
        ∷ k)
    → Loose
        (inorder (plug k (join s black (join (other s) red (join s red l a r) af u) ag v)))
        (suc (suc (length k)))
        (straight s q (rotate s q tree)).0
        (straight s q (rotate s q tree)).1
bent-Loose tree s q p af ag a l r u v k i bv it (eu, iu, bu, up', rest) =
    let t : Tree = join s red l a r in
    let g : Frame = record { side = s; color = black; addr = ag; sibling = v } in
    let q2 : ℕ = rb_parent tree q in
    let t1 : RbTree = rotate s q tree in
    let (er, bl, br, il, ir) = IsRb-join s red l a r it in
    let (it', ht) = join-IsRb s red l a r er bl br il ir in
    let (ij, hj) = join-IsRb s red u af l (omega (arith, ht)) bu bl iu il in
    let same : black_height (join s red u af l) ≡ black_height t = omega arith in
    let (e, y1, y2, y3, y4, y5) = i.above in
    let i1 =
      up tree q p t record { side = other s; color = red; addr = af; sibling = u } (g ∷ k) i in
    let i2 = swap_back tree q2 q s red u af t (g ∷ k) i1 in
    let i3 = rotate-IsAt tree s red red af a q2 q u l r t (g ∷ k) i2 refl in
    let i4 = down t1 q2 a s red (join s red u af l) a r (g ∷ k) i3 in
    let f' : Frame = record { side = s; color = red; addr = a; sibling = r } in
    let (e', n', x1, x2, x3, x4) = join-IsNode t1.node a (child_of t1 s a) s red u af l i4.here in
    let out =
      straight-Loose t1 s a q a ag (join s red u af l) r v k
        (subst (λ b. IsAt t1 a b (join s red u af l) (f' ∷ g ∷ k)) (e' ∙ sym e) i4)
        (root-join s red u af l) bv ij
        (
          omega (arith, hj),
          ir,
          br,
          refl,
          subst (λ n. IsRbPath (weight red + n) (g ∷ k)) (sym same) rest,
        ) in
    subst (λ xs. Loose xs (suc (suc (length k))) (straight s q t1).0 (straight s q t1).1)
      (inorder-plug (join s black (join s red (join s red u af l) a r) ag v)
        (join s black (join (other s) red t af u) ag v) k
        (inorder-join s black (join s red (join s red u af l) a r) ag v (join (other s) red t af u)
          (inorder-turn s red red red red u l r af a ∙ ap inorder (join-other s red u af t))))
      out

-- Case 1: the uncle is red.
pub recolor-Loose :
    (tree : RbTree) (sf sg : Side) (q p af ag av : ℕ) (t u l r : Tree) (k : List Frame)
    → IsAt tree q p t (
        record { side = sf; color = red; addr = af; sibling = u }
        ∷ record { side = sg; color = black; addr = ag; sibling = fork red l av r }
        ∷ k)
    → root_color t ≡ red
    → IsRb t
    → IsRbPath (black_height t) (
        record { side = sf; color = red; addr = af; sibling = u }
        ∷ record { side = sg; color = black; addr = ag; sibling = fork red l av r }
        ∷ k)
    → (let out = recolor p (child_of tree (other sg) (rb_parent tree q)) tree in
        Loose
          (inorder (plug k (join sg black (join sf red t af u) ag (fork red l av r))))
          (suc (suc (length k)))
          out.0
          out.1)
recolor-Loose tree sf sg q p af ag av t u l r k i top it (eu, iu, bu, up', (ev, iv, bl, ab, rest)) =
    let (par, n) = red_node tree q p t i.here top in
    let v : Tree = fork red l av r in
    let v' : Tree = fork black l av r in
    let j : Tree = join sf black t af u in
    let f : Frame = record { side = sf; color = red; addr = af; sibling = u } in
    let g : Frame = record { side = sg; color = black; addr = ag; sibling = v } in
    let h : Frame = record { side = other sg; color = black; addr = ag; sibling = j } in
    let q2 : ℕ = rb_parent tree q in
    let t1 : RbTree = rb_set_color q black tree in
    let i2 = paint tree q2 q sf red black t af u (g ∷ k) (up tree q p t f (g ∷ k) i) in
    let q3 : ℕ = rb_parent t1 q2 in
    let i4 = swap t1 q3 q2 sg black j ag v k (up t1 q2 q j g k i2) in
    let i5 = down t1 q3 q2 (other sg) black v ag j k i4 in
    let uncle : ℕ = child_of t1 (other sg) q2 in
    let t2 : RbTree = rb_set_color uncle black t1 in
    let i6 = paint t1 q2 uncle left red black l av r (h ∷ k) i5 in
    let i7 = up t2 q2 uncle v' h k i6 in
    let i8 = paint t2 (rb_parent t2 q2) q2 (other sg) black red v' ag j k i7 in
    let (ij, hj) = join-IsRb sf black t af u eu tt tt it iu in
    let (vh, vl, vr, vil, vir) = iv in
    let (ix, hx) =
      join-IsRb (other sg) red v' ag j (omega (arith, hj, ev)) refl (root-join sf black t af u)
        (vh, tt, tt, vil, vir) ij in
    subst
      (λ out.
        Loose (inorder (plug k (join sg black (join sf red t af u) ag v))) (suc (suc (length k)))
          out.0 out.1)
      (sym (
        recolor-stores tree p q q2 (child_of tree (other sg) q2) par refl
        ∙ ap (λ b. (rb_set_color q2 red (rb_set_color b black t1), q2))
            (sym (child-rb_set_color (other sg) q q2 black tree))))
      (record {
        q = rb_parent t2 q2;
        t = join (other sg) red v' ag j;
        k = k;
        place = i8;
        top = root-join (other sg) red v' ag j;
        balanced = ix;
        path = subst (λ m. IsRbPath m k) (omega (arith, hx, ev)) rest;
        order =
            inorder-plug (join (other sg) red v' ag j) (join sg black (join sf red t af u) ag v) k (
              ap inorder (sym (join-other sg red j ag v'))
              ∙ inorder-recolor sg red black j ag v' v refl
              ∙ inorder-join sg black j ag v (join sf red t af u)
                  (inorder-recolor sf black red t af u u refl));
        size = omega arith;
      })
