-- ===== src/RbTree/Remove/End.antt =====
-- The end of `rb_erase` of src/common/ds/rbtree.c: the fixup where a black node was taken out, and the
-- orphan.
use c_liber.Prelude.{
  ℕ, ◌+◌, ◌<◌, ◌≡◌, refl, ap, sym, ◌∙◌, Bool, true, false, List, [], ◌∷◌, length, count, arith, ◌⊎◌,
  inl, inr, if◌then◌else◌, ◌==◌, none, some, Bool-cases,
}
use mathlib.Core.Path.{subst}
use c_liber.RbTree.{RbTree, RbNode, Color, red, black, rb_set_color, root-update}
use c_liber.RbTree.Erase.{rb_make_orphan, rb_delete_fixup, delete_loop, erase_end}
use c_liber.RbTree.Shape.{Tree, leaf, fork, IsTree, IsAt, Frame, plug, inorder}
use c_liber.RbTree.Moves.{root_color}
use c_liber.RbTree.Balance.{
  weight, black_height, IsRb, IsRbPath, IsBlackAbove, IsBlackUnder, blacken-IsRb, plug-IsRb,
}
use c_liber.RbTree.Loop.{IsRbTree, whole}
use c_liber.RbTree.Insertion.{update-IsAt}
use c_liber.RbTree.Refine.{in_tree-count}
use c_liber.RbTree.Remove.Short.{IsOnSide, blacken_black, root-plug, end-IsRbTree}
use c_liber.RbTree.Remove.Loop.{delete_loop-IsRbTree, rounds-le}

rb_make_orphan-IsRbTree :
    (n : ℕ) (xs : List ℕ) (tree : RbTree)
    → count n xs ≡ 0
    → IsRbTree xs tree
    → IsRbTree xs (rb_make_orphan n tree)
rb_make_orphan-IsRbTree n xs tree gone r =
    let lone : RbNode → RbNode = λ b. record b { parent = n; color = red } in
    let absent = in_tree-count n r.shape ∙ ap (count n) r.order ∙ gone in
    record {
      shape = r.shape;
      stored =
          subst (λ p. IsAt (rb_make_orphan n tree) 0 p r.shape []) (sym (root-update n lone tree))
            (update-IsAt n 0 tree.rb_root lone tree r.shape [] (omega arith) r.stored);
      balanced = r.balanced;
      root_black = r.root_black;
      order = r.order;
    }

fixup-null :
    (fuel q cld : ℕ) (is_right b : Bool) (tree : RbTree)
    → (q == 0) ≡ b
    → rb_delete_fixup fuel q cld is_right tree ≡ (
        if b
        then some (if cld == 0 then tree else rb_set_color cld black tree)
        else delete_loop fuel q cld is_right tree)
unfolding rb_delete_fixup
fixup-null fuel q cld is_right b tree e =
    ap
      (λ b.
        if b
        then some (if cld == 0 then tree else rb_set_color cld black tree)
        else delete_loop fuel q cld is_right tree)
      e

pub empty_here : (h : ℕ → RbNode) (q p : ℕ) (t : Tree) → IsTree h q p t → p ≡ 0 → t ≡ leaf
empty_here h q p leaf i e = refl
empty_here h q p (fork c l a r) (e', n, par, co, il, ir) e = absurd (n (sym e' ∙ e))

-- Where a black node was taken out.
rb_delete_fixup-IsRbTree :
    (fuel q cld : ℕ) (is_right : Bool) (tree : RbTree) (v : Tree) (k : List Frame)
    → IsAt tree q cld v k
    → IsRb v
    → IsRbPath (1 + black_height v) k
    → k ≡ [] ⊎ IsOnSide is_right k
    → 1 + length k < fuel
    → (tree' : RbTree) × (rb_delete_fixup fuel q cld is_right tree ≡ some tree')
      × IsRbTree (inorder (plug k v)) tree'
rb_delete_fixup-IsRbTree fuel q cld is_right tree v [] i iv path side enough =
    let top : (q == 0) ≡ true = (let e = i.above.0 in ground arith) in
    let start = fixup-null fuel q cld is_right true tree top in
    elim (Bool-cases (cld == 0)) [
      | inl e ↦
          (let none_left = empty_here tree.node q cld v i.here (ground arith) in
            (
              tree,
              start ∙ ap (λ b. some (if b then tree else rb_set_color cld black tree)) e,
              record {
                shape = v;
                stored = whole tree q cld v [] i;
                balanced = iv;
                root_black = ap root_color none_left;
                order = refl;
              },
            ))
      | inr e ↦ (
        rb_set_color cld black tree,
        start ∙ ap (λ b. some (if b then tree else rb_set_color cld black tree)) e,
        end-IsRbTree (inorder v) tree q cld v [] i (blacken-IsRb v iv) tt refl (λ z. ground arith)
            (inr refl),
      )
    ]
rb_delete_fixup-IsRbTree fuel q cld is_right tree v (f ∷ k) i iv path side enough =
    let below : (q == 0) ≡ false = (let (e, n, co, ch, it, above) = i.above in ground arith) in
    let on_side : IsOnSide is_right (f ∷ k) = elim side [
      | inl e ↦ absurd (ground (arith, ap length e))
      | inr s ↦ s
    ] in
    let (tree', e, r) =
      delete_loop-IsRbTree fuel (inorder (plug (f ∷ k) v)) tree q cld is_right (record {
        q = q;
        t = v;
        k = f ∷ k;
        place = i;
        balanced = blacken-IsRb v iv;
        path = path;
        order = refl;
        size = (let few = rounds-le (root_color v) (f ∷ k) in omega arith);
        linked = inr (refl, on_side);
      }) in
    (tree', fixup-null fuel q cld is_right false tree below ∙ e, r)

end-black :
    (fuel n q cld : ℕ) (is_right : Bool) (tree t : RbTree)
    → rb_delete_fixup fuel q cld is_right tree ≡ some t
    → erase_end fuel n black q cld is_right tree ≡ some (rb_make_orphan n t)
unfolding erase_end
end-black fuel n q cld is_right tree t e =
    ap (λ o. elim o [ none ↦ none | some t ↦ some (rb_make_orphan n t) ]) e

end-red :
    (fuel n q cld : ℕ) (is_right : Bool) (tree : RbTree)
    → erase_end fuel n red q cld is_right tree ≡ some (rb_make_orphan n tree)
unfolding erase_end
end-red fuel n q cld is_right tree = refl

-- A node of colour `c` was taken out from above `v`.
pub erase_end-IsRbTree :
    (fuel n q cld : ℕ) (c : Color) (is_right : Bool) (tree : RbTree) (v : Tree) (k : List Frame)
    → IsAt tree q cld v k
    → IsRb v
    → IsBlackUnder c v
    → IsBlackAbove c k
    → IsRbPath (weight c + black_height v) k
    → k ≡ [] ⊎ IsOnSide is_right k
    → count n (inorder (plug k v)) ≡ 0
    → 1 + length k < fuel
    → (tree' : RbTree) × (erase_end fuel n c q cld is_right tree ≡ some tree')
      × IsRbTree (inorder (plug k v)) tree'
erase_end-IsRbTree fuel n q cld black is_right tree v k i iv bu ba path side gone enough =
    let (t, e, r) = rb_delete_fixup-IsRbTree fuel q cld is_right tree v k i iv path side enough in
    (
      rb_make_orphan n t,
      end-black fuel n q cld is_right tree t e,
      rb_make_orphan-IsRbTree n (inorder (plug k v)) t gone r,
    )
erase_end-IsRbTree fuel n q cld red is_right tree v k i iv bu ba path side gone enough =
    let path' = subst (λ m. IsRbPath m k) (zero_plus (black_height v)) path in
    let dark = root-plug v k (black_height v) path' (subst (λ c. IsBlackAbove c k) (sym bu) tt) in
    (
      rb_make_orphan n tree,
      end-red fuel n q cld is_right tree,
      rb_make_orphan-IsRbTree n (inorder (plug k v)) tree gone (record {
        shape = plug k v;
        stored = whole tree q cld v k i;
        balanced = subst IsRb (blacken_black (plug k v) dark) (plug-IsRb v k iv path' (inl bu));
        root_black = dark;
        order = refl;
      }),
    )
  where
    zero_plus : (m : ℕ) → 0 + m ≡ m
    zero_plus m = omega arith
