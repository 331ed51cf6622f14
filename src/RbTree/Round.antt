-- ===== src/RbTree/Round.antt =====
-- The loop of `rb_insert_fixup` of src/common/ds/rbtree.c.
use c_liber.Prelude.{
  ℕ, suc, ◌≡◌, refl, ap, ap₂, sym, ◌∙◌, true, false, List, [], ◌∷◌, length, if◌then◌else◌,
}
use mathlib.Core.Path.{subst}
use c_liber.RbTree.{
  RbTree, Color, Side, left, right, other, red, black, child_of, rb_parent, rb_gparent, rb_is_child,
  rb_is_red,
}
use c_liber.RbTree.Insert.{rebalance, recolor, fixup_at, fixup_round}
use c_liber.RbTree.Shape.{Tree, leaf, fork, join, IsAt, Frame, plug, inorder}
use c_liber.RbTree.Moves.{up, root_color, path_color, is_red, reads_red, is_child}
use c_liber.RbTree.Balance.{black_height, IsRb, IsRbPath, IsBlackAbove}
use c_liber.RbTree.Fixup.{Loose, red_node, not_black, rebalance-straight, rebalance_bent}
use c_liber.RbTree.Cases.{straight-Loose, bent-Loose, recolor-Loose}

abbrev pub IsLoose : List ℕ → ℕ → RbTree × ℕ → Type 0
IsLoose xs n out = Loose xs n out.0 out.1

abbrev below : (s : Side) (c : Color) (a : ℕ) (u : Tree) → Frame
below s c a u = record { side = s; color = c; addr = a; sibling = u }

in_line-Loose :
    (tree : RbTree) (s : Side) (q p af ag : ℕ) (t u v : Tree) (k : List Frame)
    → IsAt tree q p t (below s red af u ∷ below s black ag v ∷ k)
    → root_color t ≡ red
    → root_color v ≡ black
    → IsRb t
    → IsRbPath (black_height t) (below s red af u ∷ below s black ag v ∷ k)
    → IsLoose
        (inorder (plug k (join s black (join s red t af u) ag v)))
        (suc (suc (length k)))
        (rebalance s p tree)
in_line-Loose tree s q p af ag t u v k i top bv it path =
    let node = red_node tree q p t i.here top in
    let (is, is_not) = is_child tree q p t (below s red af u) (below s black ag v ∷ k) i node in
    subst
      (IsLoose (inorder (plug k (join s black (join s red t af u) ag v))) (suc (suc (length k))))
      (sym (rebalance-straight s p tree is_not))
      (straight-Loose tree s q p af ag t u v k i top bv it path)

between-Loose :
    (tree : RbTree) (s : Side) (q p af ag a : ℕ) (l r u v : Tree) (k : List Frame)
    → IsAt tree q p (join s red l a r) (below (other s) red af u ∷ below s black ag v ∷ k)
    → root_color (join s red l a r) ≡ red
    → root_color v ≡ black
    → IsRb (join s red l a r)
    → IsRbPath (black_height (join s red l a r)) (below (other s) red af u ∷ below s black ag v ∷ k)
    → IsLoose
        (inorder (plug k (join s black (join (other s) red (join s red l a r) af u) ag v)))
        (suc (suc (length k)))
        (rebalance s p tree)
between-Loose tree s q p af ag a l r u v k i top bv it path =
    let t : Tree = join s red l a r in
    let (par, n) = red_node tree q p t i.here top in
    let (is, is_not) =
      is_child tree q p t (below (other s) red af u) (below s black ag v ∷ k) i (par, n) in
    subst
      (IsLoose (inorder (plug k (join s black (join (other s) red t af u) ag v)))
        (suc (suc (length k))))
      (sym (rebalance_bent s p q tree is par))
      (bent-Loose tree s q p af ag a l r u v k i bv it path)

-- The uncle is black.
rebalance-Loose :
    (tree : RbTree) (sf sg : Side) (q p af ag : ℕ) (t u v : Tree) (k : List Frame)
    → IsAt tree q p t (below sf red af u ∷ below sg black ag v ∷ k)
    → root_color t ≡ red
    → root_color v ≡ black
    → IsRb t
    → IsRbPath (black_height t) (below sf red af u ∷ below sg black ag v ∷ k)
    → IsLoose
        (inorder (plug k (join sg black (join sf red t af u) ag v)))
        (suc (suc (length k)))
        (rebalance sg p tree)
rebalance-Loose tree left left q p af ag t u v k i top bv it path =
    in_line-Loose tree left q p af ag t u v k i top bv it path
rebalance-Loose tree right right q p af ag t u v k i top bv it path =
    in_line-Loose tree right q p af ag t u v k i top bv it path
rebalance-Loose tree sf sg q p af ag leaf u v k i top bv it path = not_black top
rebalance-Loose tree sf sg q p af ag (fork black l a r) u v k i top bv it path = not_black top
rebalance-Loose tree left right q p af ag (fork red l a r) u v k i top bv it path =
    between-Loose tree right q p af ag a r l u v k i top bv it path
rebalance-Loose tree right left q p af ag (fork red l a r) u v k i top bv it path =
    between-Loose tree left q p af ag a l r u v k i top bv it path

-- What the code reads of the uncle.
uncle_red :
    (tree : RbTree) (sf sg : Side) (q p af ag : ℕ) (t u v : Tree) (k : List Frame)
    → IsAt tree q p t (below sf red af u ∷ below sg black ag v ∷ k)
    → rb_is_red tree (child_of tree (other sg) (rb_parent tree q)) ≡ is_red (root_color v)
uncle_red tree sf sg q p af ag t u v k i =
    let (e, n, co, ch, iv, above) =
      (up tree q p t (below sf red af u) (below sg black ag v ∷ k) i).above in
    ap (λ a. rb_is_red tree (child_of tree (other sg) a)) e
    ∙ reads_red tree ag (child_of tree (other sg) ag) v iv

fixup_at-recolor :
    (s : Side) (p : ℕ) (tree : RbTree)
    → rb_is_red tree (child_of tree (other s) (rb_gparent tree p)) ≡ true
    → fixup_at s p tree ≡ recolor p (child_of tree (other s) (rb_gparent tree p)) tree
unfolding fixup_at
fixup_at-recolor s p tree e =
    ap
      (λ b.
        if b
        then recolor p (child_of tree (other s) (rb_gparent tree p)) tree
        else rebalance s p tree)
      e

fixup_at-rebalance :
    (s : Side) (p : ℕ) (tree : RbTree)
    → rb_is_red tree (child_of tree (other s) (rb_gparent tree p)) ≡ false
    → fixup_at s p tree ≡ rebalance s p tree
unfolding fixup_at
fixup_at-rebalance s p tree e =
    ap
      (λ b.
        if b
        then recolor p (child_of tree (other s) (rb_gparent tree p)) tree
        else rebalance s p tree)
      e

fixup_round-fixup_at :
    (s : Side) (p q : ℕ) (tree : RbTree)
    → rb_parent tree p ≡ q
    → (rb_is_child tree s q ≡ true) × (rb_is_child tree (other s) q ≡ false)
    → fixup_round p tree ≡ fixup_at s p tree
unfolding fixup_round
fixup_round-fixup_at left p q tree par (e, e') =
    ap (λ b. if b then fixup_at left p tree else fixup_at right p tree)
      (ap (rb_is_child tree left) par ∙ e)
fixup_round-fixup_at right p q tree par (e, e') =
    ap (λ b. if b then fixup_at left p tree else fixup_at right p tree)
      (ap (rb_is_child tree left) par ∙ e')

black_uncle :
    (tree : RbTree) (sf sg : Side) (q p af ag : ℕ) (t u v : Tree) (k : List Frame)
    → IsAt tree q p t (below sf red af u ∷ below sg black ag v ∷ k)
    → root_color t ≡ red
    → root_color v ≡ black
    → IsRb t
    → IsRbPath (black_height t) (below sf red af u ∷ below sg black ag v ∷ k)
    → IsLoose
        (inorder (plug k (join sg black (join sf red t af u) ag v)))
        (suc (suc (length k)))
        (fixup_at sg p tree)
black_uncle tree sf sg q p af ag t u v k i top bv it path =
    let (par, n) = red_node tree q p t i.here top in
    subst
      (IsLoose (inorder (plug k (join sg black (join sf red t af u) ag v))) (suc (suc (length k))))
      (sym (
        fixup_at-rebalance sg p tree (
          ap (λ a. rb_is_red tree (child_of tree (other sg) a)) (ap (rb_parent tree) par)
          ∙ uncle_red tree sf sg q p af ag t u v k i
          ∙ ap is_red bv)))
      (rebalance-Loose tree sf sg q p af ag t u v k i top bv it path)

fixup_at-Loose :
    (tree : RbTree) (sf sg : Side) (q p af ag : ℕ) (t u v : Tree) (k : List Frame)
    → IsAt tree q p t (below sf red af u ∷ below sg black ag v ∷ k)
    → root_color t ≡ red
    → IsRb t
    → IsRbPath (black_height t) (below sf red af u ∷ below sg black ag v ∷ k)
    → IsLoose
        (inorder (plug k (join sg black (join sf red t af u) ag v)))
        (suc (suc (length k)))
        (fixup_at sg p tree)
fixup_at-Loose tree sf sg q p af ag t u (fork red l av r) k i top it path =
    let (par, n) = red_node tree q p t i.here top in
    let same = ap (rb_parent tree) par in
    let xs = inorder (plug k (join sg black (join sf red t af u) ag (fork red l av r))) in
    subst (IsLoose xs (suc (suc (length k))))
      (ap (λ a. recolor p (child_of tree (other sg) a) tree) (sym same)
        ∙ sym (
            fixup_at-recolor sg p tree (
              ap (λ a. rb_is_red tree (child_of tree (other sg) a)) same
              ∙ uncle_red tree sf sg q p af ag t u (fork red l av r) k i)))
      (recolor-Loose tree sf sg q p af ag av t u l r k i top it path)
fixup_at-Loose tree sf sg q p af ag t u leaf k i top it path =
    black_uncle tree sf sg q p af ag t u leaf k i top refl it path
fixup_at-Loose tree sf sg q p af ag t u (fork black l a r) k i top it path =
    black_uncle tree sf sg q p af ag t u (fork black l a r) k i top refl it path

-- A round brings the node nearer to the root, and keeps the order of the nodes.
pub round-Loose :
    (tree : RbTree) (q p : ℕ) (t : Tree) (k : List Frame)
    → IsAt tree q p t k
    → root_color t ≡ red
    → IsRb t
    → IsRbPath (black_height t) k
    → path_color k ≡ red
    → IsLoose (inorder (plug k t)) (length k) (fixup_round p tree)
round-Loose tree q p t [] i top it path e = not_black e
round-Loose tree q p t (f ∷ []) i top it (ef, iu, bu, ab, rest) e =
    absurd (subst (λ c. IsBlackAbove c []) e ab)
round-Loose tree q p t (f ∷ g ∷ k) i top it path e =
    let (ef, iu, bu, ab, rest) = path in
    let e' : g.color ≡ black = subst (λ c. IsBlackAbove c (g ∷ k)) e ab in
    let as_below : f ∷ g ∷ k
        ≡ below f.side red f.addr f.sibling ∷ below g.side black g.addr g.sibling ∷ k =
      ap₂ (λ c d. below f.side c f.addr f.sibling ∷ below g.side d g.addr g.sibling ∷ k) e e' in
    let (at_q, nq, x1, x2, x3, x4) = i.above in
    let (par, n) = red_node tree q p t i.here top in
    let side =
      is_child tree (rb_parent tree q) q (join f.side f.color t f.addr f.sibling) g k
        (up tree q p t f (g ∷ k) i) (refl, λ z. nq (sym at_q ∙ z)) in
    subst (λ v. IsLoose (inorder (plug v t)) (length v) (fixup_round p tree)) (sym as_below)
      (subst
        (IsLoose
          (inorder
            (plug k (join g.side black (join f.side red t f.addr f.sibling) g.addr g.sibling)))
          (suc (suc (length k))))
        (sym (fixup_round-fixup_at g.side p q tree par side))
        (fixup_at-Loose tree f.side g.side q p f.addr g.addr t f.sibling g.sibling k
          (subst (λ v. IsAt tree q p t v) as_below i) top it
          (subst (λ v. IsRbPath (black_height t) v) as_below path)))
