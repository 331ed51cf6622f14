-- ===== src/RbTree/Attach.antt =====
-- The end of the search of `rb_insert` in src/common/ds/rbtree.c: the new leaf.
use c_liber.Prelude.{
  ℕ, ◌<◌, ◌≡◌, ◌≢◌, refl, ap, sym, ◌∙◌, Bool, true, false, List, [], ◌∷◌, arith, if◌then◌else◌,
  ◌==◌,
}
use mathlib.Core.Path.{subst}
use c_liber.RbTree.{
  RbTree, Side, left, right, red, rb_set_parent, set_child, set_root, with_child, with_parent,
  at_update, off_update, root-update,
}
use c_liber.RbTree.Insert.{attach}
use c_liber.RbTree.Shape.{leaf, fork, IsPath, IsAt, Frame, in_path}
use c_liber.RbTree.Turn.{IsStored, move-IsPath}
use c_liber.RbTree.Insertion.{IsToward, toward}

module _ (less : ℕ → ℕ → Bool) (n : ℕ) where
  side_choice :
      (b : Bool) (q : ℕ) (tree : RbTree)
      → (if b then set_child left q n tree else set_child right q n tree)
        ≡ set_child (if b then left else right) q n tree
  side_choice true q tree = refl
  side_choice false q tree = refl

  attach-under :
      (q : ℕ) (tree : RbTree)
      → q ≢ 0
      → attach less n q tree ≡ set_child (toward less n q) q n (rb_set_parent n q tree)
  unfolding attach
  attach-under q tree m =
      let t1 : RbTree = rb_set_parent n q tree in
      let null : (q == 0) ≡ false = ground arith in
      ap
        (λ b.
          if b
          then set_root n t1
          else if less n q
          then set_child left q n t1
          else set_child right q n t1)
        null
      ∙ side_choice (less n q) q t1

  attach-null :
      (q : ℕ) (tree : RbTree) → q ≡ 0 → attach less n q tree ≡ set_root n (rb_set_parent n q tree)
  unfolding attach
  attach-null q tree e =
      let t1 : RbTree = rb_set_parent n q tree in
      let null : (q == 0) ≡ true = ground arith in
      ap
        (λ b.
          if b
          then set_root n t1
          else if less n q
          then set_child left q n t1
          else set_child right q n t1)
        null

  -- The new leaf stands in its place; its children were set to NULL before.
  record Attached (q : ℕ) (k : List Frame) (tree tree' : RbTree) : Type 0 where
    pub at_new : tree'.node n ≡ with_parent q (tree.node n)
    pub stored : IsStored tree.node tree'.node tree'.rb_root n k
    pub elsewhere : (a : ℕ) → a ≢ n → a ≢ q → tree'.node a ≡ tree.node a
    pub root : q ≢ 0 → tree'.rb_root ≡ tree.rb_root

  attach-Attached :
      (q : ℕ) (k : List Frame) (tree : RbTree)
      → IsPath tree.node tree.rb_root q 0 k
      → IsToward less n k
      → in_path n k ≡ 0
      → Attached q k tree (attach less n q tree)
  attach-Attached q [] tree (e, r) side o =
      subst (Attached q [] tree) (sym (attach-null q tree e)) (record {
        at_new = at_update n (with_parent q) tree;
        stored = refl;
        elsewhere = λ a an aq. off_update n a (with_parent q) tree an;
        root = λ m. absurd (m e);
      })
  attach-Attached q (f ∷ k) tree (e, m, co, ch, it, above) side o =
      let t1 : RbTree = rb_set_parent n q tree in
      let null : q ≢ 0 = λ z. m (sym e ∙ z) in
      let apart : f.addr ≢ n = λ z. ground arith in
      let s : Side = toward less n q in
      subst (Attached q (f ∷ k) tree) (sym (attach-under q tree null)) (record {
        at_new =
            off_update q n (with_child s n) t1 (λ z. apart (sym e ∙ sym z))
            ∙ at_update n (with_parent q) tree;
        stored =
            subst (λ a. (set_child s q n t1).node a ≡ with_child f.side n (tree.node a)) e
              (at_update q (with_child s n) t1
                ∙ ap (with_child s n) (off_update n q (with_parent q) tree (λ z. apart (sym e ∙ z)))
                ∙ ap (λ v. with_child v n (tree.node q)) (ap (toward less n) e ∙ sym side));
        elsewhere = λ a an aq.
            off_update q a (with_child s n) t1 aq ∙ off_update n a (with_parent q) tree an;
        root = λ z. root-update q (with_child s n) t1 ∙ root-update n (with_parent q) tree;
      })

  pub attach-IsAt :
      (q : ℕ) (k : List Frame) (tree : RbTree)
      → IsAt tree q 0 leaf k
      → IsToward less n k
      → n ≢ 0
      → in_path n k ≡ 0
      → tree.node n ≡ record { parent = 0; color = red; rb_left = 0; rb_right = 0 }
      → IsAt (attach less n q tree) q n (fork red leaf n leaf) k
  attach-IsAt q k tree i side m o fresh =
      let r = attach-Attached q k tree i.above side o in
      let t' : RbTree = attach less n q tree in
      let at : t'.node n ≡ record { parent = q; color = red; rb_left = 0; rb_right = 0 } =
        r.at_new ∙ ap (with_parent q) fresh in
      record {
        here = (
          refl,
          m,
          ap (λ b. b.parent) at,
          ap (λ b. b.color) at,
          ap (λ b. b.rb_left) at,
          ap (λ b. b.rb_right) at,
        );
        above =
            move-IsPath tree.node t'.node tree.rb_root t'.rb_root q 0 n k r.stored
              (λ u l d.
                r.elsewhere u (λ z. (let w = subst (λ v. 0 < in_path v k) z l in omega arith)) d)
              r.root (λ u. (let w = i.once u in omega arith)) i.above;
        once = λ u. (let w = i.once u in ground arith);
      }
