-- ===== src/RbTree/Insertion.antt =====
-- `rb_insert` of src/common/ds/rbtree.c: the search for the place, the new leaf and the fixup.
use c_liber.Prelude.{
  ℕ, zero, suc, ◌+◌, ◌≤◌, ◌<◌, ◌≡◌, ◌≢◌, refl, ap, sym, ◌∙◌, Bool, true, false, List, [], ◌∷◌,
  length, arith, if◌then◌else◌, ◌==◌, some, Bool-cases, inl, inr,
}
use mathlib.Core.Path.{subst}
use c_liber.RbTree.{
  RbTree, RbNode, Color, Side, left, right, red, black, child_of, update, off_update, root-update,
}
use c_liber.RbTree.Insert.{find_parent}
use c_liber.RbTree.Shape.{
  Tree, leaf, fork, IsPath, IsAt, Frame, plug, in_tree, in_path, frame-IsTree, frame-IsPath,
}
use c_liber.RbTree.Moves.{down, root_color}
use c_liber.RbTree.Balance.{
  weight, black_height, IsRb, IsRbPath, IsBlackAbove, IsBlackUnder, height,
}
use c_liber.RbTree.Order.{grow}

-- A store to a node that is not in the tree leaves it.
pub update-IsAt :
    (n q p : ℕ) (f : RbNode → RbNode) (tree : RbTree) (t : Tree) (k : List Frame)
    → in_tree n t + in_path n k ≡ 0
    → IsAt tree q p t k
    → IsAt (update n f tree) q p t k
update-IsAt n q p f tree t k o i =
    let t' : RbTree = update n f tree in
    record {
      here =
          frame-IsTree tree.node t'.node q p t
            (λ a l.
              off_update n a f tree
                (λ e. (let z = subst (λ b. 0 < in_tree b t) e l in omega arith)))
            i.here;
      above =
          subst (λ r. IsPath t'.node r q p k) (sym (root-update n f tree))
            (frame-IsPath tree.node t'.node tree.rb_root q p k
              (λ a l.
                off_update n a f tree
                  (λ e. (let z = subst (λ b. 0 < in_path b k) e l in omega arith)))
              i.above);
      once = i.once;
    }

pub above_child :
    (c : Color) (s : Side) (a : ℕ) (t u : Tree) (k : List Frame)
    → IsBlackUnder c t
    → IsBlackAbove (root_color t) (record { side = s; color = c; addr = a; sibling = u } ∷ k)
above_child c s a leaf u k i = tt
above_child c s a (fork black l b r) u k i = tt
above_child black s a (fork red l b r) u k i = refl
above_child red s a (fork red l b r) u k i = i

abbrev under : (s : Side) (c : Color) (a : ℕ) (u : Tree) → Frame
under s c a u = record { side = s; color = c; addr = a; sibling = u }

module _ (less : ℕ → ℕ → Bool) (n : ℕ) where
  abbrev pub toward : ℕ → Side
  toward a = if less n a then left else right

  abbrev pub IsToward : List Frame → Type 0
  IsToward [] = Unit
  IsToward (f ∷ k) = f.side ≡ toward f.addr

  -- The place for the new node: an empty one under `q`.
  pub record Gap (whole : Tree) (depth : ℕ) (tree : RbTree) (q : ℕ) : Type 0 where
    pub k : List Frame
    pub place : IsAt tree q 0 leaf k
    pub path : IsRbPath 0 k
    pub side : IsToward k
    pub fresh : in_path n k ≡ 0
    pub deep : length k ≤ depth
    pub grown : plug k (fork red leaf n leaf) ≡ whole

  find_step :
      (fuel p node : ℕ) (tree : RbTree) (b : Bool)
      → node ≢ 0
      → less n node ≡ b
      → find_parent less (suc fuel) n p node tree ≡ (
          if b
          then find_parent less fuel n node (child_of tree left node) tree
          else find_parent less fuel n node (child_of tree right node) tree)
  unfolding find_parent
  find_step fuel p node tree b m e =
      let lower = find_parent less fuel n node (child_of tree left node) tree in
      let upper = find_parent less fuel n node (child_of tree right node) tree in
      let null : (node == 0) ≡ false = ground arith in
      ap (λ z. if z then some p else if less n node then lower else upper) null
      ∙ ap (λ z. if z then lower else upper) e

  -- The search ends at the place of the new node.
  pub find_parent-Gap :
      (fuel p node : ℕ) (tree : RbTree) (t : Tree) (k : List Frame)
      → IsAt tree p node t k
      → IsRb t
      → IsBlackAbove (root_color t) k
      → IsRbPath (black_height t) k
      → IsToward k
      → in_tree n t + in_path n k ≡ 0
      → height t < fuel
      → (q : ℕ) × (find_parent less fuel n p node tree ≡ some q)
        × Gap (plug k (grow less n t)) (height t + length k) tree q
  unfolding find_parent
  find_parent-Gap zero p node tree t k i it ab path side new enough = absurd (omega arith)
  find_parent-Gap (suc fuel) p node tree leaf k i it ab path side new enough = (
    p,
    ground arith,
    record {
      k = k;
      place = subst (λ v. IsAt tree p v leaf k) i.here i;
      path = path;
      side = side;
      fresh = omega arith;
      deep = omega arith;
      grown = refl;
    },
  )
  find_parent-Gap (suc fuel) p node tree (fork c l a r) k i it ab path side new enough =
      let (e, m, par, co, il, ir) = i.here in
      let (eh, bl, br, rl, rr) = it in
      let null : node ≢ 0 = λ z. m (sym e ∙ z) in
      elim (Bool-cases (less n a)) [
        | inl h ↦
            (let (q, found, gap) =
                find_parent-Gap fuel node (child_of tree left node) tree l (under left c a r ∷ k)
                  (down tree p node left c l a r k i) rl (above_child c left a l r k bl)
                  (sym eh, rr, br, ab, path) (sym (ap (λ b. if b then left else right) h))
                  (omega arith) (ground arith) in
              (
                q,
                find_step fuel p node tree true null (ap (less n) e ∙ h) ∙ found,
                subst (λ t. Gap (plug k t) (height (fork c l a r) + length k) tree q)
                    (sym (
                      ap (λ b. if b then fork c (grow less n l) a r else fork c l a (grow less n r))
                        h))
                    (record {
                      k = gap.k;
                      place = gap.place;
                      path = gap.path;
                      side = gap.side;
                      fresh = gap.fresh;
                      deep = (let d = gap.deep in ground arith);
                      grown = gap.grown;
                    }),
              ))
        | inr h ↦
            (let (q, found, gap) =
                find_parent-Gap fuel node (child_of tree right node) tree r (under right c a l ∷ k)
                  (down tree p node right c r a l k i) rr (above_child c right a r l k br)
                  (eh, rl, bl, ab, subst (λ b. IsRbPath (weight c + b) k) eh path)
                  (sym (ap (λ b. if b then left else right) h)) (omega arith) (ground arith) in
              (
                q,
                find_step fuel p node tree false null (ap (less n) e ∙ h) ∙ found,
                subst (λ t. Gap (plug k t) (height (fork c l a r) + length k) tree q)
                    (sym (
                      ap (λ b. if b then fork c (grow less n l) a r else fork c l a (grow less n r))
                        h))
                    (record {
                      k = gap.k;
                      place = gap.place;
                      path = gap.path;
                      side = gap.side;
                      fresh = gap.fresh;
                      deep = (let d = gap.deep in ground arith);
                      grown = gap.grown;
                    }),
              ))
      ]
