-- ===== src/RbTree/Refine.antt =====
-- `rb_insert` of src/common/ds/rbtree.c as an insertion in an ordered list.
use c_liber.Prelude.{
  ℕ, suc, ◌+◌, ◌≤◌, ◌<◌, ◌≡◌, ◌≢◌, refl, ap, sym, ◌∙◌, Bool, false, List, [], ◌∷◌, length,
  length-append, ◌^◌, ◌*◌, arith, if◌then◌else◌, ◌==◌, ◌||◌, none, some, count, count-append,
}
use mathlib.Core.Path.{subst}
use c_liber.RbTree.{RbTree, RbNode, Color, Side, left, right, red, black, rb_node_init, at_update}
use c_liber.RbTree.Insert.{find_parent, attach, rb_insert_fixup, rb_insert, fixup_loop}
use c_liber.RbTree.Shape.{Tree, leaf, fork, join, IsTree, Frame, plug, inorder, in_tree}
use c_liber.RbTree.Moves.{root_color}
use c_liber.RbTree.Balance.{IsBlackAbove, height, height_bound}
use c_liber.RbTree.Order.{IsOrder, IsOrdered, insort, grow, inorder-grow, insort-IsOrdered}
use c_liber.RbTree.Loop.{IsRbTree, loop-IsRbTree, whole}
use c_liber.RbTree.Insertion.{update-IsAt, find_parent-Gap, Gap}
use c_liber.RbTree.Attach.{attach-IsAt}

pub in_tree-count : (n : ℕ) (t : Tree) → in_tree n t ≡ count n (inorder t)
in_tree-count n leaf = refl
in_tree-count n (fork c l a r) =
    let il = in_tree-count n l in
    let ir = in_tree-count n r in
    let both = count-append n (inorder l) (a ∷ inorder r) in ground arith

pub length-join :
    (s : Side) (c : Color) (t : Tree) (a : ℕ) (u : Tree)
    → length (inorder (join s c t a u)) ≡ length (inorder t) + 1 + length (inorder u)
length-join left c t a u = omega (arith, length-append (inorder t) (a ∷ inorder u))
length-join right c t a u = omega (arith, length-append (inorder u) (a ∷ inorder t))

-- Each step of a path is a node of the whole tree.
pub length-plug :
    (t : Tree) (k : List Frame) → length k + length (inorder t) ≤ length (inorder (plug k t))
length-plug t [] = omega arith
length-plug t (f ∷ k) = omega (
  arith,
  length-plug (join f.side f.color t f.addr f.sibling) k,
  length-join f.side f.color t f.addr f.sibling,
)

pub root_not_null :
    (h : ℕ → RbNode) (q p : ℕ) (t : Tree) → IsTree h q p t → 0 < length (inorder t) → p ≢ 0
root_not_null h q p leaf i l = absurd (omega arith)
root_not_null h q p (fork c l a r) (e, n, par, co, il, ir) b = λ z. n (sym e ∙ z)

pub above_root : (t : Tree) → root_color t ≡ black → IsBlackAbove (root_color t) []
above_root t e = subst (λ c. IsBlackAbove c []) (sym e) tt

fixup-loop :
    (fuel n : ℕ) (tree : RbTree)
    → tree.rb_root ≢ 0
    → n ≢ 0
    → rb_insert_fixup fuel n tree ≡ fixup_loop fuel n tree
unfolding rb_insert_fixup
fixup-loop fuel n tree m e =
    let both : (tree.rb_root == 0 || n == 0) ≡ false = ground arith in
    ap (λ b. if b then some tree else fixup_loop fuel n tree) both

insert-found :
    (less : ℕ → ℕ → Bool) (fuel n q : ℕ) (tree : RbTree)
    → find_parent less fuel n 0 tree.rb_root (rb_node_init n tree) ≡ some q
    → rb_insert less fuel n tree ≡ rb_insert_fixup fuel n (attach less n q (rb_node_init n tree))
unfolding rb_insert
insert-found less fuel n q tree e =
    ap
      (λ o. elim o [
        | none ↦ none
        | some p ↦ rb_insert_fixup fuel n (attach less n p (rb_node_init n tree))
      ])
      e

-- From a place of the new node, the fixup ends with a red-black tree.
place-IsRbTree :
    (less : ℕ → ℕ → Bool) (fuel n q : ℕ) (depth : ℕ) (tree : RbTree) (t : Tree)
    → Gap less n t depth tree q
    → n ≢ 0
    → tree.node n ≡ record { parent = 0; color = red; rb_left = 0; rb_right = 0 }
    → depth < fuel
    → (tree' : RbTree) × (rb_insert_fixup fuel n (attach less n q tree) ≡ some tree')
      × IsRbTree (inorder t) tree'
place-IsRbTree less fuel n q depth tree t g m fresh enough =
    let t' : RbTree = attach less n q tree in
    let i = attach-IsAt less n q g.k tree g.place g.side m g.fresh fresh in
    let grown = ap inorder g.grown in
    let sized = length-plug (fork red leaf n leaf) g.k in
    let counted = ap (λ xs. length xs) grown in
    let (tree', e, r) = loop-IsRbTree fuel (inorder t) t' n (record {
      q = q;
      t = fork red leaf n leaf;
      k = g.k;
      place = i;
      top = refl;
      balanced = (refl, refl, refl, tt, tt);
      path = g.path;
      order = grown;
      size = (let d = g.deep in omega arith);
    }) in
    let root =
      root_not_null t'.node 0 t'.rb_root (plug g.k (fork red leaf n leaf))
        (whole t' q n (fork red leaf n leaf) g.k i).here (omega arith) in
    (tree', fixup-loop fuel n t' root m ∙ e, r)

-- Let `less`, which is cmp < 0, be asymmetric, and "not less" be transitive. Let `xs` be the nodes of a
-- red-black tree from left to right, ordered by it, and `n` a node (not NULL) that is not among them.
-- Where 2 ^ (b + 1) is more than their number plus one, 2 * b + 1 rounds of fuel for each loop are enough
-- for rb_insert to return, and it leaves a red-black tree whose nodes are those of `xs` with `n` behind
-- its equals, again ordered.
pub rb_insert-Inserts :
    (less : ℕ → ℕ → Bool) (fuel n b : ℕ) (xs : List ℕ) (tree : RbTree)
    → IsOrder less
    → IsRbTree xs tree
    → IsOrdered less xs
    → n ≢ 0
    → count n xs ≡ 0
    → length xs + 1 < 2 ^ suc b
    → 2 * b < fuel
    → (tree' : RbTree) × (rb_insert less fuel n tree ≡ some tree')
      × IsRbTree (insort less n xs) tree'
      × IsOrdered less (insort less n xs)
rb_insert-Inserts less fuel n b xs tree o r ordered m fresh few enough =
    let t1 : RbTree = rb_node_init n tree in
    let low : height r.shape ≤ 2 * b =
      height_bound r.shape b r.balanced r.root_black
        (subst (λ ys. length ys + 1 < 2 ^ suc b) (sym r.order) few) in
    let absent : in_tree n r.shape ≡ 0 = in_tree-count n r.shape ∙ ap (count n) r.order ∙ fresh in
    let blank : RbNode → RbNode =
      λ b. record { parent = 0; color = red; rb_left = 0; rb_right = 0 } in
    let (q, found, gap) =
      find_parent-Gap less n fuel 0 tree.rb_root t1 r.shape []
        (update-IsAt n 0 tree.rb_root blank tree r.shape [] (omega arith) r.stored) r.balanced
        (above_root r.shape r.root_black) tt tt (omega arith) (omega arith) in
    let grown : inorder (grow less n r.shape) ≡ insort less n xs =
      inorder-grow less o n r.shape (subst (IsOrdered less) (sym r.order) ordered)
      ∙ ap (insort less n) r.order in
    let (tree', e, i) =
      place-IsRbTree less fuel n q (height r.shape + length {A = Frame} []) t1 (grow less n r.shape)
        gap m (at_update n blank tree) (omega arith) in
    (
      tree',
      insert-found less fuel n q tree found ∙ e,
      subst (λ ys. IsRbTree ys tree') grown i,
      insort-IsOrdered less o n xs ordered,
    )
