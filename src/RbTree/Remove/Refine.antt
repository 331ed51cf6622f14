-- ===== src/RbTree/Remove/Refine.antt =====
-- `rb_erase` of src/common/ds/rbtree.c as the removal from a list.
use c_liber.Prelude.{
  ℕ, suc, ◌+◌, ◌*◌, ◌^◌, ◌≤◌, ◌<◌, ◌≡◌, ◌≢◌, refl, ap, sym, ◌∙◌, Bool, true, false, ◌||◌, List, [],
  ◌∷◌, ◌++◌, length, length-append, append-nil, count, arith, if◌then◌else◌, ◌==◌, Option, none,
  some, Bool-cases, inl, inr,
}
use mathlib.Core.Path.{subst}
use c_liber.RbTree.{RbTree, Color, left, right, child_of, rb_parent, rb_is_root, rb_is_child}
use c_liber.RbTree.Erase.{erase_outer, erase_inner, rb_erase}
use c_liber.RbTree.Walk.{outermost, climb, rb_step}
use c_liber.RbTree.Shape.{Tree, leaf, fork, IsAt, Frame, plug, inorder, in_tree, in_path}
use c_liber.RbTree.Moves.{down}
use c_liber.RbTree.Balance.{
  weight, black_height, IsRb, IsRbPath, IsBlackAbove, height, height_bound,
}
use c_liber.RbTree.Insertion.{above_child}
use c_liber.RbTree.Loop.{IsRbTree}
use c_liber.RbTree.Refine.{in_tree-count, above_root}
use c_liber.RbTree.Remove.End.{empty_here}
use c_liber.RbTree.Remove.Lift.{below}
use c_liber.RbTree.Remove.Outer.{erase_outer-IsRbTree}
use c_liber.RbTree.Remove.Descent.{outermost-Leftmost, inorder-leftmost, IsLeftmost}
use c_liber.RbTree.Remove.Taken.{beside-IsRbTree, deep-IsRbTree}
use c_liber.RbTree.Remove.Locate.{remove, remove-root, remove-plug, Located, locate}

-- What the tests of rb_erase choose.
abbrev chosen : (fuel n : ℕ) → RbTree → (empty no_left no_right : Bool) → Option RbTree
chosen fuel n tree empty no_left no_right =
    if empty
    then some tree
    else if no_left
    then erase_outer right fuel n tree
    else if no_right
    then erase_outer left fuel n tree
    else elim (rb_step right fuel n tree) [ none ↦ none | some y ↦ erase_inner fuel n y tree ]

rb_erase-chosen :
    (fuel n : ℕ) (tree : RbTree) (b b' : Bool)
    → tree.rb_root ≢ 0
    → n ≢ 0
    → (child_of tree left n == 0) ≡ b
    → (child_of tree right n == 0) ≡ b'
    → rb_erase fuel n tree ≡ chosen fuel n tree false b b'
unfolding rb_erase
rb_erase-chosen fuel n tree b b' root null e e' =
    let both : (tree.rb_root == 0 || n == 0) ≡ false = ground arith in
    ap (λ z. chosen fuel n tree z (child_of tree left n == 0) (child_of tree right n == 0)) both
    ∙ ap (λ z. chosen fuel n tree false z (child_of tree right n == 0)) e
    ∙ ap (chosen fuel n tree false b) e'

step_down :
    (fuel n : ℕ) (tree : RbTree)
    → (child_of tree right n == 0) ≡ false
    → rb_step right fuel n tree ≡ outermost left fuel (child_of tree right n) tree
unfolding rb_step
step_down fuel n tree e =
    ap
      (λ b.
        if b
        then (if rb_is_root tree n
            then some 0
            else if rb_is_child tree left n
            then some (rb_parent tree n)
            else elim (climb right fuel (rb_parent tree n) tree) [
              | none ↦ none
              | some m ↦ if rb_is_root tree m then some 0 else some (rb_parent tree m)
            ])
        else outermost left fuel (child_of tree right n) tree)
      e

leftmost_first :
    (ks : List Frame) (c : Color) (y : ℕ) (v : Tree)
    → IsLeftmost ks
    → inorder (plug ks (fork c leaf y v)) ≡ y ∷ inorder (plug ks v)
leftmost_first ks c y v i =
    inorder-leftmost ks (fork c leaf y v) i ∙ ap (◌∷◌ y) (sym (inorder-leftmost ks v i))

-- The successor was found under `ks`.
at_leftmost :
    (fuel q n y : ℕ) (c cy : Color) (q1 : ℕ) (tree : RbTree) (l r v : Tree) (ks k : List Frame)
    → IsAt tree q n (fork c l n r) k
    → child_of tree left n ≢ 0
    → IsAt tree q1 y (fork cy leaf y v) (ks ++ below right c n l ∷ k)
    → IsRb (fork cy leaf y v)
    → IsBlackAbove cy (ks ++ below right c n l ∷ k)
    → IsRbPath (weight cy + 0) (ks ++ below right c n l ∷ k)
    → IsLeftmost ks
    → 2 + length ks + length k < fuel
    → (tree' : RbTree) × (erase_inner fuel n y tree ≡ some tree')
      × IsRbTree (inorder (plug k (fork c l y (plug ks v)))) tree'
at_leftmost fuel q n y c cy q1 tree l r v [] k i null g it ab path lefts enough =
    beside-IsRbTree fuel q n q1 y c cy tree l r v k i null g it ab path (omega arith)
at_leftmost fuel q n y c cy q1 tree l r v (f ∷ ks) k i null g it ab path (side, lefts) enough =
    deep-IsRbTree fuel q n q1 y c cy tree l r v f ks k i null g side it ab path
      (omega (arith, length-append ks (below right c y l ∷ k)))

-- A node with two children.
erase_inner-IsRbTree :
    (fuel q n : ℕ) (c : Color) (tree : RbTree) (l r : Tree) (k : List Frame)
    → IsAt tree q n (fork c l n r) k
    → child_of tree left n ≢ 0
    → child_of tree right n ≢ 0
    → IsRb (fork c l n r)
    → IsBlackAbove c k
    → IsRbPath (weight c + black_height l) k
    → length k + height (fork c l n r) < fuel
    → (y : ℕ) × (r' : Tree) × (inorder r ≡ y ∷ inorder r')
      × (tree' : RbTree) × (rb_step right fuel n tree ≡ some y)
      × (erase_inner fuel n y tree ≡ some tree')
      × IsRbTree (inorder (plug k (fork c l y r'))) tree'
erase_inner-IsRbTree fuel q n c tree l leaf k i null null_r it ab path enough =
    absurd (null_r i.here.5)
erase_inner-IsRbTree fuel q n c tree l (fork d rl b rr) k i null null_r it ab path enough =
    let r : Tree = fork d rl b rr in
    let (eh, bl, br, il, ir) = it in
    let (y, found, g) =
      outermost-Leftmost fuel tree n (child_of tree right n) d rl rr b (below right c n l ∷ k)
        (down tree q n right c r n l k i) ir (above_child c right n r l k br)
        (eh, il, bl, ab, subst (λ m. IsRbPath (weight c + m) k) eh path) (ground arith) in
    let taken =
      at_leftmost fuel q n y c g.c g.q tree l r g.right_tree g.ks k i null g.place g.balanced
        g.above g.path g.lefts (let o = g.deep in ground arith) in
    let (tree', e', r') = taken in
    (
      y,
      plug g.ks g.right_tree,
      ap inorder (sym g.same) ∙ leftmost_first g.ks g.c y g.right_tree g.lefts,
      tree',
      step_down fuel n tree (ground arith) ∙ found,
      e',
      r',
    )

-- Where the node stands, with the list that is left.
erase-Located :
    (fuel n : ℕ) (tree : RbTree) (t : Tree) (d : ℕ)
    → Located n tree t d
    → tree.rb_root ≢ 0
    → d < fuel
    → (tree' : RbTree) × (rb_erase fuel n tree ≡ some tree') × IsRbTree (remove n (inorder t)) tree'
erase-Located fuel n tree t d z root enough =
    let once = z.place.once n in
    let null = z.place.here.1 in
    let few = z.depth in
    let left_alone : in_tree n z.l ≡ 0 = ground arith in
    let present : 0 < count n (inorder (fork z.c z.l n z.r)) =
      (let counted = in_tree-count n (fork z.c z.l n z.r) in ground arith) in
    let off : in_path n z.k ≡ 0 = ground arith in
    let left_over : (u : Tree)
        → inorder z.l ++ inorder z.r ≡ inorder u
        → inorder (plug z.k u) ≡ remove n (inorder t) =
      λ u e.
        sym (
          remove-plug n (fork z.c z.l n z.r) u z.k (remove-root n z.c z.l z.r left_alone ∙ e)
            present off)
        ∙ ap (λ b. remove n (inorder b)) z.same in
    elim (Bool-cases (child_of tree left n == 0)) [
      | inl e ↦
          (let none_left : z.l ≡ leaf =
              empty_here tree.node n (child_of tree left n) z.l z.place.here.4 (ground arith) in
            let (tree', e', r) =
              erase_outer-IsRbTree right fuel z.q n z.c tree z.r z.k
                (subst (λ b. IsAt tree z.q n (fork z.c b n z.r) z.k) none_left z.place)
                (subst (λ b. IsRb (fork z.c b n z.r)) none_left z.balanced) z.above
                (subst (λ b. IsRbPath (weight z.c + black_height b) z.k) none_left z.path)
                (omega arith) in
            (
              tree',
              rb_erase-chosen fuel n tree true (child_of tree right n == 0) root null e refl ∙ e',
              subst (λ xs. IsRbTree xs tree')
                  (left_over z.r (ap (λ b. inorder b ++ inorder z.r) none_left)) r,
            ))
      | inr e ↦ elim (Bool-cases (child_of tree right n == 0)) [
        | inl e2 ↦
            (let none_right : z.r ≡ leaf =
                empty_here tree.node n (child_of tree right n) z.r z.place.here.5 (ground arith) in
              let (tree', e', r) =
                erase_outer-IsRbTree left fuel z.q n z.c tree z.l z.k
                  (subst (λ b. IsAt tree z.q n (fork z.c z.l n b) z.k) none_right z.place)
                  (subst (λ b. IsRb (fork z.c z.l n b)) none_right z.balanced) z.above z.path
                  (omega arith) in
              (
                tree',
                rb_erase-chosen fuel n tree false true root null e e2 ∙ e',
                subst (λ xs. IsRbTree xs tree')
                    (left_over z.l
                      (ap (λ b. inorder z.l ++ inorder b) none_right ∙ append-nil (inorder z.l)))
                    r,
              ))
        | inr e2 ↦
            (let (y, r', first, tree', found, e', r) =
                erase_inner-IsRbTree fuel z.q n z.c tree z.l z.r z.k z.place (λ w. ground arith)
                  (λ w. ground arith) z.balanced z.above z.path (omega arith) in
              (
                tree',
                rb_erase-chosen fuel n tree false false root null e e2
                    ∙ ap (λ o. elim o [ none ↦ none | some y ↦ erase_inner fuel n y tree ]) found
                    ∙ e',
                subst (λ xs. IsRbTree xs tree')
                    (left_over (fork z.c z.l y r') (ap (λ ys. inorder z.l ++ ys) first)) r,
              ))
      ]
    ]

-- Let `xs` be the nodes of a red-black tree from left to right, and `n` one of them. Where 2 ^ (b + 1) is
-- more than their number plus one, 2 * b + 1 rounds of fuel for each loop are enough for rb_erase to
-- return, and it leaves a red-black tree whose nodes are those of `xs` without `n`, in the same order.
pub rb_erase-Removes :
    (fuel n b : ℕ) (xs : List ℕ) (tree : RbTree)
    → IsRbTree xs tree
    → 0 < count n xs
    → length xs + 1 < 2 ^ suc b
    → 2 * b < fuel
    → (tree' : RbTree) × (rb_erase fuel n tree ≡ some tree') × IsRbTree (remove n xs) tree'
rb_erase-Removes fuel n b xs tree r member few enough =
    let low : height r.shape ≤ 2 * b =
      height_bound r.shape b r.balanced r.root_black
        (subst (λ ys. length ys + 1 < 2 ^ suc b) (sym r.order) few) in
    let inside : 0 < in_tree n r.shape =
      subst (λ m. 0 < m) (sym (in_tree-count n r.shape ∙ ap (count n) r.order)) member in
    let root : tree.rb_root ≢ 0 = λ z.
      (let empty = empty_here tree.node 0 tree.rb_root r.shape r.stored.here z in
        let gone = subst (λ t. 0 < in_tree n t) empty inside in omega arith) in
    let (tree', e, i) =
      erase-Located fuel n tree r.shape (length {A = Frame} [] + height r.shape)
        (locate n tree 0 tree.rb_root r.shape [] r.stored r.balanced
          (above_root r.shape r.root_black) tt inside)
        root (omega arith) in
    (tree', e, subst (λ ys. IsRbTree (remove n ys) tree') r.order i)
