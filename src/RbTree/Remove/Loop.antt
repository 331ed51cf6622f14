-- ===== src/RbTree/Remove/Loop.antt =====
-- The loop of `rb_delete_fixup` of src/common/ds/rbtree.c.
use c_liber.Prelude.{
  ℕ, zero, suc, ◌+◌, ◌≤◌, ◌<◌, ◌≡◌, ◌≢◌, refl, ap, ap₂, sym, ◌∙◌, Bool, true, false, not, ◌&&◌,
  List, [], ◌∷◌, length, arith, ◌⊎◌, inl, inr, if◌then◌else◌, ◌==◌, some, Bool-cases,
}
use mathlib.Core.Path.{subst}
use c_liber.RbTree.{
  RbTree, Color, Side, left, right, other, red, black, rb_set_color, rb_parent, rb_is_black,
  rb_is_child, rb_is_root,
}
use c_liber.RbTree.Erase.{delete_at, delete_round, delete_loop}
use c_liber.RbTree.Shape.{Tree, leaf, fork, IsTree, IsAt, Frame, plug, inorder}
use c_liber.RbTree.Moves.{root_color, is_red, is_child, is_root, node_parent}
use c_liber.RbTree.Balance.{black_height, IsRb, IsRbPath, blacken}
use c_liber.RbTree.Fixup.{red_node}
use c_liber.RbTree.Loop.{IsRbTree}
use c_liber.RbTree.Remove.Short.{Short, rounds, IsOnSide, side_of, blacken_black, end-IsRbTree}
use c_liber.RbTree.Remove.Sibling.{reads_black}
use c_liber.RbTree.Remove.Tail.{color_cases}
use c_liber.RbTree.Remove.Round.{delete_at-Goes}

abbrev is_left_side : Side → Bool
is_left_side left = true
is_left_side right = false

abbrev choose : (p : ℕ) → (is_left : Bool) → RbTree → RbTree × ℕ × Bool
choose p b tree = if b then delete_at left p tree else delete_at right p tree

choose_side :
    (s : Side) (p : ℕ) (tree : RbTree) → choose p (is_left_side s) tree ≡ delete_at s p tree
choose_side left p tree = refl
choose_side right p tree = refl

left_child :
    (tree : RbTree) (s : Side) (p : ℕ)
    → (rb_is_child tree s p ≡ true) × (rb_is_child tree (other s) p ≡ false)
    → rb_is_child tree left p ≡ is_left_side s
left_child tree left p (e, e') = e
left_child tree right p (e, e') = e'

not_right : (b : Bool) → not b ≡ is_left_side (side_of b)
not_right true = refl
not_right false = refl

pub node_here :
    (tree : RbTree) (q p : ℕ) (t : Tree)
    → IsTree tree.node q p t
    → p ≢ 0
    → (rb_parent tree p ≡ q) × (p ≢ 0)
node_here tree q p leaf i n = absurd (n i)
node_here tree q p (fork c l a r) i n = node_parent tree q p left c l a r i

round_null :
    (pnode node : ℕ) (is_right b : Bool) (tree : RbTree)
    → (node == 0) ≡ b
    → delete_round pnode node is_right tree
      ≡ choose
          (if b then pnode else rb_parent tree node)
          (if b then not is_right else rb_is_child tree left node)
          tree
unfolding delete_round
round_null pnode node is_right b tree e =
    ap
      (λ b.
        choose (if b then pnode else rb_parent tree node)
          (if b then not is_right else rb_is_child tree left node) tree)
      e

-- Which place the round works at.
round_at :
    (tree : RbTree) (q node pnode : ℕ) (is_right : Bool) (t : Tree) (f : Frame) (k : List Frame)
    → IsAt tree q node t (f ∷ k)
    → (node ≢ 0) ⊎ ((q ≡ pnode) × IsOnSide is_right (f ∷ k))
    → delete_round pnode node is_right tree ≡ delete_at f.side q tree
round_at tree q node pnode is_right t f k i linked = elim (Bool-cases (node == 0)) [
  | inl e ↦ elim linked [
    | inl n ↦ absurd (ground arith)
    | inr (eq, side) ↦
        round_null pnode node is_right true tree e
        ∙ ap₂ (λ p b. choose p b tree) (sym eq) (not_right is_right ∙ ap is_left_side (sym side))
        ∙ choose_side f.side q tree
  ]
  | inr e ↦
      (let n : node ≢ 0 = λ z. ground arith in
        let (par, m) = node_here tree q node t i.here n in
        round_null pnode node is_right false tree e
        ∙ ap₂ (λ p b. choose p b tree) par
            (left_child tree f.side node (is_child tree q node t f k i (par, n)))
        ∙ choose_side f.side q tree)
]

-- The loop's test: below a node of the path, the colour decides.
test_below :
    (tree : RbTree) (q node : ℕ) (t : Tree) (f : Frame) (k : List Frame)
    → IsAt tree q node t (f ∷ k)
    → (not (rb_is_root tree node) && rb_is_black tree node) ≡ not (is_red (root_color t))
test_below tree q node t f k i =
    let (e, n, co, ch, it, above) = i.above in
    ap₂ (λ a b. not a && b) (no_root (Bool-cases (node == 0))) (reads_black tree q node t i.here)
  where
    no_root : ((node == 0) ≡ true) ⊎ ((node == 0) ≡ false) → rb_is_root tree node ≡ false
    no_root (inl z) = ap (λ b. not b && (rb_parent tree node == 0)) z
    no_root (inr z) =
        let m : node ≢ 0 = λ w. ground arith in
        let (e, n, co, ch, it, above) = i.above in
        let here = is_root tree q node t (f ∷ k) i (node_here tree q node t i.here m) in
        let other_node : (q == 0) ≡ false = ground arith in here ∙ other_node

loop_out :
    (fuel pnode node : ℕ) (is_right : Bool) (tree : RbTree)
    → (not (rb_is_root tree node) && rb_is_black tree node) ≡ false
    → delete_loop (suc fuel) pnode node is_right tree ≡ some (rb_set_color node black tree)
unfolding delete_loop
loop_out fuel pnode node is_right tree e =
    let out = delete_round pnode node is_right tree in
    ap
      (λ b.
        if b
        then (if out.2
            then some (rb_set_color out.1 black out.0)
            else delete_loop fuel pnode out.1 is_right out.0)
        else some (rb_set_color node black tree))
      e

loop_on :
    (fuel pnode node : ℕ) (is_right : Bool) (tree : RbTree) (out : RbTree × ℕ × Bool)
    → (not (rb_is_root tree node) && rb_is_black tree node) ≡ true
    → delete_round pnode node is_right tree ≡ out
    → out.2 ≡ false
    → delete_loop (suc fuel) pnode node is_right tree ≡ delete_loop fuel pnode out.1 is_right out.0
unfolding delete_loop
loop_on fuel pnode node is_right tree out e r stop =
    ap
      (λ b.
        (let out = delete_round pnode node is_right tree in
          if b
          then (if out.2
              then some (rb_set_color out.1 black out.0)
              else delete_loop fuel pnode out.1 is_right out.0)
          else some (rb_set_color node black tree)))
      e
    ∙ ap
        (λ out.
          if out.2
          then some (rb_set_color out.1 black out.0)
          else delete_loop fuel pnode out.1 is_right out.0)
        r
    ∙ ap
        (λ b.
          if b
          then some (rb_set_color out.1 black out.0)
          else delete_loop fuel pnode out.1 is_right out.0)
        stop

pub rounds-le : (c : Color) (k : List Frame) → rounds c k ≤ 1 + length k
rounds-le red k = omega arith
rounds-le black k = omega arith

abbrev Ends : (fuel : ℕ) → List ℕ → (pnode node : ℕ) → Bool → RbTree → Type 0
Ends fuel xs pnode node is_right tree =
    (tree' : RbTree) × (delete_loop fuel pnode node is_right tree ≡ some tree') × IsRbTree xs tree'

module _ (fuel : ℕ) (xs : List ℕ) (tree : RbTree) (pnode node : ℕ) (is_right : Bool)
    (ih : (tree : RbTree) (node : ℕ)
      → Short xs fuel tree pnode node is_right
      → Ends fuel xs pnode node is_right tree) where
  -- A round, with the rest of the loop `ih`.
  loop_round :
      (q : ℕ) (t : Tree) (k : List Frame)
      → IsAt tree q node t k
      → IsRb (blacken t)
      → IsRbPath (1 + black_height t) k
      → inorder (plug k t) ≡ xs
      → rounds (root_color t) k < suc fuel
      → (node ≢ 0) ⊎ ((q ≡ pnode) × IsOnSide is_right k)
      → (tree' : RbTree) × (delete_loop (suc fuel) pnode node is_right tree ≡ some tree')
        × IsRbTree xs tree'
  loop_round q t [] i b path order size (inr (e, side)) = absurd side
  loop_round q t [] i b path order size (inl n) =
      let root = is_root tree q node t [] i (node_here tree q node t i.here n) in
      let top : (q == 0) ≡ true = (let e = i.above.0 in ground arith) in
      (
        rb_set_color node black tree,
        loop_out fuel pnode node is_right tree
            (ap (λ b. not b && rb_is_black tree node) (root ∙ top)),
        end-IsRbTree xs tree q node t [] i b path order n (inr refl),
      )
  loop_round q t (f ∷ k) i b path order size linked =
      let seen = test_below tree q node t f k i in
      elim (color_cases (root_color t)) [
        | inl e ↦ (
          rb_set_color node black tree,
          loop_out fuel pnode node is_right tree (seen ∙ ap (λ c. not (is_red c)) e),
          end-IsRbTree xs tree q node t (f ∷ k) i b path order (red_node tree q node t i.here e).1
              (inl e),
        )
        | inr e ↦
            (let (high, iu, bu, above, rest) = path in
              let it = subst IsRb (blacken_black t e) b in
              let (stop, next) =
                delete_at-Goes tree f.side f.color q node f.addr (suc (suc (length k))) pnode
                  is_right t f.sibling k i it e high iu bu above rest (omega arith)
                  (let r = rounds-le f.color k in omega arith) in
              let out = delete_at f.side q tree in
              let enough = subst (λ c. rounds c (f ∷ k) < suc fuel) e size in
              let (tree', e', r) = ih out.0 out.1 (record {
                q = next.q;
                t = next.t;
                k = next.k;
                place = next.place;
                balanced = next.balanced;
                path = next.path;
                order = next.order ∙ order;
                size = (let small = next.size in omega arith);
                linked = next.linked;
              }) in
              (
                tree',
                loop_on fuel pnode node is_right tree out (seen ∙ ap (λ c. not (is_red c)) e)
                      (round_at tree q node pnode is_right t f k i linked) stop
                    ∙ e',
                r,
              ))
      ]

-- Let the tree at `node` lack one black node on each way down, and be balanced once its root is black;
-- where it is empty, `pnode` and `is_right` say where it hangs. Let the rest be a red-black tree, and `xs`
-- all nodes from left to right. With fuel for one round if the root there is red, and for two more than
-- there are nodes above otherwise, the loop of rb_delete_fixup ends with a red-black tree whose nodes are
-- `xs` in the same order.
pub delete_loop-IsRbTree :
    (fuel : ℕ) (xs : List ℕ) (tree : RbTree) (pnode node : ℕ) (is_right : Bool)
    → Short xs fuel tree pnode node is_right
    → (tree' : RbTree) × (delete_loop fuel pnode node is_right tree ≡ some tree')
      × IsRbTree xs tree'
delete_loop-IsRbTree zero xs tree pnode node is_right z = absurd (let o = z.size in omega arith)
delete_loop-IsRbTree (suc fuel) xs tree pnode node is_right z =
    loop_round fuel xs tree pnode node is_right
      (λ tree node. delete_loop-IsRbTree fuel xs tree pnode node is_right) z.q z.t z.k z.place
      z.balanced z.path z.order z.size z.linked
