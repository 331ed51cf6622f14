-- ===== src/RbTree/Remove/Taken.antt =====
-- `rb_erase` of src/common/ds/rbtree.c for a node with two children, to its end.
use c_liber.Prelude.{
  ℕ, ◌+◌, ◌<◌, ◌≡◌, ◌≢◌, ap, sym, ◌∙◌, Bool, true, false, List, [], ◌∷◌, ◌++◌, length, count, arith,
  inr, if◌then◌else◌, ◌==◌, some,
}
use mathlib.Core.Path.{subst}
use c_liber.RbTree.{
  RbTree, Color, red, black, Side, left, right, other, child_of, rb_parent, rb_color, rb_is_child,
}
use c_liber.RbTree.Erase.{rb_transplant, erase_end, erase_inner}
use c_liber.RbTree.Shape.{
  Tree, leaf, fork, join, IsTree, IsAt, Frame, plug, inorder, in_tree, in_path, in_tree-join,
}
use c_liber.RbTree.Moves.{up, down, is_child}
use c_liber.RbTree.Balance.{weight, IsRb, IsRbPath, IsBlackAbove}
use c_liber.RbTree.Fixup.{same_address}
use c_liber.RbTree.Loop.{IsRbTree}
use c_liber.RbTree.Refine.{in_tree-count, length-plug, length-join, root_not_null}
use c_liber.RbTree.Remove.Lift.{below}
use c_liber.RbTree.Remove.Short.{IsOnSide, side_of}
use c_liber.RbTree.Remove.End.{erase_end-IsRbTree}
use c_liber.RbTree.Remove.Transplant.{rb_transplant-IsAt}
use c_liber.RbTree.Remove.Crown.{Ready, crown, crown-IsAt}
use c_liber.RbTree.Remove.Descent.{up_all, down_all, plug-append}
use c_liber.RbTree.Remove.Inner.{in_path-append, path_parent, beside-Ready, handed, handed-Ready}

-- The colours of a path do not depend on its addresses.
module _ (s : Side) (c : Color) (a b : ℕ) (u : Tree) (k : List Frame) where
  IsBlackAbove-readdress :
      (d : Color) (ks : List Frame)
      → IsBlackAbove d (ks ++ below s c a u ∷ k)
      → IsBlackAbove d (ks ++ below s c b u ∷ k)
  IsBlackAbove-readdress red [] i = i
  IsBlackAbove-readdress red (f ∷ ks) i = i
  IsBlackAbove-readdress black ks i = i

  IsRbPath-readdress :
      (n : ℕ) (ks : List Frame)
      → IsRbPath n (ks ++ below s c a u ∷ k)
      → IsRbPath n (ks ++ below s c b u ∷ k)
  IsRbPath-readdress n [] i = i
  IsRbPath-readdress n (f ∷ ks) (e, iu, bu, ab, i) = (
    e,
    iu,
    bu,
    IsBlackAbove-readdress f.color ks ab,
    IsRbPath-readdress (weight f.color + n) ks i,
  )

pub in_tree-plug :
    (a : ℕ) (t : Tree) (k : List Frame) → in_tree a (plug k t) ≡ in_tree a t + in_path a k
in_tree-plug a t [] = omega arith
in_tree-plug a t (f ∷ k) =
    let more = in_tree-plug a (join f.side f.color t f.addr f.sibling) k in
    let j = in_tree-join a f.side f.color t f.addr f.sibling in omega arith

inner-beside :
    (fuel n y : ℕ) (tree : RbTree)
    → (rb_parent tree y == n) ≡ true
    → erase_inner fuel n y tree
      ≡ erase_end fuel n
          (rb_color tree y)
          y
          (child_of tree right y)
          (rb_is_child tree right y)
          (crown n y tree)
unfolding erase_inner
inner-beside fuel n y tree e =
    ap
      (λ b.
        erase_end fuel n (rb_color tree y) (if b then y else rb_parent tree y)
          (child_of tree right y) (rb_is_child tree right y)
          (crown n y
            (if b then tree else handed n y (rb_transplant y (child_of tree right y) tree))))
      e

inner-deep :
    (fuel n y : ℕ) (tree : RbTree)
    → (rb_parent tree y == n) ≡ false
    → erase_inner fuel n y tree
      ≡ erase_end fuel n
          (rb_color tree y)
          (rb_parent tree y)
          (child_of tree right y)
          (rb_is_child tree right y)
          (crown n y (handed n y (rb_transplant y (child_of tree right y) tree)))
unfolding erase_inner
inner-deep fuel n y tree e =
    ap
      (λ b.
        erase_end fuel n (rb_color tree y) (if b then y else rb_parent tree y)
          (child_of tree right y) (rb_is_child tree right y)
          (crown n y
            (if b then tree else handed n y (rb_transplant y (child_of tree right y) tree))))
      e

-- From the memory that is ready, to the end.
finish :
    (fuel q n y cld pdel : ℕ) (c cy d : Color) (is_right : Bool) (tree tree0 : RbTree) (l v : Tree)
    (ks k : List Frame)
    → Ready tree q n y c l (plug ks v) k
    → IsTree tree0.node y cld v
    → d ≡ cy
    → IsRb (fork cy leaf y v)
    → IsBlackAbove cy (ks ++ below right c n l ∷ k)
    → IsRbPath (weight cy + 0) (ks ++ below right c n l ∷ k)
    → ((q' : ℕ) (p' : ℕ) (t' : RbTree) → IsAt t' q' p' v (ks ++ below right c y l ∷ k) → q' ≡ pdel)
    → IsOnSide is_right (ks ++ below right c y l ∷ k)
    → 1 + length (ks ++ below right c y l ∷ k) < fuel
    → (tree' : RbTree) × (erase_end fuel n d pdel cld is_right (crown n y tree) ≡ some tree')
      × IsRbTree (inorder (plug k (fork c l y (plug ks v)))) tree'
finish fuel q n y cld pdel c cy d is_right tree tree0 l v ks k ready iv color it ab path parent side
      enough =
    let (eh, bl, bv, il, ibv) = it in
    let t5 : RbTree = crown n y tree in
    let whole_path : List Frame = ks ++ below right c y l ∷ k in
    let j = crown-IsAt tree q n y c l (plug ks v) k ready in
    let j1 = down t5 q y right c (plug ks v) y l k j in
    let (q5, p5, j2) = down_all t5 y (child_of t5 right y) v ks (below right c y l ∷ k) j1 in
    let at_cld = same_address tree0 t5 y q5 cld p5 v iv j2.here in
    let at_pdel = parent q5 p5 t5 j2 in
    let j3 =
      subst (λ b. IsAt t5 pdel b v whole_path) at_cld
        (subst (λ b. IsAt t5 b p5 v whole_path) at_pdel j2) in
    let same : plug whole_path v ≡ plug k (fork c l y (plug ks v)) =
      plug-append ks (below right c y l ∷ k) v in
    let once = ready.once n in
    let gone : count n (inorder (plug whole_path v)) ≡ 0 =
      sym (in_tree-count n (plug whole_path v))
      ∙ in_tree-plug n v whole_path
      ∙ (let moved = in_path-append n v ks (below right c y l ∷ k) in ground arith) in
    let (tree', e, r) =
      erase_end-IsRbTree fuel n pdel cld cy is_right t5 v whole_path j3 ibv bv
        (IsBlackAbove-readdress right c n y l k cy ks ab)
        (subst (λ m. IsRbPath (weight cy + m) whole_path) eh
          (IsRbPath-readdress right c n y l k (weight cy + 0) ks path))
        (inr side) gone enough in
    (
      tree',
      ap (λ d. erase_end fuel n d pdel cld is_right t5) color ∙ e,
      subst (λ t. IsRbTree (inorder t) tree') same r,
    )

-- The successor is the right child.
pub beside-IsRbTree :
    (fuel q n q1 y : ℕ) (c cy : Color) (tree : RbTree) (l r v : Tree) (k : List Frame)
    → IsAt tree q n (fork c l n r) k
    → child_of tree left n ≢ 0
    → IsAt tree q1 y (fork cy leaf y v) (below right c n l ∷ k)
    → IsRb (fork cy leaf y v)
    → IsBlackAbove cy (below right c n l ∷ k)
    → IsRbPath (weight cy + 0) (below right c n l ∷ k)
    → 1 + length (below right c n l ∷ k) < fuel
    → (tree' : RbTree) × (erase_inner fuel n y tree ≡ some tree')
      × IsRbTree (inorder (plug k (fork c l y v))) tree'
beside-IsRbTree fuel q n q1 y c cy tree l r v k i null g it ab path enough =
    let (e, m, par, co, il, ir) = g.here in
    let above = g.above in
    let (yes_right, no_left) =
      is_child tree q1 y (fork cy leaf y v) (below right c n l) k g (par, m) in
    let on : (rb_parent tree y == n) ≡ true = (let z = par ∙ above.0 in ground arith) in
    let (tree', e', r') =
      finish fuel q n y (child_of tree right y) y c cy (rb_color tree y) (rb_is_child tree right y)
        tree tree l v [] k (beside-Ready tree q n q1 y c cy l v r k i null g) ir co it ab path
        (λ q' p' t' j. j.above.0) (ap side_of (sym yes_right)) enough in
    (tree', inner-beside fuel n y tree on ∙ e', r')

-- The successor is deeper.
pub deep-IsRbTree :
    (fuel q n q1 y : ℕ) (c cy : Color) (tree : RbTree) (l r v : Tree) (f : Frame)
    (ks k : List Frame)
    → IsAt tree q n (fork c l n r) k
    → child_of tree left n ≢ 0
    → IsAt tree q1 y (fork cy leaf y v) (f ∷ ks ++ below right c n l ∷ k)
    → f.side ≡ left
    → IsRb (fork cy leaf y v)
    → IsBlackAbove cy (f ∷ ks ++ below right c n l ∷ k)
    → IsRbPath (weight cy + 0) (f ∷ ks ++ below right c n l ∷ k)
    → 1 + length (f ∷ ks ++ below right c y l ∷ k) < fuel
    → (tree' : RbTree) × (erase_inner fuel n y tree ≡ some tree')
      × IsRbTree (inorder (plug k (fork c l y (plug (f ∷ ks) v)))) tree'
deep-IsRbTree fuel q n q1 y c cy tree l r v f ks k i null g side it ab path enough =
    let (e, m, par, co, il, ir) = g.here in
    let (ea, ma, ca, cha, ia, above) = g.above in
    let rest : List Frame = ks ++ below right c n l ∷ k in
    let cld : ℕ = child_of tree right y in
    let (on_side, off_side) = is_child tree q1 y (fork cy leaf y v) f rest g (par, m) in
    let is_left : rb_is_child tree right y ≡ false =
      subst (λ s. rb_is_child tree (other s) y ≡ false) side off_side in
    let t1 : RbTree = rb_transplant y cld tree in
    let i1 =
      rb_transplant-IsAt tree q1 y cld (fork cy leaf y v) v (f ∷ rest) g m par ir
        (λ a. omega arith) in
    let (q2, p2, i2) = up_all t1 q1 cld v (f ∷ ks) (below right c n l ∷ k) i1 in
    let i3 = up t1 q2 p2 (plug (f ∷ ks) v) (below right c n l) k i2 in
    let at_n : q2 ≡ n = i3.here.0 in
    let i4 =
      subst (λ b. IsAt t1 b n (fork c l n (plug (f ∷ ks) v)) k)
        (path_parent tree.node t1.node tree.rb_root t1.rb_root q (rb_parent t1 q2) n q2 k i.above
          i3.above)
        (subst (λ b. IsAt t1 (rb_parent t1 q2) b (fork c l n (plug (f ∷ ks) v)) k) at_n i3) in
    let off : (rb_parent tree y == n) ≡ false =
      (let on_path = in_path-append n leaf ks (below right c n l ∷ k) in
        let o = g.once n in
        let parent = par ∙ ea in let apart : f.addr ≢ n = λ z. ground arith in ground arith) in
    let lower' = i4.here.4 in
    let upper' = i4.here.5 in
    let bottom : Tree = join f.side f.color v f.addr f.sibling in
    let sized = length-plug bottom ks in
    let joined = length-join f.side f.color v f.addr f.sibling in
    let counted = in_path-append y v (f ∷ ks) (below right c n l ∷ k) in
    let (tree', e', r') =
      finish fuel q n y cld (rb_parent tree y) c cy (rb_color tree y) (rb_is_child tree right y)
        (handed n y t1) tree l v (f ∷ ks) k
        (handed-Ready t1 q n y c l (plug (f ∷ ks) v) k i4
          (λ z. null (
            sym (
              same_address tree t1 n n (child_of tree left n) (child_of t1 left n) l i.here.4
                lower')
            ∙ z))
          (root_not_null t1.node n (child_of t1 right n) (plug (f ∷ ks) v) upper' (omega arith)) m
          (let o = g.once y in ground arith))
        ir co it ab path (λ q' p' t' j. j.above.0 ∙ sym ea ∙ sym par)
        (side ∙ ap side_of (sym is_left)) enough in
    (tree', inner-deep fuel n y tree off ∙ e', r')
