-- ===== src/RbTree.antt =====
-- src/common/ds/rbtree.c and rbtree.h: a red-black tree of nodes that their owners embed. A node is an
-- address, 0 for NULL, and `node` is what stands at each address; what stands at NULL is arbitrary.
-- `__rb_parent_color` is two fields, since nodes are aligned and the lowest bit is free. The code
-- writes each rotation and each fixup twice, once with left and right exchanged: here the two take a
-- `Side`, and the version with `left` is the one that the code writes first.
pub mod Insert
pub mod Erase
pub mod Walk
pub mod Shape
pub mod Rotate
pub mod Turn
pub mod Moves
pub mod Balance
pub mod Fixup
pub mod Cases
pub mod Round
pub mod Loop
pub mod Order
pub mod Insertion
pub mod Attach
pub mod Refine
pub mod Remove
pub mod RoundTrip
mod Tests
use c_liber.Prelude.{
  ℕ, zero, suc, ◌≡◌, ◌≢◌, refl, arith, Bool, true, false, not, ◌&&◌, ◌||◌, ◌==◌, if◌then◌else◌,
}

-- RB_RED and RB_BLACK
pub data Color : Type 0 where
  red black : Color

pub data Side : Type 0 where
  left right : Side

abbrev pub other : Side → Side
other left = right
other right = left

-- `struct rb_node`
pub record RbNode : Type 0 where
  pub parent : ℕ
  pub color : Color
  pub rb_left : ℕ
  pub rb_right : ℕ

-- `struct rb_tree`, with the memory.
pub record RbTree : Type 0 where
  pub rb_root : ℕ
  pub node : ℕ → RbNode

abbrev pub child : Side → RbNode → ℕ
child left n = n.rb_left
child right n = n.rb_right

abbrev pub with_child : Side → ℕ → RbNode → RbNode
with_child left q n = record n { rb_left = q }
with_child right q n = record n { rb_right = q }

abbrev pub same_color : Color → Color → Bool
same_color red red = true
same_color black black = true
same_color _ _ = false

module _ (tree : RbTree) where
  abbrev pub rb_parent : ℕ → ℕ
  rb_parent p = (tree.node p).parent

  abbrev pub rb_gparent : ℕ → ℕ
  rb_gparent p = rb_parent (rb_parent p)

  abbrev pub rb_color : ℕ → Color
  rb_color p = (tree.node p).color

  abbrev pub child_of : Side → ℕ → ℕ
  child_of s p = child s (tree.node p)

  abbrev pub rb_is_root : ℕ → Bool
  rb_is_root p = not (p == 0) && (rb_parent p == 0)

  -- `rb_is_lchild` and `rb_is_rchild`
  abbrev pub rb_is_child : Side → ℕ → Bool
  rb_is_child s p = not (p == 0) && not (rb_is_root p) && (child_of s (rb_parent p) == p)

  abbrev pub rb_is_red : ℕ → Bool
  rb_is_red p = not (p == 0) && same_color (rb_color p) red

  abbrev pub rb_is_black : ℕ → Bool
  rb_is_black p = (p == 0) || same_color (rb_color p) black

-- A store to the fields of the node at `p`.
unfoldable pub update : ℕ → (RbNode → RbNode) → RbTree → RbTree
update p f tree = record tree { node = λ q. if q == p then f (tree.node p) else tree.node q }

pub at_update :
    (p : ℕ) (f : RbNode → RbNode) (tree : RbTree) → (update p f tree).node p ≡ f (tree.node p)
unfolding update
at_update p f tree = ground arith

pub off_update :
    (p q : ℕ) (f : RbNode → RbNode) (tree : RbTree) → q ≢ p → (update p f tree).node q ≡ tree.node q
unfolding update
off_update p q f tree h = ground arith

pub root-update :
    (p : ℕ) (f : RbNode → RbNode) (tree : RbTree) → (update p f tree).rb_root ≡ tree.rb_root
unfolding update
root-update p f tree = refl

abbrev pub with_parent : ℕ → RbNode → RbNode
with_parent q n = record n { parent = q }

abbrev pub with_color : Color → RbNode → RbNode
with_color c n = record n { color = c }

abbrev pub set_child : Side → (p q : ℕ) → RbTree → RbTree
set_child s p q = update p (with_child s q)

abbrev pub rb_set_parent : (p q : ℕ) → RbTree → RbTree
rb_set_parent p q = update p (with_parent q)

abbrev pub rb_set_color : ℕ → Color → RbTree → RbTree
rb_set_color p c = update p (with_color c)

abbrev pub set_root : ℕ → RbTree → RbTree
set_root p tree = record tree { rb_root = p }

abbrev pub rb_node_init : ℕ → RbTree → RbTree
rb_node_init p tree =
    update p (λ n. record { parent = 0; color = red; rb_left = 0; rb_right = 0 }) tree

-- The place of `u`, in its parent or at the root, is given to `v`.
unfoldable pub relink : (u v : ℕ) → RbTree → RbTree
relink u v tree =
    if rb_is_root tree u
    then set_root v tree
    else if rb_is_child tree left u
    then set_child left (rb_parent tree u) v tree
    else set_child right (rb_parent tree u) v tree

-- The subtree `v`, if there is one, gets the parent `p`.
unfoldable pub reparent : (v p : ℕ) → RbTree → RbTree
reparent v p tree = if v == 0 then tree else rb_set_parent v p tree

-- `rb_left_rotate` is `rotate left`, `rb_right_rotate` is `rotate right`.
unfoldable pub rotate : Side → (root : ℕ) → RbTree → RbTree
unfolding relink reparent
rotate s root tree =
    let new_root = child_of tree (other s) root in
    let inner = child_of tree s new_root in
    let t1 : RbTree = set_child (other s) root inner tree in
    let t2 : RbTree = reparent inner root t1 in
    let t3 : RbTree = rb_set_parent new_root (rb_parent t2 root) t2 in
    let t4 : RbTree = relink root new_root t3 in
    rb_set_parent root new_root (set_child s new_root root t4)
