-- ===== src/RbTree/Remove.antt =====
-- `rb_erase` of src/common/ds/rbtree.c on the tree that the memory represents: the cases of the fixup and
-- its loop, the transplantation, and the successor that takes the place of a node with two children.
pub mod Lift
pub mod Short
pub mod Sibling
pub mod Tail
pub mod Round
pub mod Loop
pub mod Transplant
pub mod End
pub mod Crown
pub mod Descent
pub mod Inner
pub mod Taken
pub mod Locate
pub mod Outer
pub mod Refine
