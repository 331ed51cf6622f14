-- ===== src/Tst.antt =====
-- src/common/ds/tsearch_tree.c: a ternary search tree from C strings to values.
-- A key is the list of its characters before the final '\0', each a number (the characters are
-- compared as `int`s; those of ASCII text are not negative). `isvnode` tests for the character '\0',
-- which no key holds, so the two kinds of nodes are two constructors. A tree owns its nodes; the one
-- pointer that goes back, `r` of a value node, is a `Link`. `malloc` is a number of calls that will
-- still succeed.
pub mod Lookup
pub mod Links
pub mod Delete
pub mod Count
pub mod Tests
use Prim.Native.Nat.{compare, Ordering}
use Prim.Native.Nat.Ordering.{lt, eq, gt}
use c_liber.Prelude.{
  ℕ, zero, suc, ◌+◌, ◌≡◌, Bool, true, false, ◌&&◌, List, [], ◌∷◌, ◌++◌, Option, none, some, ℤ, pos,
  negsuc, inc, dec,
}

-- Where `r` of a value node points: nowhere, to the node whose `e` field holds this value node, or to
-- a node that holds it in another field.
pub data Link : Type 0 where
  null owner other : Link

-- `struct tst_node *`
pub data Node : Type 0 where
  nil : Node
  chr : (c : ℕ) → (l e r : Node) → Node
  val : (v : ℕ) → (l : Node) → (r : Link) → Node

abbrev pub Key : Type 0
Key = List ℕ

pub new_tst_vnode : ℕ → ℕ → Node × ℕ
new_tst_vnode v zero = (nil, 0)
new_tst_vnode v (suc m) = (val v nil null, m)

-- `if(isvnode(e)) e->r = new_node;`
own : Node → Node
own nil = nil
own (chr c l e r) = chr c l e r
own (val v l r) = val v l owner

pub new_tst_node : Node → ℕ → ℕ → Node × ℕ
unfolding own
new_tst_node nil c m = (nil, m)
new_tst_node e c zero = (nil, 0)
new_tst_node e c (suc m) = (chr c nil (own e) nil, m)

-- A chain of nodes for what is left of the key. (Where `malloc` fails the nodes made are freed.)
pub make_null_head : Key → ℕ → ℕ → Node × ℕ
unfolding new_tst_vnode new_tst_node
make_null_head [] v m = new_tst_vnode v m
make_null_head (c ∷ key) v m = let (tnode, m') = make_null_head key v m in new_tst_node tnode c m'

-- `tst_search_r`: the value found is what goes through `out`.
unfoldable pub tst_search_r : Node → Key → Option ℕ
tst_search_r nil key = none
tst_search_r (chr c l e r) [] = none
tst_search_r (chr c l e r) (k ∷ key) = elim (compare k c) [
  | lt ↦ tst_search_r l (k ∷ key)
  | eq ↦ tst_search_r e key
  | gt ↦ tst_search_r r (k ∷ key)
]
tst_search_r (val v l r) [] = some v
tst_search_r (val v l r) (k ∷ key) = tst_search_r l (k ∷ key)

-- The results 0, 1 and -1 of an insertion.
pub data Status : Type 0 where
  added replaced failed : Status

-- `old` is what goes through `oval`, `node` what stands in `*headp` afterwards.
pub record Inserted : Type 0 where
  pub status : Status
  pub old : Option ℕ
  pub node : Node

abbrev inside : (Node → Node) → Inserted → Inserted
inside f s = record s { node = f s.node }

-- The results of `malloc`, as they are used.
put_head : Node → Inserted
put_head nil = record { status = failed; old = none; node = nil }
put_head head = record { status = added; old = none; node = head }

-- A new value node above `head`, with `r = p`.
put_above : Node → Link → ℕ → Node → Inserted
put_above head p v (val w l r) = record { status = added; old = none; node = val w head p }
put_above head p v _ = record { status = failed; old = none; node = head }

-- `insertHeadR`: `p` says how the node `p` of the code relates to the field that holds the head.
unfoldable pub insert_head_r : Node → Link → Key → ℕ → (m : ℕ) → Inserted
unfolding make_null_head put_head put_above
insert_head_r nil p key v m = put_head (make_null_head key v m).0
insert_head_r (val w l r) p [] v m = record { status = replaced; old = some w; node = val v l r }
insert_head_r (val w l r) p (k ∷ key) v m =
    inside (λ l'. val w l' r) (insert_head_r l other (k ∷ key) v m)
insert_head_r (chr c l e r) p [] v m = put_above (chr c l e r) p v (new_tst_vnode v m).0
insert_head_r (chr c l e r) p (k ∷ key) v m = elim (compare k c) [
  | lt ↦ inside (λ l'. chr c l' e r) (insert_head_r l other (k ∷ key) v m)
  | eq ↦ inside (λ e'. chr c l e' r) (insert_head_r e owner key v m)
  | gt ↦ inside (λ r'. chr c l e r') (insert_head_r r other (k ∷ key) v m)
]

-- Deletion ends, or stops at a store through `head->r`: at NULL, or into a node that does not hold
-- the value node as its `e`. `freed` lists the values given to `freeFn`.
pub data Deleted : Type 0 where
  done : (node : Node) → (freed : List ℕ) → Deleted
  null_store : Deleted
  stray_store : Deleted

-- The nodes that become empty on the way back are freed.
prune : Node → Node
prune (chr c nil nil nil) = nil
prune t = t

abbrev rebuild : (Node → Node) → Deleted → Deleted
rebuild f (done node freed) = done (f node) freed
rebuild f null_store = null_store
rebuild f stray_store = stray_store

-- `freeFn(vnode_val(head)); head->r->e = head->l; free(head);`
unlink : ℕ → Node → Link → Deleted
unlink v l null = null_store
unlink v l owner = done l (v ∷ [])
unlink v l other = stray_store

unfoldable pub tst_delete_r : Node → Key → Deleted
unfolding prune unlink
tst_delete_r nil key = done nil []
tst_delete_r (chr c l e r) [] = done (chr c l e r) []
tst_delete_r (chr c l e r) (k ∷ key) = elim (compare k c) [
  | lt ↦ rebuild (λ l'. prune (chr c l' e r)) (tst_delete_r l (k ∷ key))
  | eq ↦ rebuild (λ e'. prune (chr c l e' r)) (tst_delete_r e key)
  | gt ↦ rebuild (λ r'. prune (chr c l e r')) (tst_delete_r r (k ∷ key))
]
tst_delete_r (val v l r) [] = unlink v l r
tst_delete_r (val v l r) (k ∷ key) = rebuild (λ l'. val v l' r) (tst_delete_r l (k ∷ key))

-- `tst_destroy_r`: the values given to `freeFn`, in order.
unfoldable pub tst_destroy_r : Node → List ℕ
tst_destroy_r nil = []
tst_destroy_r (chr c l e r) = tst_destroy_r l ++ tst_destroy_r e ++ tst_destroy_r r
tst_destroy_r (val v l r) = v ∷ tst_destroy_r l

-- `key_num` is an `int`, and may fall below 0; its overflow, which C leaves undefined, is not modelled.
pub record Tree : Type 0 where
  pub head : Node
  pub key_num : ℤ

pub tst_init : Tree
tst_init = record { head = nil; key_num = pos 0 }

abbrev pub tst_search : Tree → Key → Option ℕ
tst_search t key = tst_search_r t.head key

unfoldable pub tst_insert : Tree → Key → ℕ → (m : ℕ) → Status × Option ℕ × Tree
tst_insert t key v m = finish (insert_head_r t.head null key v m)
  where
    finish : Inserted → Status × Option ℕ × Tree
    finish s = (
      s.status,
      s.old,
      record { head = s.node; key_num = elim s.status [ added ↦ inc t.key_num | _ ↦ t.key_num ] },
    )

-- `none` where the deletion stops at a bad store.
unfoldable pub tst_delete : Tree → Key → Option (Tree × List ℕ)
tst_delete t key = elim (tst_delete_r t.head key) [
  | done node freed ↦ some (record { head = node; key_num = dec t.key_num }, freed)
  | null_store ↦ none
  | stray_store ↦ none
]
