-- ===== src/Tst/Count.antt =====
-- `key_num` of src/common/ds/tsearch_tree.c against the keys of the tree, and the destruction of a
-- tree.
use Prim.Native.Nat.{compare}
use c_liber.Prelude.{
  ℕ, zero, suc, ◌+◌, ◌≡◌, refl, ap, ◌∙◌, ◌≢◌, List, [], ◌∷◌, ◌++◌, Option, none, some, arith,
  by_order, length, length-append, pos, inc, dec, ◌<◌, ◌-◌, ◌^◌,
}
use c_liber.Tst.{
  Link, null, owner, other, Node, nil, chr, val, Key, own, new_tst_vnode, new_tst_node,
  make_null_head, put_head, put_above, Status, added, replaced, failed, Inserted, insert_head_r,
  Deleted, done, null_store, stray_store, prune, rebuild, unlink, tst_delete_r, tst_destroy_r, Tree,
  tst_insert, tst_delete, tst_search,
}
use c_liber.Tst.Lookup.{new_tst_node-nil, Reports, insert_head_r-Reports}
use c_liber.Tst.Links.{IsLinked}
use c_liber.Tst.Delete.{Removes, option_list, tst_delete_r-Removes}

-- The values that a tree holds, counted through `tst_destroy`, which gives each of them to `freeFn`.
abbrev pub size : Node → ℕ
size nil = 0
size (chr c l e r) = size l + size e + size r
size (val v l r) = suc (size l)

-- `tst_destroy` calls `freeFn` once for each value node.
pub length-tst_destroy_r : (t : Node) → length (tst_destroy_r t) ≡ size t
unfolding tst_destroy_r
length-tst_destroy_r nil = refl
length-tst_destroy_r (chr c l e r) = omega (
  arith,
  length-append (tst_destroy_r l ++ tst_destroy_r e) (tst_destroy_r r),
  length-append (tst_destroy_r l) (tst_destroy_r e),
  length-tst_destroy_r l,
  length-tst_destroy_r e,
  length-tst_destroy_r r,
)
length-tst_destroy_r (val v l r) = omega (arith, length-tst_destroy_r l)

abbrev grown : Status → ℕ
grown added = 1
grown replaced = 0
grown failed = 0

-- How an insertion changes the number of values.
abbrev Grows : Node → Inserted → Type 0
Grows t s = size s.node ≡ size t + grown s.status

size-own : (t : Node) → size (own t) ≡ size t
unfolding own
size-own t = ground arith

new_tst_node-size :
    (e : Node) (c m : ℕ) → (new_tst_node e c m).0 ≢ nil → size (new_tst_node e c m).0 ≡ size e
unfolding new_tst_node
new_tst_node-size nil c m h = refl
new_tst_node-size (chr d l e r) c zero h = absurd (h refl)
new_tst_node-size (val v l r) c zero h = absurd (h refl)
new_tst_node-size (chr d l e r) c (suc m) h = omega (arith, size-own (chr d l e r))
new_tst_node-size (val v l r) c (suc m) h = omega (arith, size-own (val v l r))

make_null_head-size :
    (key : Key) (v m : ℕ) → (make_null_head key v m).0 ≢ nil → size (make_null_head key v m).0 ≡ 1
unfolding make_null_head
make_null_head-size [] v zero h = absurd (unfold new_tst_vnode in h refl)
make_null_head-size [] v (suc m) h = unfold new_tst_vnode in refl
make_null_head-size (c ∷ key) v m h =
    new_tst_node-size (make_null_head key v m).0 c (make_null_head key v m).1 h
    ∙ make_null_head-size key v m (λ e. h (new_tst_node-nil _ c _ e))

put_head-Grows : (t : Node) → (t ≢ nil → size t ≡ 1) → Grows nil (put_head t)
unfolding put_head
put_head-Grows nil h = refl
put_head-Grows (chr c l e r) h = h (λ q. cc)
put_head-Grows (val v l r) h = h (λ q. cc)

put_above-Grows : (t : Node) (p : Link) (v m : ℕ) → Grows t (put_above t p v (new_tst_vnode v m).0)
unfolding put_above new_tst_vnode
put_above-Grows t p v zero = omega arith
put_above-Grows t p v (suc m) = omega arith

insert_head_r-Grows :
    (t : Node) (p : Link) (key : Key) (v m : ℕ) → Grows t (insert_head_r t p key v m)
unfolding insert_head_r
insert_head_r-Grows nil p key v m =
    put_head-Grows (make_null_head key v m).0 (make_null_head-size key v m)
insert_head_r-Grows (val w l r) p [] v m = omega arith
insert_head_r-Grows (val w l r) p (k ∷ key) v m =
    omega (arith, insert_head_r-Grows l other (k ∷ key) v m)
insert_head_r-Grows (chr c l e r) p [] v m = put_above-Grows (chr c l e r) p v m
insert_head_r-Grows (chr c l e r) p (k ∷ key) v m =
    by_order (Grows (chr c l e r)) (compare k c) _ _ _
      (λ o. omega (arith, insert_head_r-Grows l other (k ∷ key) v m))
      (λ o. omega (arith, insert_head_r-Grows e owner key v m))
      (λ o. omega (arith, insert_head_r-Grows r other (k ∷ key) v m))

abbrev pub IsCounted : Tree → Type 0
IsCounted t = t.key_num ≡ pos (size t.head)

-- `key_num` after an insertion, by the value that the key had: a key that was there is not counted
-- again, and a failure counts nothing.
abbrev pub Counts : (before : Option ℕ) → Status → (t t' : Tree) → Type 0
Counts (some w) st t t' = (st ≡ replaced) × (t'.key_num ≡ t.key_num)
Counts none added t t' = t'.key_num ≡ inc t.key_num
Counts none replaced t t' = ⊥
Counts none failed t t' = t'.key_num ≡ t.key_num

Counts-Reports :
    (need m : ℕ) (before old : Option ℕ) (t : Tree) (s : Inserted)
    → Reports need m s.status before old t.head s.node
    → Counts before s.status t (record {
      head = s.node;
      key_num = elim s.status [ added ↦ inc t.key_num | _ ↦ t.key_num ];
    })
Counts-Reports need m before old t s h = split s.status before h
  where
    split :
        (st : Status) (o : Option ℕ)
        → Reports need m st o old t.head s.node
        → Counts o st t
            (record { head = s.node; key_num = elim st [ added ↦ inc t.key_num | _ ↦ t.key_num ] })
    split added none h = refl
    split added (some w) h = absurd (cc)
    split replaced none (w, e, _) = absurd (cc)
    split replaced (some w) h = (refl, refl)
    split failed none h = refl
    split failed (some w) h = absurd (cc)

-- In a tree of fewer than 2 ^ 31 - 1 values, so that the `int` does not overflow, `tst_insert` keeps
-- `key_num` the number of values that `tst_destroy` frees, which stays below 2 ^ 31. It counts a new
-- key just where `tst_search` did not find the key and the insertion did not fail, and reports a key
-- that was found as replaced, without counting it again.
pub tst_insert-IsCounted :
    (t : Tree) (key : Key) (v m : ℕ)
    → IsCounted t
    → length (tst_destroy_r t.head) < 2 ^ 31 - 1
    → let (st, old, t') = tst_insert t key v m in
      (t'.key_num ≡ pos (length (tst_destroy_r t'.head)))
      × (length (tst_destroy_r t'.head) < 2 ^ 31)
      × Counts (tst_search t key) st t t'
unfolding tst_insert
tst_insert-IsCounted t key v m h few =
    let s = insert_head_r t.head null key v m in
    let grows = insert_head_r-Grows t.head null key v m in
    let reports = insert_head_r-Reports t.head null key v m in
    let freed = length-tst_destroy_r s.node in
    (
      ground (arith, grows, freed),
      ground (arith, grows, freed, length-tst_destroy_r t.head),
      Counts-Reports (length key + 1) m (tst_search t key) s.old t s reports,
    )

-- What a deletion takes away it gives to `freeFn`.
abbrev Shrinks : Node → Deleted → Type 0
Shrinks t (done node freed) = size node + length freed ≡ size t
Shrinks t null_store = Unit
Shrinks t stray_store = Unit

size-prune : (t : Node) → size (prune t) ≡ size t
unfolding prune
size-prune (chr c nil nil nil) = refl
size-prune t = refl

Shrinks-rebuild :
    (f : Node → Node) (t u : Node) (d : Deleted)
    → Shrinks t d
    → ((t' : Node) → size (f t') + size t ≡ size t' + size u)
    → Shrinks u (rebuild f d)
Shrinks-rebuild f t u (done node freed) h same = omega (arith, same node)
Shrinks-rebuild f t u null_store h same = tt
Shrinks-rebuild f t u stray_store h same = tt

unlink-Shrinks : (v : ℕ) (l : Node) (r : Link) → Shrinks (val v l r) (unlink v l r)
unfolding unlink
unlink-Shrinks v l null = tt
unlink-Shrinks v l owner = omega arith
unlink-Shrinks v l other = tt

tst_delete_r-Shrinks : (t : Node) (key : Key) → Shrinks t (tst_delete_r t key)
unfolding tst_delete_r
tst_delete_r-Shrinks nil key = refl
tst_delete_r-Shrinks (chr c l e r) [] = omega arith
tst_delete_r-Shrinks (chr c l e r) (k ∷ key) =
    by_order (Shrinks (chr c l e r)) (compare k c) _ _ _
      (λ o.
        Shrinks-rebuild (λ l'. prune (chr c l' e r)) l (chr c l e r) _
          (tst_delete_r-Shrinks l (k ∷ key)) (λ t'. omega (arith, size-prune (chr c t' e r))))
      (λ o.
        Shrinks-rebuild (λ e'. prune (chr c l e' r)) e (chr c l e r) _ (tst_delete_r-Shrinks e key)
          (λ t'. omega (arith, size-prune (chr c l t' r))))
      (λ o.
        Shrinks-rebuild (λ r'. prune (chr c l e r')) r (chr c l e r) _
          (tst_delete_r-Shrinks r (k ∷ key)) (λ t'. omega (arith, size-prune (chr c l e t'))))
tst_delete_r-Shrinks (val v l r) [] = unlink-Shrinks v l r
tst_delete_r-Shrinks (val v l r) (k ∷ key) =
    Shrinks-rebuild (λ l'. val v l' r) l (val v l r) _ (tst_delete_r-Shrinks l (k ∷ key))
      (λ t'. omega arith)

-- What a deletion leaves of `key_num`, by the value that the key had.
abbrev pub Recounts : Option ℕ → Tree → List ℕ → Type 0
Recounts (some v) t freed = (freed ≡ v ∷ []) × IsCounted t
Recounts none t freed = (freed ≡ []) × (t.key_num ≡ dec (pos (size t.head)))

recount :
    (before : Option ℕ) (t : Tree) (node : Node) (freed : List ℕ)
    → IsCounted t
    → freed ≡ option_list before
    → size node + length freed ≡ size t.head
    → Recounts before (record { head = node; key_num = dec t.key_num }) freed
recount none t node freed c e h =
    let same : size t.head ≡ size node = omega (arith, ap length e) in (e, ap dec (c ∙ ap pos same))
recount (some v) t node freed c e h =
    let less : size t.head ≡ suc (size node) = omega (arith, ap length e) in
    (e, ap dec (c ∙ ap pos less))

-- On a linked and counted tree `tst_delete` comes to its end, and afterwards `key_num` is the number of
-- keys if the key was there, and one less than that number if it was not.
pub tst_delete-Recounts :
    (t : Tree) (key : Key)
    → IsLinked null t.head
    → IsCounted t
    → (t' : Tree) × (freed : List ℕ) × (tst_delete t key ≡ some (t', freed))
      × Recounts (tst_search t key) t' freed
unfolding tst_delete
tst_delete-Recounts t key linked counted =
    go (tst_delete_r t.head key) refl (tst_delete_r-Removes null t.head key linked)
      (tst_delete_r-Shrinks t.head key)
  where
    go :
        (d : Deleted)
        → tst_delete_r t.head key ≡ d
        → Removes null key t.head d
        → Shrinks t.head d
        → (t' : Tree) × (freed : List ℕ) × (tst_delete t key ≡ some (t', freed))
          × Recounts (tst_search t key) t' freed
    go (done node freed) e removes shrinks = (
      record { head = node; key_num = dec t.key_num },
      freed,
      rw (e, tst_delete),
      recount (tst_search t key) t node freed counted removes.1 shrinks,
    )
    go null_store e removes shrinks = absurd removes
    go stray_store e removes shrinks = absurd removes
