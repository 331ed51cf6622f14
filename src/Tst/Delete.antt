-- ===== src/Tst/Delete.antt =====
-- `tst_delete` of src/common/ds/tsearch_tree.c on a tree whose back pointers are right, and on two
-- trees where they are not.
use Prim.Native.Nat.{compare}
use Prim.Native.Nat.Ordering.{lt, eq, gt}
use c_liber.Prelude.{
  ℕ, suc, ◌≡◌, refl, sym, ◌∙◌, ◌≢◌, List, [], ◌∷◌, Option, none, some, if◌then◌else◌, arith,
  by_order,
}
use c_liber.Tst.{
  Link, null, owner, other, Node, nil, chr, val, Key, own, new_tst_vnode, new_tst_node,
  make_null_head, put_head, put_above, tst_search_r, insert_head_r, Deleted, done, null_store,
  stray_store, prune, rebuild, unlink, tst_delete_r,
}
use c_liber.Tst.Links.{IsLinked, insert_all, insert_all-IsLinked}
use c_liber.Tst.Lookup.{eq_key}

-- The values of a map at one key, as a list.
abbrev pub option_list : Option ℕ → List ℕ
option_list none = []
option_list (some v) = v ∷ []

-- A deletion that comes to its end, leaves the tree linked, gives the key's value to `freeFn` and
-- unmaps the key alone.
abbrev pub Removes : (p : Link) → Key → Node → Deleted → Type 0
Removes p key t (done node freed) =
    IsLinked p node
    × (freed ≡ option_list (tst_search_r t key))
    × ((j : Key) → tst_search_r node j ≡ (if eq_key key j then none else tst_search_r t j))
Removes p key t null_store = ⊥
Removes p key t stray_store = ⊥

search-empty : (c : ℕ) (j : Key) → tst_search_r (chr c nil nil nil) j ≡ none
unfolding tst_search_r
search-empty c [] = refl
search-empty c (b ∷ bs) = ground arith

search-prune : (t : Node) (j : Key) → tst_search_r (prune t) j ≡ tst_search_r t j
unfolding prune
search-prune (chr c nil nil nil) j = unfold tst_search_r in sym (search-empty c j)
search-prune t j = refl

IsLinked-prune : (p : Link) (t : Node) → IsLinked p t → IsLinked p (prune t)
unfolding prune
IsLinked-prune p (chr c nil nil nil) h = tt
IsLinked-prune p t h = h

keeps :
    (t : Node) (j : Key)
    → tst_search_r t [] ≡ none
    → tst_search_r t j ≡ (if eq_key [] j then none else tst_search_r t j)
keeps t [] e = e
keeps t (b ∷ bs) e = refl

unlink-Removes :
    (p : Link) (v : ℕ) (l : Node) (r : Link)
    → IsLinked p (val v l r)
    → Removes p [] (val v l r) (unlink v l r)
unfolding unlink tst_search_r
unlink-Removes p v l null (a, b, h) = absurd (cc)
unlink-Removes p v nil owner (a, b, h) = (tt, refl, λ j. ground arith)
unlink-Removes p v (chr c l e r) owner (a, b, h) = (h, refl, λ j. ground arith)
unlink-Removes p v (val w l r) owner (a, b, h) = absurd (cc)
unlink-Removes p v l other (a, b, h) = absurd (cc)

module _ (c k : ℕ) (key : Key) (l e r : Node) (p : Link) (h : IsLinked p (chr c l e r)) where
  lt-Removes :
      (d : Deleted)
      → compare k c ≡ lt
      → Removes other (k ∷ key) l d
      → Removes p (k ∷ key) (chr c l e r) (rebuild (λ l'. prune (chr c l' e r)) d)
  lt-Removes (done l' freed) o (linked, gone, maps) = (
    IsLinked-prune p (chr c l' e r) (linked, h.1, h.2),
    unfold tst_search_r in ground (arith, gone),
    λ j. search-prune (chr c l' e r) j ∙ kept j (maps j),
  )
    where
      kept :
          (j : Key)
          → tst_search_r l' j ≡ (if eq_key (k ∷ key) j then none else tst_search_r l j)
          → tst_search_r (chr c l' e r) j
            ≡ (if eq_key (k ∷ key) j then none else tst_search_r (chr c l e r) j)
      kept [] q = unfold tst_search_r in refl
      kept (b ∷ bs) q = unfold tst_search_r in ground (arith, q)
  lt-Removes null_store o h = h
  lt-Removes stray_store o h = h

  gt-Removes :
      (d : Deleted)
      → compare k c ≡ gt
      → Removes other (k ∷ key) r d
      → Removes p (k ∷ key) (chr c l e r) (rebuild (λ r'. prune (chr c l e r')) d)
  gt-Removes (done r' freed) o (linked, gone, maps) = (
    IsLinked-prune p (chr c l e r') (h.0, h.1, linked),
    unfold tst_search_r in ground (arith, gone),
    λ j. search-prune (chr c l e r') j ∙ kept j (maps j),
  )
    where
      kept :
          (j : Key)
          → tst_search_r r' j ≡ (if eq_key (k ∷ key) j then none else tst_search_r r j)
          → tst_search_r (chr c l e r') j
            ≡ (if eq_key (k ∷ key) j then none else tst_search_r (chr c l e r) j)
      kept [] q = unfold tst_search_r in refl
      kept (b ∷ bs) q = unfold tst_search_r in ground (arith, q)
  gt-Removes null_store o h = h
  gt-Removes stray_store o h = h

  eq-Removes :
      (d : Deleted)
      → compare k c ≡ eq
      → Removes owner key e d
      → Removes p (k ∷ key) (chr c l e r) (rebuild (λ e'. prune (chr c l e' r)) d)
  eq-Removes (done e' freed) o (linked, gone, maps) = (
    IsLinked-prune p (chr c l e' r) (h.0, linked, h.2),
    unfold tst_search_r in ground (arith, gone),
    λ j. search-prune (chr c l e' r) j ∙ kept j maps,
  )
    where
      kept :
          (j : Key)
          → ((i : Key) → tst_search_r e' i ≡ (if eq_key key i then none else tst_search_r e i))
          → tst_search_r (chr c l e' r) j
            ≡ (if eq_key (k ∷ key) j then none else tst_search_r (chr c l e r) j)
      kept [] q = unfold tst_search_r in refl
      kept (b ∷ bs) q = unfold tst_search_r in ground (arith, q bs)
  eq-Removes null_store o h = h
  eq-Removes stray_store o h = h

val-Removes :
    (v : ℕ) (l : Node) (r p : Link) (k : ℕ) (key : Key) (d : Deleted)
    → IsLinked p (val v l r)
    → Removes other (k ∷ key) l d
    → Removes p (k ∷ key) (val v l r) (rebuild (λ l'. val v l' r) d)
val-Removes v l r p k key (done l' freed) h (linked, gone, maps) =
    ((h.0, h.1, linked), unfold tst_search_r in gone, λ j. kept j (maps j))
  where
    kept :
        (j : Key)
        → tst_search_r l' j ≡ (if eq_key (k ∷ key) j then none else tst_search_r l j)
        → tst_search_r (val v l' r) j
          ≡ (if eq_key (k ∷ key) j then none else tst_search_r (val v l r) j)
    kept [] q = unfold tst_search_r in refl
    kept (b ∷ bs) q = unfold tst_search_r in q
val-Removes v l r p k key null_store h q = q
val-Removes v l r p k key stray_store h q = q

-- In a linked tree a deletion comes to its end: it gives the value of the key to `freeFn`, once, if
-- the key is there, unmaps the key and no other, and leaves the tree linked.
pub tst_delete_r-Removes :
    (p : Link) (t : Node) (key : Key) → IsLinked p t → Removes p key t (tst_delete_r t key)
unfolding tst_delete_r
tst_delete_r-Removes p nil key h =
    (tt, unfold tst_search_r in refl, λ j. unfold tst_search_r in ground arith)
tst_delete_r-Removes p (chr c l e r) [] h =
    (h, unfold tst_search_r in refl, λ j. keeps (chr c l e r) j (unfold tst_search_r in refl))
tst_delete_r-Removes p (chr c l e r) (k ∷ key) h =
    by_order (Removes p (k ∷ key) (chr c l e r)) (compare k c) _ _ _
      (λ o. lt-Removes c k key l e r p h _ o (tst_delete_r-Removes other l (k ∷ key) h.0))
      (λ o. eq-Removes c k key l e r p h _ o (tst_delete_r-Removes owner e key h.1))
      (λ o. gt-Removes c k key l e r p h _ o (tst_delete_r-Removes other r (k ∷ key) h.2))
tst_delete_r-Removes p (val v l r) [] h = unlink-Removes p v l r h
tst_delete_r-Removes p (val v l r) (k ∷ key) h =
    val-Removes v l r p k key _ h (tst_delete_r-Removes other l (k ∷ key) h.2)

-- After any insertions of non-empty keys into an empty tree every deletion comes to its end, gives the
-- key's value to `freeFn` if there is one, unmaps its key alone and leaves the tree linked.
pub delete-insert_all :
    (rows : List (ℕ × Key × ℕ × ℕ)) (key : Key)
    → let t = insert_all rows nil in Removes null key t (tst_delete_r t key)
delete-insert_all rows key = tst_delete_r-Removes null _ key (insert_all-IsLinked rows nil tt tt)

-- A key put back into a node whose `e` subtree was deleted has a value node with `r = NULL`: its
-- deletion stores through NULL.
pub delete_put_back :
    (c : ℕ) (l r : Node) (p : Link) (v m : ℕ)
    → tst_delete_r (insert_head_r (chr c l nil r) p (c ∷ []) v (suc m)).node (c ∷ []) ≡ null_store
unfolding tst_delete_r insert_head_r make_null_head put_head new_tst_vnode unlink
delete_put_back c l r p v m = ground arith

-- A deletion can leave a node whose `e` is NULL. With two different keys of one character each: the
-- first is deleted and its value freed; when it is put back and deleted again, the deletion stores
-- through NULL.
pub delete_again :
    (a b u v w m : ℕ)
    → a ≢ b
    → let both = insert_all ((a, [], u, suc (suc m)) ∷ (b, [], v, suc (suc m)) ∷ []) nil in
      (t : Node) × (tst_delete_r both (a ∷ []) ≡ done t (u ∷ []))
      × (tst_delete_r (insert_head_r t null (a ∷ []) w (suc m)).node (a ∷ []) ≡ null_store)
unfolding tst_delete_r insert_head_r make_null_head put_head new_tst_vnode new_tst_node own unlink
    prune
delete_again a b u v w m ne =
    let kept : Node = chr b nil (val v nil owner) nil in
    (
      elim (compare b a) [ lt ↦ chr a kept nil nil | eq ↦ nil | gt ↦ chr a nil nil kept ],
      ground arith,
      ground arith,
    )

-- In a linked tree, the empty key has a value node with `r = NULL` once it is inserted: its deletion
-- stores through NULL.
pub delete_empty_key :
    (t : Node) (v m : ℕ)
    → IsLinked null t
    → tst_delete_r (insert_head_r t null [] v (suc m)).node [] ≡ null_store
unfolding tst_delete_r insert_head_r make_null_head put_head put_above new_tst_vnode unlink
delete_empty_key nil v m h = refl
delete_empty_key (chr c l e r) v m h = refl
delete_empty_key (val w l r) v m h = absurd (cc)
