-- ===== src/Tst/Links.antt =====
-- The back pointers of src/common/ds/tsearch_tree.c: when `tst_delete` finds its way back to the
-- field that it has to change, and when it does not.
use Prim.Native.Nat.{compare}
use c_liber.Prelude.{ℕ, zero, suc, ◌≡◌, refl, ◌≢◌, ◌⊎◌, inl, inr, List, [], ◌∷◌, arith, by_order}
use c_liber.Tst.{
  Link, null, owner, other, Node, nil, chr, val, Key, own, new_tst_vnode, new_tst_node,
  make_null_head, put_head, put_above, Inserted, insert_head_r,
}

-- Every value node stands in the `e` field of a node and points back to it. `p` tells the field that
-- holds the head.
abbrev pub IsLinked : (p : Link) → Node → Type 0
IsLinked p nil = Unit
IsLinked p (chr c l e r) = IsLinked other l × IsLinked owner e × IsLinked other r
IsLinked p (val v l r) = (p ≡ owner) × (r ≡ owner) × IsLinked other l

-- No node has lost its `e` subtree.
abbrev pub IsSolid : Node → Type 0
IsSolid nil = Unit
IsSolid (chr c l e r) = (e ≢ nil) × IsSolid l × IsSolid e × IsSolid r
IsSolid (val v l r) = IsSolid l

-- The chain that `makeNullHead` makes, as it stands in an `e` field: linked and solid.
abbrev Chain : Node → Type 0
Chain t = (t ≡ nil) ⊎ (IsLinked owner (own t) × IsSolid (own t) × (own t ≢ nil))

make_null_head-Chain : (key : Key) (v m : ℕ) → Chain (make_null_head key v m).0
unfolding make_null_head own
make_null_head-Chain [] v zero = inl (unfold new_tst_vnode in refl)
make_null_head-Chain [] v (suc m) = inr (unfold new_tst_vnode in ((refl, refl, tt), tt, λ q. cc))
make_null_head-Chain (c ∷ key) v m =
    go (make_null_head key v m).0 (make_null_head key v m).1 (make_null_head-Chain key v m)
  where
    go : (t : Node) (m' : ℕ) → Chain t → Chain (new_tst_node t c m').0
    go nil m' h = inl (unfold new_tst_node in refl)
    go (chr d l e r) zero h = inl (unfold new_tst_node in refl)
    go (val w l r) zero h = inl (unfold new_tst_node in refl)
    go (chr d l e r) (suc m') (inl q) = absurd (cc)
    go (val w l r) (suc m') (inl q) = absurd (cc)
    go (chr d l e r) (suc m') (inr (a, b, n)) =
        inr (unfold new_tst_node in ((tt, a, tt), (n, tt, b, tt), λ q. cc))
    go (val w l r) (suc m') (inr (a, b, n)) =
        inr (unfold new_tst_node in ((tt, a, tt), (n, tt, b, tt), λ q. cc))

Chain-head :
    (p : Link) (c : ℕ) (key : Key) (v m : ℕ)
    → let t = (put_head (make_null_head (c ∷ key) v m).0).node in IsLinked p t × IsSolid t
unfolding make_null_head
Chain-head p c key v m =
    go (make_null_head key v m).0 (make_null_head key v m).1 (make_null_head-Chain key v m)
  where
    go :
        (e : Node) (m' : ℕ)
        → Chain e
        → let t = (put_head (new_tst_node e c m').0).node in IsLinked p t × IsSolid t
    go nil m' h = unfold new_tst_node put_head in (tt, tt)
    go (chr d l e r) zero h = unfold new_tst_node put_head in (tt, tt)
    go (val w l r) zero h = unfold new_tst_node put_head in (tt, tt)
    go (chr d l e r) (suc m') (inl q) = absurd (cc)
    go (val w l r) (suc m') (inl q) = absurd (cc)
    go (chr d l e r) (suc m') (inr (a, b, n)) =
        unfold new_tst_node put_head in ((tt, a, tt), (n, tt, b, tt))
    go (val w l r) (suc m') (inr (a, b, n)) =
        unfold new_tst_node put_head in ((tt, a, tt), (n, tt, b, tt))

insert_head_r-ne-nil :
    (t : Node) (p : Link) (key : Key) (v m : ℕ) → t ≢ nil → (insert_head_r t p key v m).node ≢ nil
unfolding insert_head_r put_above
insert_head_r-ne-nil nil p key v m h = absurd (h refl)
insert_head_r-ne-nil (val w l r) p [] v m h = λ q. cc
insert_head_r-ne-nil (val w l r) p (k ∷ key) v m h = λ q. cc
insert_head_r-ne-nil (chr c l e r) p [] v m h = ground arith
insert_head_r-ne-nil (chr c l e r) p (k ∷ key) v m h = ground arith

-- An insertion of a key that is not empty keeps the tree linked and solid. So does an insertion at the
-- end of a key, where a node stands and `p` is the node that owns it.
pub insert_head_r-IsLinked :
    (t : Node) (p : Link) (key : Key) (v m : ℕ)
    → IsLinked p t
    → IsSolid t
    → (key ≡ [] → (p ≡ owner) × (t ≢ nil))
    → let s = insert_head_r t p key v m in IsLinked p s.node × IsSolid s.node
unfolding insert_head_r
insert_head_r-IsLinked nil p [] v m h s ok = absurd ((ok refl).1 refl)
insert_head_r-IsLinked nil p (k ∷ key) v m h s ok = Chain-head p k key v m
insert_head_r-IsLinked (val w l r) p [] v m h s ok = (h, s)
insert_head_r-IsLinked (val w l r) p (k ∷ key) v m h s ok =
    let (below, solid) = insert_head_r-IsLinked l other (k ∷ key) v m h.2 s (λ q. absurd (cc)) in
    ((h.0, h.1, below), solid)
insert_head_r-IsLinked (chr c l e r) p [] v zero h s ok = unfold put_above new_tst_vnode in (h, s)
insert_head_r-IsLinked (chr c l e r) p [] v (suc m) h s ok =
    unfold put_above new_tst_vnode in (((ok refl).0, (ok refl).0, h), s)
insert_head_r-IsLinked (chr c l e r) p (k ∷ key) v m h s ok =
    by_order (λ (i : Inserted). IsLinked p i.node × IsSolid i.node) (compare k c) _ _ _
      (λ o.
        let (below, solid) =
          insert_head_r-IsLinked l other (k ∷ key) v m h.0 s.1 (λ q. absurd (cc)) in
        ((below, h.1, h.2), (s.0, solid, s.2, s.3)))
      (λ o.
        let (below, solid) = insert_head_r-IsLinked e owner key v m h.1 s.2 (λ q. (refl, s.0)) in
        ((h.0, below, h.2), (insert_head_r-ne-nil e owner key v m s.0, s.1, solid, s.3)))
      (λ o.
        let (below, solid) =
          insert_head_r-IsLinked r other (k ∷ key) v m h.2 s.3 (λ q. absurd (cc)) in
        ((h.0, h.1, below), (s.0, s.1, s.2, solid)))

-- A tree that has only been inserted into, with non-empty keys.
abbrev pub insert_all : List (ℕ × Key × ℕ × ℕ) → Node → Node
insert_all [] t = t
insert_all ((k, key, v, m) ∷ rest) t = insert_all rest (insert_head_r t null (k ∷ key) v m).node

pub insert_all-IsLinked :
    (rows : List (ℕ × Key × ℕ × ℕ)) (t : Node)
    → IsLinked null t
    → IsSolid t
    → IsLinked null (insert_all rows t)
insert_all-IsLinked [] t h s = h
insert_all-IsLinked ((k, key, v, m) ∷ rest) t h s =
    let (h', s') = insert_head_r-IsLinked t null (k ∷ key) v m h s (λ q. absurd (cc)) in
    insert_all-IsLinked rest _ h' s'
