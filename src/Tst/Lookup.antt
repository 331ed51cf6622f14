-- ===== src/Tst/Lookup.antt =====
-- The tree of src/common/ds/tsearch_tree.c as a map from keys to values.
use Prim.Native.Nat.{compare, Ordering}
use Prim.Native.Nat.Ordering.{lt, eq, gt}
use c_liber.Prelude.{
  ℕ, zero, suc, ◌+◌, ◌<◌, ◌≤◌, length, inl, inr, Bool-cases, ltb, ◌≡◌, refl, ap, Bool, true, false,
  ◌&&◌, [], ◌∷◌, Option, none, some, ◌==◌, ◌≢◌, if◌then◌else◌, arith,
}
use c_liber.Tst.{
  Link, owner, other, Node, nil, chr, val, Key, new_tst_vnode, new_tst_node, make_null_head, own,
  put_head, put_above, inside, tst_search_r, Inserted, Status, added, replaced, failed,
  insert_head_r,
}

abbrev pub eq_key : Key → Key → Bool
eq_key [] [] = true
eq_key [] (b ∷ bs) = false
eq_key (a ∷ ks) [] = false
eq_key (a ∷ ks) (b ∷ bs) = (a == b) && eq_key ks bs

own-ne-nil : (t : Node) → t ≢ nil → own t ≢ nil
unfolding own
own-ne-nil t h = ground arith

search-own : (t : Node) (j : Key) → tst_search_r (own t) j ≡ tst_search_r t j
unfolding own tst_search_r
search-own nil j = refl
search-own (chr c l e r) j = refl
search-own (val v l r) [] = refl
search-own (val v l r) (b ∷ bs) = refl

-- A node above a chain holds the chain's keys behind its character.
search-new_tst_node :
    (e : Node) (c m : ℕ) (j : Key)
    → (new_tst_node e c m).0 ≢ nil
    → (tst_search_r (new_tst_node e c m).0 [] ≡ none)
      × ((b : ℕ)
          → tst_search_r (new_tst_node e c m).0 (b ∷ j)
            ≡ (if c == b then tst_search_r e j else none))
unfolding new_tst_node tst_search_r
search-new_tst_node nil c m j h = absurd (h refl)
search-new_tst_node (chr d l e r) c zero j h = absurd (h refl)
search-new_tst_node (chr d l e r) c (suc m) j h =
    (refl, λ b. ground (arith, search-own (chr d l e r) j))
search-new_tst_node (val v l r) c zero j h = absurd (h refl)
search-new_tst_node (val v l r) c (suc m) j h =
    (refl, λ b. ground (arith, search-own (val v l r) j))

pub new_tst_node-nil : (e : Node) (c m : ℕ) → e ≡ nil → (new_tst_node e c m).0 ≡ nil
unfolding new_tst_node
new_tst_node-nil nil c m h = refl
new_tst_node-nil (chr d l e r) c m h = absurd (cc)
new_tst_node-nil (val v l r) c m h = absurd (cc)

-- A new chain holds its one key.
search-make_null_head :
    (key j : Key) (v m : ℕ)
    → (make_null_head key v m).0 ≢ nil
    → tst_search_r (make_null_head key v m).0 j ≡ (if eq_key key j then some v else none)
unfolding make_null_head
search-make_null_head [] j v zero h = absurd (unfold new_tst_vnode in h refl)
search-make_null_head [] [] v (suc m) h = unfold new_tst_vnode tst_search_r in refl
search-make_null_head [] (b ∷ bs) v (suc m) h = unfold new_tst_vnode tst_search_r in refl
search-make_null_head (a ∷ key) [] v m h =
    (search-new_tst_node (make_null_head key v m).0 a (make_null_head key v m).1 [] h).0
search-make_null_head (a ∷ key) (b ∷ bs) v m h =
    let inner = search-make_null_head key bs v m (λ e. h (new_tst_node-nil _ a _ e)) in
    let outer = (search-new_tst_node _ a (make_null_head key v m).1 bs h).1 b in
    ground (arith, inner, outer)

-- What an insertion under a key that had the value `before` reports by its result: a new key, or the
-- value that it replaces, or that it failed and left the node as it was. A new key takes at most
-- `need` nodes, and `m` are left: it fails only when these are too few.
abbrev pub Reports : (need m : ℕ) → Status → (before old : Option ℕ) → (head head' : Node) → Type 0
Reports need m added before old head head' = (before ≡ none) × (old ≡ none)
Reports need m replaced before old head head' = (w : ℕ) × (before ≡ some w) × (old ≡ some w)
Reports need m failed before old head head' =
    (before ≡ none) × (old ≡ none) × (head' ≡ head) × (m < need)

-- What holds of a node below holds of the node, which may need more.
Reports-inside :
    (f : Node → Node) (n need m : ℕ) (st : Status) (before old : Option ℕ) (t t' : Node)
    → n ≤ need
    → Reports n m st before old t t'
    → Reports need m st before old (f t) (f t')
Reports-inside f n need m added before old t t' le h = h
Reports-inside f n need m replaced before old t t' le h = h
Reports-inside f n need m failed before old t t' le (a, b, e, few) = (a, b, ap f e, omega arith)

-- `new_tst_node` over a node that stands takes one node, if there is one.
new_tst_node-left :
    (e : Node) (c m : ℕ)
    → e ≢ nil
    → 0 < m
    → ((new_tst_node e c m).0 ≢ nil) × ((new_tst_node e c m).1 + 1 ≡ m)
unfolding new_tst_node
new_tst_node-left nil c m h pos = absurd (h refl)
new_tst_node-left (chr d l e r) c zero h pos = absurd (omega arith)
new_tst_node-left (chr d l e r) c (suc m) h pos = (λ q. cc, omega arith)
new_tst_node-left (val v l r) c zero h pos = absurd (omega arith)
new_tst_node-left (val v l r) c (suc m) h pos = (λ q. cc, omega arith)

-- `makeNullHead` takes a node for each character and one for the value, if there are as many.
make_null_head-left :
    (key : Key) (v m : ℕ)
    → length key < m
    → ((make_null_head key v m).0 ≢ nil) × ((make_null_head key v m).1 + length key + 1 ≡ m)
unfolding make_null_head
make_null_head-left [] v zero h = absurd (omega arith)
make_null_head-left [] v (suc m) h = unfold new_tst_vnode in (λ q. cc, omega arith)
make_null_head-left (a ∷ key) v m h =
    let (stands, left) = make_null_head-left key v m (omega arith) in
    let (stands', left') =
      new_tst_node-left (make_null_head key v m).0 a (make_null_head key v m).1 stands
        (omega arith) in
    (stands', omega arith)

put_head-Reports :
    (need m : ℕ) (t : Node)
    → (t ≡ nil → m < need)
    → let s = put_head t in Reports need m s.status none s.old nil s.node
unfolding put_head
put_head-Reports need m nil few = (refl, refl, refl, few refl)
put_head-Reports need m (chr c l e r) few = (refl, refl)
put_head-Reports need m (val v l r) few = (refl, refl)

put_above-Reports :
    (t : Node) (p : Link) (v m : ℕ)
    → let s = put_above t p v (new_tst_vnode v m).0 in Reports 1 m s.status none s.old t s.node
unfolding put_above new_tst_vnode
put_above-Reports t p v zero = (refl, refl, refl, omega arith)
put_above-Reports t p v (suc m) = (refl, refl)

abbrev ReportsOf : (need m : ℕ) (before : Option ℕ) → Node → Inserted → Type 0
ReportsOf need m before t s = Reports need m s.status before s.old t s.node

module _ (c : ℕ) (l e r : Node) (n m : ℕ) where
  chr-Reports :
      (o : Ordering) (bl be br : Option ℕ) (sl se sr : Inserted)
      → ReportsOf (suc n + 1) m bl l sl
      → ReportsOf (n + 1) m be e se
      → ReportsOf (suc n + 1) m br r sr
      → ReportsOf
          (suc n + 1)
          m
          (elim o [ lt ↦ bl | eq ↦ be | gt ↦ br ])
          (chr c l e r)
          (elim o [
            | lt ↦ inside (λ l'. chr c l' e r) sl
            | eq ↦ inside (λ e'. chr c l e' r) se
            | gt ↦ inside (λ r'. chr c l e r') sr
          ])
  chr-Reports lt bl be br sl se sr hl he hr =
      Reports-inside (λ l'. chr c l' e r) (suc n + 1) (suc n + 1) m _ _ _ _ _ (omega arith) hl
  chr-Reports eq bl be br sl se sr hl he hr =
      Reports-inside (λ e'. chr c l e' r) (n + 1) (suc n + 1) m _ _ _ _ _ (omega arith) he
  chr-Reports gt bl be br sl se sr hl he hr =
      Reports-inside (λ r'. chr c l e r') (suc n + 1) (suc n + 1) m _ _ _ _ _ (omega arith) hr

make_null_head-fails : (key : Key) (v m : ℕ) → (make_null_head key v m).0 ≡ nil → m < length key + 1
make_null_head-fails key v m e = elim (Bool-cases (ltb (length key) m)) [
  | inr few ↦ ground arith
  | inl room ↦ absurd ((make_null_head-left key v m (ground arith)).0 e)
]

-- `insertHeadR` reports a new key, or the value that it replaces, or a failure; then the tree is as
-- before, the key is not in it, and `malloc` had fewer nodes left than the key's length and one more.
pub insert_head_r-Reports :
    (t : Node) (p : Link) (key : Key) (v m : ℕ)
    → let s = insert_head_r t p key v m in
      Reports (length key + 1) m s.status (tst_search_r t key) s.old t s.node
unfolding insert_head_r tst_search_r
insert_head_r-Reports nil p key v m =
    put_head-Reports (length key + 1) m (make_null_head key v m).0 (make_null_head-fails key v m)
insert_head_r-Reports (val w l r) p [] v m = (w, refl, refl)
insert_head_r-Reports (val w l r) p (k ∷ key) v m =
    Reports-inside (λ l'. val w l' r) (length (k ∷ key) + 1) (length (k ∷ key) + 1) m _ _ _ _ _
      (omega arith) (insert_head_r-Reports l other (k ∷ key) v m)
insert_head_r-Reports (chr c l e r) p [] v m = put_above-Reports (chr c l e r) p v m
insert_head_r-Reports (chr c l e r) p (k ∷ key) v m =
    chr-Reports c l e r (length key) m (compare k c) _ _ _ _ _ _
      (insert_head_r-Reports l other (k ∷ key) v m) (insert_head_r-Reports e owner key v m)
      (insert_head_r-Reports r other (k ∷ key) v m)

-- `*headp` after an insertion that did not fail maps the key to the value, and any other key `j` to
-- what it mapped it to before.
abbrev pub Maps : (key j : Key) (v : ℕ) (before : Option ℕ) → Inserted → Type 0
Maps key j v before s =
    s.status ≢ failed → tst_search_r s.node j ≡ (if eq_key key j then some v else before)

put_head-Maps : (key j : Key) (v m : ℕ) → Maps key j v none (put_head (make_null_head key v m).0)
put_head-Maps key j v m = go (make_null_head key v m).0 (search-make_null_head key j v m)
  where
    go :
        (t : Node)
        → (t ≢ nil → tst_search_r t j ≡ (if eq_key key j then some v else none))
        → Maps key j v none (put_head t)
    go nil found h = absurd (unfold put_head in h refl)
    go (chr c l e r) found h = unfold put_head in found (λ q. cc)
    go (val w l r) found h = unfold put_head in found (λ q. cc)

put_above-Maps :
    (t : Node) (p : Link) (j : Key) (v m : ℕ)
    → tst_search_r t [] ≡ none
    → Maps [] j v (tst_search_r t j) (put_above t p v (new_tst_vnode v m).0)
unfolding put_above new_tst_vnode tst_search_r
put_above-Maps t p j v zero e h = absurd (h refl)
put_above-Maps t p [] v (suc m) e h = refl
put_above-Maps t p (b ∷ bs) v (suc m) e h = refl

module _ (c : ℕ) (l e r : Node) (k : ℕ) (key : Key) (v : ℕ) where
  chr-Maps :
      (j : Key) (sl se sr : Inserted)
      → Maps (k ∷ key) j v (tst_search_r l j) sl
      → ((js : Key) → Maps key js v (tst_search_r e js) se)
      → Maps (k ∷ key) j v (tst_search_r r j) sr
      → Maps (k ∷ key) j v (tst_search_r (chr c l e r) j) (elim (compare k c) [
        | lt ↦ inside (λ l'. chr c l' e r) sl
        | eq ↦ inside (λ e'. chr c l e' r) se
        | gt ↦ inside (λ r'. chr c l e r') sr
      ])
  unfolding tst_search_r
  chr-Maps [] sl se sr hl he hr h = ground arith
  chr-Maps (b ∷ bs) sl se sr hl he hr h = ground (arith, he bs)

-- After an insertion that did not fail, the tree maps the key to the value, and every other key to
-- what it mapped it to before.
pub search-insert_head_r :
    (t : Node) (p : Link) (key j : Key) (v m : ℕ)
    → (insert_head_r t p key v m).status ≢ failed
    → tst_search_r (insert_head_r t p key v m).node j
      ≡ (if eq_key key j then some v else tst_search_r t j)
unfolding insert_head_r tst_search_r
search-insert_head_r nil p key j v m h = put_head-Maps key j v m h
search-insert_head_r (val w l r) p [] [] v m h = refl
search-insert_head_r (val w l r) p [] (b ∷ bs) v m h = refl
search-insert_head_r (val w l r) p (k ∷ key) [] v m h = refl
search-insert_head_r (val w l r) p (k ∷ key) (b ∷ bs) v m h =
    search-insert_head_r l other (k ∷ key) (b ∷ bs) v m h
search-insert_head_r (chr c l e r) p [] j v m h = put_above-Maps (chr c l e r) p j v m refl h
search-insert_head_r (chr c l e r) p (k ∷ key) j v m h =
    chr-Maps c l e r k key v j _ _ _ (search-insert_head_r l other (k ∷ key) j v m)
      (λ js. search-insert_head_r e owner key js v m) (search-insert_head_r r other (k ∷ key) j v m)
      h
