-- ===== src/Emitter/Cells.antt =====
-- What src/common/ev_emitter.c registers: each event keeps a cell of its own.
use c_liber.Prelude.{
  ℕ, ◌+◌, ◌<◌, length, ◌≡◌, ◌≢◌, refl, sym, ap, ◌∙◌, Bool, true, false, Option, none, some, [], ◌∷◌,
  if◌then◌else◌, arith,
}
use c_liber.Tst.{Key, Node, Tree, Status, added, replaced, failed, tst_search, tst_insert, null}
use c_liber.Tst.Lookup.{eq_key, search-insert_head_r, Reports, insert_head_r-Reports}
use c_liber.Emitter.{
  Cell, Emitter, store, add_inserted, add_found, ev_emitter_on, registered, registered_at,
}

-- Each event has a cell of its own.
pub record IsApart (emitter : Emitter) : Type 0 where
  pub apart :
      (ev j : Key) (a : ℕ)
      → tst_search emitter.ev_cb_map ev ≡ some a
      → tst_search emitter.ev_cb_map j ≡ some a
      → eq_key ev j ≡ true
  pub known : (ev : Key) (a : ℕ) → tst_search emitter.ev_cb_map ev ≡ some a → a < emitter.next

eq_key_sound : (ev j : Key) → eq_key ev j ≡ true → ev ≡ j
eq_key_sound [] [] h = refl
eq_key_sound [] (b ∷ bs) h = absurd (cc)
eq_key_sound (a ∷ ks) [] h = absurd (cc)
eq_key_sound (a ∷ ks) (b ∷ bs) h = ground (arith, eq_key_sound ks bs)

store-registered :
    (emitter : Emitter) (ev j : Key) (a : ℕ) (c : Cell) (o : Option ℕ)
    → IsApart emitter
    → tst_search emitter.ev_cb_map ev ≡ some a
    → tst_search emitter.ev_cb_map j ≡ o
    → registered_at o (store a c emitter)
      ≡ (if eq_key ev j then some c else registered_at o emitter)
store-registered emitter ev j a c none v e f =
    let same : eq_key ev j ≡ true → none ≡ some a =
      λ h. sym f ∙ sym (ap (tst_search emitter.ev_cb_map) (eq_key_sound ev j h)) ∙ e in
    ground (arith, same)
store-registered emitter ev j a c (some b) v e f =
    let same : eq_key ev j ≡ true → some b ≡ some a =
      λ h. sym f ∙ sym (ap (tst_search emitter.ev_cb_map) (eq_key_sound ev j h)) ∙ e in
    let apart : b ≡ a → eq_key ev j ≡ true = λ q. v.apart ev j a e (f ∙ ap some q) in
    ground (arith, same, apart)

-- An addition that returns 0 registers the callback for the event, and leaves what is registered for
-- every other event.
abbrev pub Registers : Key → Cell → Emitter → Bool × Option ℕ × Emitter → Type 0
Registers ev c emitter (ok, old, after) =
    ok ≡ true
    → (j : Key) → registered j after ≡ (if eq_key ev j then some c else registered j emitter)

new-cell :
    (emitter : Emitter) (j : Key) (c : Cell) (t : Tree)
    → IsApart emitter
    → (b : Bool) (o : Option ℕ) → tst_search emitter.ev_cb_map j ≡ o
    → registered_at
        (if b then some emitter.next else o)
        (record (store emitter.next c emitter) { ev_cb_map = t; next = emitter.next + 1 })
      ≡ (if b then some c else registered_at o emitter)
new-cell emitter j c t v true o e = ground arith
new-cell emitter j c t v false none e = refl
new-cell emitter j c t v false (some a) e = let old = v.known j a e in ground arith

new-registered :
    (emitter : Emitter) (j : Key) (c : Cell) (t : Tree)
    → IsApart emitter
    → (b : Bool)
    → tst_search t j ≡ (if b then some emitter.next else tst_search emitter.ev_cb_map j)
    → registered_at
        (tst_search t j)
        (record (store emitter.next c emitter) { ev_cb_map = t; next = emitter.next + 1 })
      ≡ (if b then some c else registered_at (tst_search emitter.ev_cb_map j) emitter)
new-registered emitter j c t v b found =
    ap
      (λ o.
        registered_at o
          (record (store emitter.next c emitter) { ev_cb_map = t; next = emitter.next + 1 }))
      found
    ∙ new-cell emitter j c t v b (tst_search emitter.ev_cb_map j) refl

inserted-Registers :
    (ev : Key) (c : Cell) (nodes : ℕ) (emitter : Emitter) (s : Status × Option ℕ × Tree)
    → IsApart emitter
    → (s.0 ≢ failed
        → (j : Key)
        → tst_search s.2 j
          ≡ (if eq_key ev j then some emitter.next else tst_search emitter.ev_cb_map j))
    → Registers ev c emitter (add_inserted c s emitter)
unfolding add_inserted
inserted-Registers ev c nodes emitter (failed, old, t) v h ok j = absurd (cc)
inserted-Registers ev c nodes emitter (added, old, t) v h ok j =
    new-registered emitter j c t v (eq_key ev j) (h (λ q. cc) j)
inserted-Registers ev c nodes emitter (replaced, old, t) v h ok j =
    new-registered emitter j c t v (eq_key ev j) (h (λ q. cc) j)

found-Registers :
    (malloc : Bool) (nodes : ℕ) (ev : Key) (c : Cell) (emitter : Emitter) (o : Option ℕ)
    → IsApart emitter
    → tst_search emitter.ev_cb_map ev ≡ o
    → Registers ev c emitter (add_found o malloc nodes ev c emitter)
unfolding add_found tst_insert
found-Registers malloc nodes ev c emitter (some a) v e ok j =
    store-registered emitter ev j a c (tst_search emitter.ev_cb_map j) v e refl
found-Registers false nodes ev c emitter none v e ok j = absurd (cc)
found-Registers true nodes ev c emitter none v e ok j =
    inserted-Registers ev c nodes emitter (tst_insert emitter.ev_cb_map ev emitter.next nodes) v
      (λ h j. search-insert_head_r emitter.ev_cb_map.head null ev j emitter.next nodes h) ok j

eq_key_refl : (ev : Key) → eq_key ev ev ≡ true
eq_key_refl [] = refl
eq_key_refl (a ∷ ks) = ground (arith, eq_key_refl ks)

-- The tree after the insertion of a new cell.
Apart-new :
    (ev : Key) (c : Cell) (t : Tree) (emitter : Emitter)
    → IsApart emitter
    → ((j : Key)
        → tst_search t j
          ≡ (if eq_key ev j then some emitter.next else tst_search emitter.ev_cb_map j))
    → IsApart (record (store emitter.next c emitter) { ev_cb_map = t; next = emitter.next + 1 })
Apart-new ev c t emitter v found = record {
  apart = λ i j a e f. both i j a (sym (found i) ∙ e) (sym (found j) ∙ f);
  known = λ j a e. below j a (sym (found j) ∙ e);
}
  where
    at : Key → Option ℕ
    at j = if eq_key ev j then some emitter.next else tst_search emitter.ev_cb_map j

    below : (j : Key) (a : ℕ) → at j ≡ some a → a < emitter.next + 1
    below j a e = let old = v.known j a in ground arith

    both : (i j : Key) (a : ℕ) → at i ≡ some a → at j ≡ some a → eq_key i j ≡ true
    both i j a e f =
        let old = v.apart i j a in
        let low_i = v.known i a in
        let low_j = v.known j a in
        let same : eq_key ev i ≡ true → eq_key ev j ≡ true → eq_key i j ≡ true =
          λ p q. rw (sym (eq_key_sound ev i p), sym (eq_key_sound ev j q)) (eq_key_refl ev) in
        ground arith

Apart-inserted :
    (ev : Key) (c : Cell) (emitter : Emitter) (s : Status × Option ℕ × Tree)
    → IsApart emitter
    → (s.0 ≢ failed
        → (j : Key)
        → tst_search s.2 j
          ≡ (if eq_key ev j then some emitter.next else tst_search emitter.ev_cb_map j))
    → IsApart (add_inserted c s emitter).2
unfolding add_inserted
Apart-inserted ev c emitter (failed, old, t) v found = v
Apart-inserted ev c emitter (added, old, t) v found = Apart-new ev c t emitter v (found (λ q. cc))
Apart-inserted ev c emitter (replaced, old, t) v found =
    Apart-new ev c t emitter v (found (λ q. cc))

Apart-found :
    (o : Option ℕ) (malloc : Bool) (nodes : ℕ) (ev : Key) (c : Cell) (emitter : Emitter)
    → IsApart emitter
    → IsApart (add_found o malloc nodes ev c emitter).2
unfolding add_found tst_insert
Apart-found (some a) malloc nodes ev c emitter v = record { apart = v.apart; known = v.known }
Apart-found none false nodes ev c emitter v = v
Apart-found none true nodes ev c emitter v =
    Apart-inserted ev c emitter (tst_insert emitter.ev_cb_map ev emitter.next nodes) v
      (λ h j. search-insert_head_r emitter.ev_cb_map.head null ev j emitter.next nodes h)

reported-success :
    (st : Status) (nodes : ℕ) (ev : Key) (c : Cell) (emitter : Emitter) (before old : Option ℕ)
    (head head' : Node) (t : Tree)
    → length ev < nodes
    → Reports (length ev + 1) nodes st before old head head'
    → (add_inserted c (st, old, t) emitter).0 ≡ true
unfolding add_inserted
reported-success added nodes ev c emitter before old head head' t enough h = refl
reported-success replaced nodes ev c emitter before old head head' t enough h = refl
reported-success failed nodes ev c emitter before old head head' t enough (_, _, _, few) =
    absurd (omega arith)

-- With memory for the cell and for a node of each character and one more, an addition succeeds.
succeeds :
    (o : Option ℕ) (nodes : ℕ) (ev : Key) (c : Cell) (emitter : Emitter)
    → length ev < nodes
    → (add_found o true nodes ev c emitter).0 ≡ true
unfolding add_found tst_insert
succeeds (some a) nodes ev c emitter enough = refl
succeeds none nodes ev c emitter enough =
    reported-success _ nodes ev c emitter _ _ _ _ _ enough
      (insert_head_r-Reports emitter.ev_cb_map.head null ev emitter.next nodes)

-- In an emitter whose events have cells of their own, `ev_emitter_on` keeps them so, and if it returns
-- 0, the callback is registered for the event, for good, and what is registered for every other event
-- is as before. It returns 0 if there is memory for a cell and for as many nodes as the event's name
-- has characters and one more.
pub ev_emitter_on-Registers :
    (malloc : Bool) (nodes : ℕ) (ev : Key) (cb : ℕ) (emitter : Emitter)
    → IsApart emitter
    → let out = ev_emitter_on malloc nodes ev cb emitter in
      IsApart out.2
      × Registers ev (record { once = false; cb = cb }) emitter out
      × (malloc ≡ true → length ev < nodes → out.0 ≡ true)
unfolding ev_emitter_on
ev_emitter_on-Registers malloc nodes ev cb emitter v =
    let c : Cell = record { once = false; cb = cb } in
    let o = tst_search emitter.ev_cb_map ev in
    (
      Apart-found o malloc nodes ev c emitter v,
      found-Registers malloc nodes ev c emitter o v refl,
      λ given enough. rw given (succeeds o nodes ev c emitter enough),
    )
