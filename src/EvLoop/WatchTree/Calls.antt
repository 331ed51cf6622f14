-- ===== src/EvLoop/WatchTree/Calls.antt =====
-- `ev_watch_tree_add` and `ev_watch_tree_delete` of src/fevent_loop/_ev_watch_item.c: the items of the
-- tree after them.
use c_liber.Prelude.{
  ℕ, zero, suc, ◌+◌, ◌*◌, ◌^◌, ◌<◌, ◌≡◌, ◌≢◌, refl, ap, sym, ◌∙◌, Bool, true, false, Option, none,
  some, List, [], ◌==◌, if◌then◌else◌, count, length, arith, Bool-cases, inl, inr, ◌⊎◌,
}
use mathlib.Core.Path.{subst}
use c_liber.RbTree.{RbTree, RbNode, red, update, left, right, child_of, rb_node_init}
use c_liber.RbTree.Insert.{find_parent, attach, rb_insert, rb_insert_fixup}
use c_liber.RbTree.Erase.{rb_erase}
use c_liber.RbTree.Order.{IsOrder, IsOrdered, insort}
use c_liber.RbTree.Shape.{in_tree}
use c_liber.RbTree.Insertion.{update-IsAt}
use c_liber.RbTree.Loop.{IsRbTree}
use c_liber.RbTree.Refine.{rb_insert-Inserts, in_tree-count}
use c_liber.RbTree.Remove.Locate.{remove}
use c_liber.RbTree.Remove.Refine.{rb_erase-Removes}
use c_liber.EvLoop.WatchTree.{
  lower_fd, search_loop, add_loop, ev_watch_tree_search, ev_watch_tree_add, ev_watch_tree_delete,
  hang, returns_zero, take_out, gives_item,
}
use c_liber.EvLoop.WatchTree.Lookup.{IsFree, search-Finds}
use c_liber.EvLoop.WatchTree.Unique.{
  IsUnique, insort-IsUnique, remove-IsUnique, remove_frees, remove-IsOrdered,
}

module _ (fd_of : ℕ → ℕ) where
  -- A red-black tree whose items are `xs` from left to right, by their descriptors, each of them once.
  pub record IsWatchTree (xs : List ℕ) (tree : RbTree) : Type 0 where
    pub stored : IsRbTree xs tree
    pub ordered : IsOrdered (lower_fd fd_of) xs
    pub unique : IsUnique fd_of xs

  lower_fd-IsOrder : IsOrder (lower_fd fd_of)
  lower_fd-IsOrder = record { asym = λ a b h. ground arith; trans = λ a b c h h'. ground arith }

  -- What the loop of `ev_watch_tree_add` answers, by a search for the descriptor.
  abbrev hung : (found parent : Option ℕ) → Option (Option ℕ)
  hung none parent = none
  hung (some v) none = if v == 0 then none else some none
  hung (some v) (some p) = if v == 0 then some (some p) else some none

  hung-found : (node : ℕ) (o : Option ℕ) → node ≢ 0 → hung (some node) o ≡ some none
  hung-found node none h = ground arith
  hung-found node (some p) h = ground arith

  add_loop-hung :
      (fuel w p node : ℕ) (tree : RbTree)
      → add_loop fd_of fuel w p node tree
        ≡ hung
            (search_loop fd_of fuel (fd_of w) node tree)
            (find_parent (lower_fd fd_of) fuel w p node tree)
  unfolding add_loop search_loop find_parent
  add_loop-hung zero w p node tree = refl
  add_loop-hung (suc fuel) w p node tree =
      let below = add_loop-hung fuel w node (child_of tree left node) tree in
      let above = add_loop-hung fuel w node (child_of tree right node) tree in
      elim (Bool-cases (node == 0)) [
        | inl e ↦ rw e refl
        | inr e ↦ elim (Bool-cases (fd_of w == fd_of node)) [
          | inl same ↦
              (let l : lower_fd fd_of w node ≡ false = ground arith in
                let r : lower_fd fd_of node w ≡ false = ground arith in
                rw (e, same, l, r) (sym (hung-found node _ (λ q. ground arith))))
          | inr differ ↦ elim (Bool-cases (lower_fd fd_of w node)) [
            | inl l ↦ rw (e, differ, l) below
            | inr l ↦
                (let r : lower_fd fd_of node w ≡ true = ground arith in rw (e, differ, l, r) above)
          ]
        ]
      ]

  add-found :
      (fuel w v : ℕ) (tree : RbTree)
      → v ≢ 0
      → ev_watch_tree_search fd_of fuel tree (fd_of w) ≡ some v
      → ev_watch_tree_add fd_of fuel tree w ≡ some (false, tree)
  unfolding ev_watch_tree_add ev_watch_tree_search hang
  add-found fuel w v tree h e =
      let parent = find_parent (lower_fd fd_of) fuel w 0 tree.rb_root tree in
      ap (hang fd_of fuel tree w) (
        add_loop-hung fuel w 0 tree.rb_root tree
        ∙ ap (λ o. hung o parent) e
        ∙ hung-found v parent h)

  made-hang :
      (fuel w : ℕ) (tree tree' : RbTree) (o : Option ℕ)
      → (elim o [
        | none ↦ none
        | some p ↦ rb_insert_fixup fuel w (attach (lower_fd fd_of) w p tree)
      ])
        ≡ some tree'
      → hang fd_of fuel tree w (hung (some 0) o) ≡ some (true, tree')
  unfolding hang
  made-hang fuel w tree tree' none i = absurd (cc)
  made-hang fuel w tree tree' (some p) i = ap (returns_zero fd_of) i

  add-absent :
      (fuel w : ℕ) (tree tree' : RbTree)
      → ev_watch_tree_search fd_of fuel (rb_node_init w tree) (fd_of w) ≡ some 0
      → rb_insert (lower_fd fd_of) fuel w tree ≡ some tree'
      → ev_watch_tree_add fd_of fuel (rb_node_init w tree) w ≡ some (true, tree')
  unfolding ev_watch_tree_add ev_watch_tree_search rb_insert update hang
  add-absent fuel w tree tree' e i =
      let t1 : RbTree = rb_node_init w tree in
      let parent = find_parent (lower_fd fd_of) fuel w 0 tree.rb_root t1 in
      ap (hang fd_of fuel t1 w) (add_loop-hung fuel w 0 tree.rb_root t1 ∙ ap (λ o. hung o parent) e)
      ∙ made-hang fuel w t1 tree' parent i

  -- What an addition of the item `w` to the items `xs` leaves.
  abbrev pub Adds : (w : ℕ) → List ℕ → (ok : Bool) → RbTree → Type 0
  Adds w xs true tree = IsFree fd_of (fd_of w) xs × IsWatchTree (insort (lower_fd fd_of) w xs) tree
  Adds w xs false tree = (v : ℕ) × (0 < count v xs) × (fd_of v ≡ fd_of w) × IsWatchTree xs tree

  init-IsRbTree :
      (w : ℕ) (xs : List ℕ) (tree : RbTree)
      → count w xs ≡ 0
      → IsRbTree xs tree
      → IsRbTree xs (rb_node_init w tree)
  unfolding update
  init-IsRbTree w xs tree h r =
      let absent : in_tree w r.shape ≡ 0 = in_tree-count w r.shape ∙ ap (count w) r.order ∙ h in
      let blank : RbNode → RbNode =
        λ b. record { parent = 0; color = red; rb_left = 0; rb_right = 0 } in
      record {
        shape = r.shape;
        stored = update-IsAt w 0 tree.rb_root blank tree r.shape [] (omega arith) r.stored;
        balanced = r.balanced;
        root_black = r.root_black;
        order = r.order;
      }

  -- Let `xs` be the items of a red-black tree from left to right, ordered by their descriptors, each
  -- descriptor once, and `w` an item (not NULL) that is not among them, whose node `rb_node_init` has
  -- cleared. Where 2 ^ (b + 1) is more than their number plus one, 2 * b + 1 rounds of fuel for each loop
  -- are enough for `ev_watch_tree_add` to return. It returns 0 only where no item has the descriptor of
  -- `w`, and then `w` stands in its place among the items; it returns -1 only where one of the items has
  -- it, and then the items are as before. In both cases the tree is again a red-black tree in the order
  -- of the descriptors, each of them there once.
  pub ev_watch_tree_add-Adds :
      (fuel w b : ℕ) (xs : List ℕ) (tree : RbTree)
      → IsWatchTree xs tree
      → w ≢ 0
      → count w xs ≡ 0
      → length xs + 1 < 2 ^ suc b
      → 2 * b < fuel
      → (ok : Bool) × (tree' : RbTree) × (ev_watch_tree_add fd_of fuel (rb_node_init w tree) w
          ≡ some (ok, tree'))
        × Adds w xs ok tree'
  ev_watch_tree_add-Adds fuel w b xs tree t m fresh few enough =
      let init = init-IsRbTree w xs tree fresh t.stored in
      let (v, e, f) =
        search-Finds fd_of fuel (fd_of w) b xs (rb_node_init w tree) init t.ordered few enough in
      elim f [
        | inl (z, free) ↦
            (let (tree', i, r, o) =
                rb_insert-Inserts (lower_fd fd_of) fuel w b xs tree lower_fd-IsOrder t.stored
                  t.ordered m fresh few enough in
              (
                true,
                tree',
                add-absent fuel w tree tree' (e ∙ ap some z) i,
                (
                  free,
                  record {
                    stored = r;
                    ordered = o;
                    unique = insort-IsUnique fd_of w xs free t.unique;
                  },
                ),
              ))
        | inr (n, there, same) ↦ (
          false,
          rb_node_init w tree,
          add-found fuel w v (rb_node_init w tree) n e,
          (v, there, same, record { stored = init; ordered = t.ordered; unique = t.unique }),
        )
      ]

  -- What a deletion of the descriptor `fd` from the items `xs` answers and leaves.
  abbrev pub Deletes : (fd : ℕ) → List ℕ → (w : ℕ) → (tree tree' : RbTree) → Type 0
  Deletes fd xs w tree tree' =
      ((w ≡ 0) × IsFree fd_of fd xs × (tree' ≡ tree))
      ⊎ ((w ≢ 0)
          × (0 < count w xs)
          × (fd_of w ≡ fd)
          × IsWatchTree (remove w xs) tree'
          × IsFree fd_of fd (remove w xs))

  take_out-found :
      (fuel w : ℕ) (tree tree' : RbTree)
      → w ≢ 0
      → rb_erase fuel w tree ≡ some tree'
      → take_out fd_of fuel tree (some w) ≡ some (w, tree')
  unfolding take_out
  take_out-found fuel w tree tree' n e =
      let stands : (w == 0) ≡ false = ground arith in
      ap (λ b. if b then some (0, tree) else gives_item fd_of w (rb_erase fuel w tree)) stands
      ∙ ap (gives_item fd_of w) e

  -- Let `xs` be the items of a red-black tree from left to right, ordered by their descriptors, each
  -- descriptor once. Where 2 ^ (b + 1) is more than their number plus one, 2 * b + 1 rounds of fuel for
  -- each loop are enough for `ev_watch_tree_delete` to return. It returns NULL only where no item has the
  -- descriptor, and leaves the tree; or it returns an item that has it, and takes this item and no other
  -- out of the tree, which stays a red-black tree in the order of the descriptors, each of them there
  -- once, and has no item with that descriptor any more.
  pub ev_watch_tree_delete-Deletes :
      (fuel fd b : ℕ) (xs : List ℕ) (tree : RbTree)
      → IsWatchTree xs tree
      → length xs + 1 < 2 ^ suc b
      → 2 * b < fuel
      → (w : ℕ) × (tree' : RbTree) × (ev_watch_tree_delete fd_of fuel tree fd ≡ some (w, tree'))
        × Deletes fd xs w tree tree'
  unfolding ev_watch_tree_delete
  ev_watch_tree_delete-Deletes fuel fd b xs tree t few enough =
      let (w, e, f) = search-Finds fd_of fuel fd b xs tree t.stored t.ordered few enough in
      elim f [
        | inl (z, free) ↦ (
          0,
          tree,
          ap (take_out fd_of fuel tree) (e ∙ ap some z) ∙ (unfold take_out in refl),
          inl (refl, free, refl),
        )
        | inr (n, there, same) ↦
            (let (tree', i, r) = rb_erase-Removes fuel w b xs tree t.stored there few enough in
              (
                w,
                tree',
                ap (take_out fd_of fuel tree) e ∙ take_out-found fuel w tree tree' n i,
                inr (
                  n,
                  there,
                  same,
                  record {
                    stored = r;
                    ordered = remove-IsOrdered fd_of w xs t.ordered;
                    unique = remove-IsUnique fd_of w xs t.unique;
                  },
                  subst (λ v. IsFree fd_of v (remove w xs)) same
                      (remove_frees fd_of w xs t.unique there),
                ),
              ))
      ]
