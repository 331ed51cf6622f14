-- ===== src/EvLoop/WatchTree/Tests.antt =====
-- The theorems on the tree of watched descriptors at a tree of one item, and runs of its operations.
use c_liber.Prelude.{ℕ, ◌-◌, ◌≡◌, refl, Bool, [], ◌∷◌, none, some, arith}
use c_liber.RbTree.{RbTree, black, update, rb_node_init}
use c_liber.RbTree.Insert.{attach, rb_insert_fixup}
use c_liber.RbTree.Shape.{leaf, fork}
use c_liber.EvLoop.WatchTree.{ev_watch_tree_search, ev_watch_tree_add, ev_watch_tree_delete}
use c_liber.EvLoop.WatchTree.Lookup.{Finds, search-Finds}
use c_liber.EvLoop.WatchTree.Calls.{
  IsWatchTree, Adds, Deletes, ev_watch_tree_add-Adds, ev_watch_tree_delete-Deletes,
}

-- The descriptors run against the addresses.
abbrev pub fds : ℕ → ℕ
fds w = 30 - w

-- The item 5 with the descriptor 25.
abbrev pub one : RbTree
one = record {
  rb_root = 5;
  node = λ p. record { parent = 0; color = black; rb_left = 0; rb_right = 0 };
}

pub one-IsWatchTree : IsWatchTree fds (5 ∷ []) one
one-IsWatchTree = record {
  stored = record {
    shape = fork black leaf 5 leaf;
    stored = record {
      here = (refl, (λ e. omega arith), refl, refl, refl, refl);
      above = (refl, refl);
      once = λ a. ground arith;
    };
    balanced = (refl, tt, tt, tt, tt);
    root_black = refl;
    order = refl;
  };
  ordered = (tt, tt);
  unique = (tt, tt);
}

search-Finds_example :
    (w : ℕ) × (ev_watch_tree_search fds 9 one 25 ≡ some w) × Finds fds 25 w (5 ∷ [])
search-Finds_example =
    search-Finds fds 9 25 1 (5 ∷ []) one one-IsWatchTree.stored one-IsWatchTree.ordered
      (omega arith) (omega arith)

-- The item 2 with the descriptor 28.
ev_watch_tree_add-Adds_example :
    (ok : Bool) × (tree : RbTree) × (ev_watch_tree_add fds 9 (rb_node_init 2 one) 2
      ≡ some (ok, tree))
    × Adds fds 2 (5 ∷ []) ok tree
ev_watch_tree_add-Adds_example =
    ev_watch_tree_add-Adds fds 9 2 1 (5 ∷ []) one one-IsWatchTree (omega arith) refl (omega arith)
      (omega arith)

ev_watch_tree_delete-Deletes_example :
    (w : ℕ) × (tree : RbTree) × (ev_watch_tree_delete fds 9 one 25 ≡ some (w, tree))
    × Deletes fds 25 (5 ∷ []) w one tree
ev_watch_tree_delete-Deletes_example =
    ev_watch_tree_delete-Deletes fds 9 25 1 (5 ∷ []) one one-IsWatchTree (omega arith) (omega arith)

-- The item 2 is found under its descriptor after it has been added.
found :
    (elim (ev_watch_tree_add fds 9 (rb_node_init 2 one) 2) [
      | none ↦ none
      | some (ok, tree) ↦ ev_watch_tree_search fds 9 tree 28
    ])
    ≡ some 2
unfolding ev_watch_tree_add ev_watch_tree_search update rb_insert_fixup attach
found = refl
