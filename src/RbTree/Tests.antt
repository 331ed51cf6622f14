-- ===== src/RbTree/Tests.antt =====
-- Runs of src/common/ds/rbtree.c on small trees, where the order is that of the addresses.
use c_liber.Prelude.{
  ℕ, false, ◌≡◌, refl, List, [], ◌∷◌, arith, ltb, ◌==◌, inr, if◌then◌else◌, Option, none, some,
}
use c_liber.RbTree.{RbTree, rotate, red, black, left, update}
use c_liber.RbTree.Insert.{rb_insert}
use c_liber.RbTree.Erase.{rb_erase}
use c_liber.RbTree.Walk.{rb_destroy, rb_step}
use c_liber.RbTree.Shape.{leaf, fork, IsAt}
use c_liber.RbTree.Order.{IsOrder, IsOrdered}
use c_liber.RbTree.Loop.{IsRbTree, loop-IsRbTree}
use c_liber.RbTree.Insert.{fixup_loop}
use c_liber.RbTree.Fixup.{Loose}
use c_liber.RbTree.Turn.{rotate-IsAt}
use c_liber.RbTree.Refine.{rb_insert-Inserts}
use c_liber.RbTree.Erase.{delete_loop}
use c_liber.RbTree.Remove.Short.{Short}
use c_liber.RbTree.Remove.Loop.{delete_loop-IsRbTree}
use c_liber.RbTree.Remove.Refine.{rb_erase-Removes}
use c_liber.RbTree.RoundTrip.{rb_erase-rb_insert}

abbrev empty : RbTree
empty = record {
  rb_root = 0;
  node = λ p. record { parent = 0; color = red; rb_left = 0; rb_right = 0 };
}

abbrev insert_all : List ℕ → RbTree → Option RbTree
insert_all [] tree = some tree
insert_all (n ∷ ns) tree = elim (rb_insert ltb 9 n tree) [ none ↦ none | some t ↦ insert_all ns t ]

abbrev erase_all : List ℕ → RbTree → Option RbTree
erase_all [] tree = some tree
erase_all (n ∷ ns) tree = elim (rb_erase 9 n tree) [ none ↦ none | some t ↦ erase_all ns t ]

-- The addresses that rb_destroy frees, in order.
abbrev freed : Option RbTree → List ℕ
freed none = []
freed (some tree) = (rb_destroy 9 tree).0

inserted :
    freed (insert_all (5 ∷ 2 ∷ 8 ∷ 1 ∷ 3 ∷ 4 ∷ 6 ∷ []) empty) ≡ 1 ∷ 4 ∷ 3 ∷ 2 ∷ 6 ∷ 8 ∷ 5 ∷ []
unfolding rb_insert rb_destroy update
inserted = refl

empty-IsRbTree : IsRbTree [] empty
empty-IsRbTree = record {
  shape = leaf;
  stored = record { here = refl; above = (refl, refl); once = λ a. omega arith };
  balanced = tt;
  root_black = refl;
  order = refl;
}

ltb-IsOrder : IsOrder ltb
ltb-IsOrder = record { asym = λ a b e. ground arith; trans = λ a b c e e'. ground arith }

abbrev first :
    (tree : RbTree) × (rb_insert ltb 9 5 empty ≡ some tree)
    × IsRbTree (5 ∷ []) tree
    × IsOrdered ltb (5 ∷ [])
first =
    rb_insert-Inserts ltb 9 5 1 [] empty ltb-IsOrder empty-IsRbTree tt (omega arith) refl
      (omega arith) (omega arith)

rb_insert-Inserts_example :
    (tree : RbTree) × (rb_insert ltb 9 2 first.0 ≡ some tree)
    × IsRbTree (2 ∷ 5 ∷ []) tree
    × IsOrdered ltb (2 ∷ 5 ∷ [])
rb_insert-Inserts_example =
    rb_insert-Inserts ltb 9 2 1 (5 ∷ []) first.0 ltb-IsOrder first.2 first.3 (omega arith) refl
      (omega arith) (omega arith)

-- 5 with 8 on its right.
abbrev two : RbTree
two = record {
  rb_root = 5;
  node = λ p.
      if p == 5
      then record { parent = 0; color = red; rb_left = 0; rb_right = 8 }
      else record { parent = 5; color = red; rb_left = 0; rb_right = 0 };
}

two-IsAt : IsAt two 0 5 (fork red leaf 5 (fork red leaf 8 leaf)) []
two-IsAt = record {
  here = (
    refl,
    (λ e. omega arith),
    refl,
    refl,
    refl,
    (refl, (λ e. omega arith), refl, refl, refl, refl),
  );
  above = (refl, refl);
  once = λ a. ground arith;
}

rotate-IsAt_example : IsAt (rotate left 5 two) 0 8 (fork red (fork red leaf 5 leaf) 8 leaf) []
rotate-IsAt_example =
    rotate-IsAt two left red red 5 8 0 5 leaf leaf leaf (fork red leaf 8 leaf) [] two-IsAt refl

abbrev one : RbTree
one = record {
  rb_root = 5;
  node = λ p. record { parent = 0; color = red; rb_left = 0; rb_right = 0 };
}

one-Loose : Loose (5 ∷ []) 1 one 5
one-Loose = record {
  q = 0;
  t = fork red leaf 5 leaf;
  k = [];
  place = record {
    here = (refl, (λ e. omega arith), refl, refl, refl, refl);
    above = (refl, refl);
    once = λ a. ground arith;
  };
  top = refl;
  balanced = (refl, refl, refl, tt, tt);
  path = tt;
  order = refl;
  size = omega arith;
}

loop-IsRbTree_example : (tree : RbTree) × (fixup_loop 1 5 one ≡ some tree) × IsRbTree (5 ∷ []) tree
loop-IsRbTree_example = loop-IsRbTree 1 (5 ∷ []) one 5 one-Loose

erased :
    freed (elim (insert_all (5 ∷ 2 ∷ 8 ∷ 1 ∷ 3 ∷ 4 ∷ 6 ∷ []) empty) [
      | none ↦ none
      | some t ↦ erase_all (5 ∷ 1 ∷ 8 ∷ 2 ∷ []) t
    ])
    ≡ 3 ∷ 6 ∷ 4 ∷ []
unfolding rb_insert rb_erase rb_destroy update rb_step
erased = refl

rb_erase-Removes_example : (tree : RbTree) × (rb_erase 9 5 first.0 ≡ some tree) × IsRbTree [] tree
rb_erase-Removes_example =
    rb_erase-Removes 9 5 1 (5 ∷ []) first.0 first.2 (omega arith) (omega arith) (omega arith)

rb_erase-rb_insert_example :
    (tree1 : RbTree) × (tree2 : RbTree) × (rb_insert ltb 9 2 first.0 ≡ some tree1)
    × (rb_erase 9 2 tree1 ≡ some tree2)
    × IsRbTree (5 ∷ []) tree2
rb_erase-rb_insert_example =
    rb_erase-rb_insert ltb 9 2 1 (5 ∷ []) first.0 ltb-IsOrder first.2 first.3 (omega arith) refl
      (omega arith) (omega arith)

-- 5 with 8 on its right, both black: a node on the left of 5 was taken out.
abbrev two_black : RbTree
two_black = record {
  rb_root = 5;
  node = λ p.
      if p == 5
      then record { parent = 0; color = black; rb_left = 0; rb_right = 8 }
      else record { parent = 5; color = black; rb_left = 0; rb_right = 0 };
}

two_black-Short : Short (5 ∷ 8 ∷ []) 3 two_black 5 0 false
two_black-Short = record {
  q = 5;
  t = leaf;
  k = record { side = left; color = black; addr = 5; sibling = fork black leaf 8 leaf } ∷ [];
  place = record {
    here = refl;
    above = (
      refl,
      (λ e. omega arith),
      refl,
      refl,
      (refl, (λ e. omega arith), refl, refl, refl, refl),
      (refl, refl),
    );
    once = λ a. ground arith;
  };
  balanced = tt;
  path = (refl, (refl, tt, tt, tt, tt), tt, tt, tt);
  order = refl;
  size = omega arith;
  linked = inr (refl, refl);
}

delete_loop-IsRbTree_example :
    (tree : RbTree) × (delete_loop 3 5 0 false two_black ≡ some tree) × IsRbTree (5 ∷ 8 ∷ []) tree
delete_loop-IsRbTree_example =
    delete_loop-IsRbTree 3 (5 ∷ 8 ∷ []) two_black 5 0 false two_black-Short
