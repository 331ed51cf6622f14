-- ===== src/RbTree/RoundTrip.antt =====
-- `rb_insert` followed by `rb_erase` in src/common/ds/rbtree.c.
use c_liber.Prelude.{
  ℕ, suc, ◌+◌, ◌*◌, ◌^◌, ◌<◌, ◌≡◌, ◌≢◌, refl, ap, sym, ◌∙◌, Bool, true, false, List, [], ◌∷◌,
  length, count, arith, if◌then◌else◌, ◌==◌, some, Bool-cases, inl, inr,
}
use mathlib.Core.Path.{subst}
use c_liber.RbTree.{RbTree}
use c_liber.RbTree.Insert.{rb_insert}
use c_liber.RbTree.Erase.{rb_erase}
use c_liber.RbTree.Order.{IsOrder, IsOrdered, insort}
use c_liber.RbTree.Loop.{IsRbTree}
use c_liber.RbTree.Refine.{rb_insert-Inserts}
use c_liber.RbTree.Remove.Locate.{remove}
use c_liber.RbTree.Remove.Refine.{rb_erase-Removes}

module _ (less : ℕ → ℕ → Bool) (n : ℕ) where
  pub remove-insort : (xs : List ℕ) → count n xs ≡ 0 → remove n (insort less n xs) ≡ xs
  remove-insort [] h =
      (let same : (n == n) ≡ true = ground arith in ap (λ b. if b then [] else n ∷ []) same)
  remove-insort (a ∷ xs) h =
      let same : (n == n) ≡ true = ground arith in
      let differ : (n == a) ≡ false = ground arith in
      elim (Bool-cases (less n a)) [
        | inl e ↦
            ap (λ b. remove n (if b then n ∷ a ∷ xs else a ∷ insort less n xs)) e
            ∙ ap (λ b. if b then a ∷ xs else n ∷ remove n (a ∷ xs)) same
        | inr e ↦
            ap (λ b. remove n (if b then n ∷ a ∷ xs else a ∷ insort less n xs)) e
            ∙ ap (λ b. if b then insort less n xs else a ∷ remove n (insort less n xs)) differ
            ∙ ap (◌∷◌ a) (remove-insort xs (ground arith))
      ]

  pub insort_sizes :
      (xs : List ℕ)
      → (length (insort less n xs) ≡ suc (length xs)) × (0 < count n (insort less n xs))
  insort_sizes [] = (refl, (let same : (n == n) ≡ true = ground arith in ground arith))
  insort_sizes (a ∷ xs) = elim (Bool-cases (less n a)) [
    | inl e ↦
        subst
          (λ b.
            (length (if b then n ∷ a ∷ xs else a ∷ insort less n xs) ≡ suc (suc (length xs)))
            × (0 < count n (if b then n ∷ a ∷ xs else a ∷ insort less n xs)))
          (sym e) (refl, ground arith)
    | inr e ↦
        (let (long, there) = insort_sizes xs in
          subst
            (λ b.
              (length (if b then n ∷ a ∷ xs else a ∷ insort less n xs) ≡ suc (suc (length xs)))
              × (0 < count n (if b then n ∷ a ∷ xs else a ∷ insort less n xs)))
            (sym e) (ap suc long, ground arith))
  ]

-- Let `less`, which is cmp < 0, be asymmetric, and "not less" be transitive. Let `xs` be the nodes of a
-- red-black tree from left to right, ordered by it, and `n` a node (not NULL) that is not among them.
-- Where 2 ^ (b + 1) is more than their number plus two, 2 * b + 1 rounds of fuel for each loop are enough
-- for rb_insert of `n` and rb_erase of `n` after it, and a red-black tree with the nodes `xs` in the same
-- order is left.
pub rb_erase-rb_insert :
    (less : ℕ → ℕ → Bool) (fuel n b : ℕ) (xs : List ℕ) (tree : RbTree)
    → IsOrder less
    → IsRbTree xs tree
    → IsOrdered less xs
    → n ≢ 0
    → count n xs ≡ 0
    → length xs + 2 < 2 ^ suc b
    → 2 * b < fuel
    → (tree1 : RbTree) × (tree2 : RbTree) × (rb_insert less fuel n tree ≡ some tree1)
      × (rb_erase fuel n tree1 ≡ some tree2)
      × IsRbTree xs tree2
rb_erase-rb_insert less fuel n b xs tree o r ordered null fresh few enough =
    let (tree1, e1, r1, ordered1) =
      rb_insert-Inserts less fuel n b xs tree o r ordered null fresh (omega arith) enough in
    let (long, there) = insort_sizes less n xs in
    let (tree2, e2, r2) =
      rb_erase-Removes fuel n b (insort less n xs) tree1 r1 there (omega (arith, long)) enough in
    (tree1, tree2, e1, e2, subst (λ ys. IsRbTree ys tree2) (remove-insort less n xs fresh) r2)
