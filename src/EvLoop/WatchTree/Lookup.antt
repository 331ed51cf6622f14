-- ===== src/EvLoop/WatchTree/Lookup.antt =====
-- What `ev_watch_tree_search` of src/fevent_loop/_ev_watch_item.c finds.
use c_liber.Prelude.{
  ℕ, zero, suc, ◌+◌, ◌*◌, ◌^◌, ◌<◌, ◌≤◌, ◌≡◌, ◌≢◌, refl, sym, false, some, List, [], ◌∷◌, ◌++◌,
  ◌==◌, ltb, count, length, arith, Bool-cases, inl, inr, ◌⊎◌,
}
use mathlib.Core.Path.{subst}
use c_liber.RbTree.{RbTree, left, right, child_of}
use c_liber.RbTree.Shape.{Tree, leaf, fork, inorder, IsTree}
use c_liber.RbTree.Balance.{height, height_bound}
use c_liber.RbTree.Order.{IsNoneBelow, IsOrdered}
use c_liber.RbTree.Loop.{IsRbTree}
use c_liber.EvLoop.WatchTree.{lower_fd, search_loop, ev_watch_tree_search}

module _ (fd_of : ℕ → ℕ) where
  -- No item of the list has the descriptor.
  abbrev pub IsFree : (fd : ℕ) → List ℕ → Type 0
  IsFree fd [] = Unit
  IsFree fd (x ∷ xs) = (fd_of x ≢ fd) × IsFree fd xs

  -- What a search answers for the items of a tree: NULL if none has the descriptor, or one of them
  -- that has it.
  abbrev pub Finds : (fd w : ℕ) → List ℕ → Type 0
  Finds fd w xs = ((w ≡ 0) × IsFree fd xs) ⊎ ((w ≢ 0) × (0 < count w xs) × (fd_of w ≡ fd))

  count-append : (w : ℕ) (xs ys : List ℕ) → count w (xs ++ ys) ≡ count w xs + count w ys
  count-append w [] ys = omega arith
  count-append w (x ∷ xs) ys = ground (arith, count-append w xs ys)

  pub IsFree-append : (fd : ℕ) (xs ys : List ℕ) → IsFree fd xs → IsFree fd ys → IsFree fd (xs ++ ys)
  IsFree-append fd [] ys h i = i
  IsFree-append fd (x ∷ xs) ys (e, h) i = (e, IsFree-append fd xs ys h i)

  -- The items behind one whose descriptor is greater have greater descriptors.
  IsFree-above :
      (fd a : ℕ) (xs : List ℕ) → fd < fd_of a → IsNoneBelow (lower_fd fd_of) a xs → IsFree fd xs
  IsFree-above fd a [] h i = tt
  IsFree-above fd a (x ∷ xs) h (e, i) = ((λ q. ground arith), IsFree-above fd a xs h i)

  -- The items before one whose descriptor is smaller have smaller descriptors.
  IsFree-below :
      (fd a : ℕ) (xs ys : List ℕ)
      → fd_of a < fd
      → IsOrdered (lower_fd fd_of) (xs ++ a ∷ ys)
      → IsFree fd xs
  IsFree-below fd a [] ys h i = tt
  IsFree-below fd a (x ∷ xs) ys h (n, i) =
      let le = middle xs n in ((λ q. ground arith), IsFree-below fd a xs ys h i)
    where
      middle :
          (zs : List ℕ) → IsNoneBelow (lower_fd fd_of) x (zs ++ a ∷ ys) → lower_fd fd_of a x ≡ false
      middle [] (e, i) = e
      middle (z ∷ zs) (e, i) = middle zs i

  ordered_left :
      (xs ys : List ℕ) → IsOrdered (lower_fd fd_of) (xs ++ ys) → IsOrdered (lower_fd fd_of) xs
  ordered_left [] ys i = tt
  ordered_left (x ∷ xs) ys (n, i) = (left_part xs n, ordered_left xs ys i)
    where
      left_part :
          (zs : List ℕ)
          → IsNoneBelow (lower_fd fd_of) x (zs ++ ys)
          → IsNoneBelow (lower_fd fd_of) x zs
      left_part [] n = tt
      left_part (z ∷ zs) (e, n) = (e, left_part zs n)

  ordered_right :
      (xs ys : List ℕ) → IsOrdered (lower_fd fd_of) (xs ++ ys) → IsOrdered (lower_fd fd_of) ys
  ordered_right [] ys i = i
  ordered_right (x ∷ xs) ys (n, i) = ordered_right xs ys i

  Finds-left :
      (fd w a : ℕ) (xs ys : List ℕ) → IsFree fd (a ∷ ys) → Finds fd w xs → Finds fd w (xs ++ a ∷ ys)
  Finds-left fd w a xs ys free (inl (e, h)) = inl (e, IsFree-append fd xs (a ∷ ys) h free)
  Finds-left fd w a xs ys free (inr (e, h, f)) =
      inr (e, ground (arith, count-append w xs (a ∷ ys)), f)

  Finds-right :
      (fd w a : ℕ) (xs ys : List ℕ)
      → IsFree fd xs
      → fd_of a ≢ fd
      → Finds fd w ys
      → Finds fd w (xs ++ a ∷ ys)
  Finds-right fd w a xs ys free n (inl (e, h)) = inl (e, IsFree-append fd xs (a ∷ ys) free (n, h))
  Finds-right fd w a xs ys free n (inr (e, h, f)) =
      inr (e, ground (arith, count-append w xs (a ∷ ys)), f)

  -- From a place in the tree, with more fuel than the subtree is high.
  search_loop-Finds :
      (fuel fd q p : ℕ) (tree : RbTree) (t : Tree)
      → IsTree tree.node q p t
      → IsOrdered (lower_fd fd_of) (inorder t)
      → height t < fuel
      → (w : ℕ) × (search_loop fd_of fuel fd p tree ≡ some w) × Finds fd w (inorder t)
  unfolding search_loop
  search_loop-Finds zero fd q p tree t i o enough = absurd (omega arith)
  search_loop-Finds (suc fuel) fd q p tree leaf i o enough = (0, ground arith, inl (refl, tt))
  search_loop-Finds (suc fuel) fd q p tree (fork c l a r) (e, m, par, co, il, ir) o enough =
      let il' : IsTree tree.node p (child_of tree left p) l =
        subst (λ v. IsTree tree.node v (child_of tree left v) l) (sym e) il in
      let ir' : IsTree tree.node p (child_of tree right p) r =
        subst (λ v. IsTree tree.node v (child_of tree right v) r) (sym e) ir in
      let (wl, el, fl) =
        search_loop-Finds fuel fd p (child_of tree left p) tree l il'
          (ordered_left (inorder l) (a ∷ inorder r) o) (ground arith) in
      let (above_a, o') = ordered_right (inorder l) (a ∷ inorder r) o in
      let (wr, er, fr) =
        search_loop-Finds fuel fd p (child_of tree right p) tree r ir' o' (ground arith) in
      elim (Bool-cases (fd == fd_of p)) [
        | inl same ↦ (
          p,
          ground arith,
          inr (
            ground arith,
            ground (arith, count-append p (inorder l) (a ∷ inorder r)),
            ground arith,
          ),
        )
        | inr differ ↦ elim (Bool-cases (ltb fd (fd_of p))) [
          | inl less ↦
              (let lt : fd < fd_of a = ground arith in
                (
                  wl,
                  ground arith,
                  Finds-left fd wl a (inorder l) (inorder r)
                      ((λ q. ground arith), IsFree-above fd a (inorder r) lt above_a) fl,
                ))
          | inr more ↦
              (let lt : fd_of a < fd = ground arith in
                (
                  wr,
                  ground arith,
                  Finds-right fd wr a (inorder l) (inorder r)
                      (IsFree-below fd a (inorder l) (inorder r) lt o) (λ q. ground arith) fr,
                ))
        ]
      ]

  -- Let `xs` be the items of a red-black tree from left to right, ordered by their descriptors. Where
  -- 2 ^ (b + 1) is more than their number plus one, 2 * b + 1 rounds of fuel are enough for
  -- `ev_watch_tree_search` to return. It returns NULL only where no item has the descriptor, and
  -- otherwise an item of the tree that has it.
  pub search-Finds :
      (fuel fd b : ℕ) (xs : List ℕ) (tree : RbTree)
      → IsRbTree xs tree
      → IsOrdered (lower_fd fd_of) xs
      → length xs + 1 < 2 ^ suc b
      → 2 * b < fuel
      → (w : ℕ) × (ev_watch_tree_search fd_of fuel tree fd ≡ some w) × Finds fd w xs
  unfolding ev_watch_tree_search
  search-Finds fuel fd b xs tree r o few enough =
      let low : height r.shape ≤ 2 * b =
        height_bound r.shape b r.balanced r.root_black
          (subst (λ ys. length ys + 1 < 2 ^ suc b) (sym r.order) few) in
      let (w, e, f) =
        search_loop-Finds fuel fd 0 tree.rb_root tree r.shape r.stored.here
          (subst (IsOrdered (lower_fd fd_of)) (sym r.order) o) (omega arith) in
      (w, e, subst (Finds fd w) r.order f)
