-- ===== src/EvLoop/WatchTree/Unique.antt =====
-- Lists of watched items with different descriptors (src/fevent_loop/_ev_watch_item.c), under the
-- insertion and the removal of an item.
use c_liber.Prelude.{
  ℕ, ◌<◌, ◌≡◌, ◌≢◌, ap, sym, ◌∙◌, List, [], ◌∷◌, ◌==◌, count, arith, Bool-cases, inl, inr,
}
use mathlib.Core.Path.{subst}
use c_liber.RbTree.Order.{IsNoneBelow, IsOrdered, insort}
use c_liber.RbTree.Remove.Locate.{remove}
use c_liber.EvLoop.WatchTree.{lower_fd}
use c_liber.EvLoop.WatchTree.Lookup.{IsFree}

module _ (fd_of : ℕ → ℕ) where
  abbrev pub IsUnique : List ℕ → Type 0
  IsUnique [] = Unit
  IsUnique (x ∷ xs) = IsFree fd_of (fd_of x) xs × IsUnique xs

  insort-IsFree :
      (fd w : ℕ) (xs : List ℕ)
      → fd_of w ≢ fd
      → IsFree fd_of fd xs
      → IsFree fd_of fd (insort (lower_fd fd_of) w xs)
  insort-IsFree fd w [] n h = (n, tt)
  insort-IsFree fd w (a ∷ xs) n (m, h) = elim (Bool-cases (lower_fd fd_of w a)) [
    | inl e ↦ rw e (n, (m, h))
    | inr e ↦ rw e (m, insort-IsFree fd w xs n h)
  ]

  pub insort-IsUnique :
      (w : ℕ) (xs : List ℕ)
      → IsFree fd_of (fd_of w) xs
      → IsUnique xs
      → IsUnique (insort (lower_fd fd_of) w xs)
  insort-IsUnique w [] f u = (tt, tt)
  insort-IsUnique w (a ∷ xs) (n, f) (g, u) = elim (Bool-cases (lower_fd fd_of w a)) [
    | inl e ↦ rw e ((n, f), (g, u))
    | inr e ↦ rw e (insort-IsFree (fd_of a) w xs (λ q. n (sym q)) g, insort-IsUnique w xs f u)
  ]

  remove-IsFree : (fd w : ℕ) (xs : List ℕ) → IsFree fd_of fd xs → IsFree fd_of fd (remove w xs)
  remove-IsFree fd w [] h = tt
  remove-IsFree fd w (a ∷ xs) (m, h) = elim (Bool-cases (w == a)) [
    | inl e ↦ rw e h
    | inr e ↦ rw e (m, remove-IsFree fd w xs h)
  ]

  pub remove-IsUnique : (w : ℕ) (xs : List ℕ) → IsUnique xs → IsUnique (remove w xs)
  remove-IsUnique w [] u = tt
  remove-IsUnique w (a ∷ xs) (g, u) = elim (Bool-cases (w == a)) [
    | inl e ↦ rw e u
    | inr e ↦ rw e (remove-IsFree (fd_of a) w xs g, remove-IsUnique w xs u)
  ]

  -- The removed item was the only one with its descriptor.
  pub remove_frees :
      (w : ℕ) (xs : List ℕ) → IsUnique xs → 0 < count w xs → IsFree fd_of (fd_of w) (remove w xs)
  remove_frees w [] u h = tt
  remove_frees w (a ∷ xs) (g, u) h = elim (Bool-cases (w == a)) [
    | inl e ↦
        (let same : w ≡ a = ground arith in
          rw e (subst (λ v. IsFree fd_of (fd_of v) xs) (sym same) g))
    | inr e ↦
        (let there : 0 < count w xs = ground arith in
          rw e (differs a xs g there, remove_frees w xs u there))
  ]
    where
      differs :
          (a : ℕ) (ys : List ℕ) → IsFree fd_of (fd_of a) ys → 0 < count w ys → fd_of a ≢ fd_of w
      differs a [] f h = absurd (omega arith)
      differs a (y ∷ ys) (n, f) h = elim (Bool-cases (w == y)) [
        | inl e ↦ (let same : w ≡ y = ground arith in λ q. n (sym (q ∙ ap fd_of same)))
        | inr e ↦ differs a ys f (ground arith)
      ]

  remove-IsNoneBelow :
      (w a : ℕ) (xs : List ℕ)
      → IsNoneBelow (lower_fd fd_of) a xs
      → IsNoneBelow (lower_fd fd_of) a (remove w xs)
  remove-IsNoneBelow w a [] h = tt
  remove-IsNoneBelow w a (b ∷ xs) (m, h) = elim (Bool-cases (w == b)) [
    | inl e ↦ rw e h
    | inr e ↦ rw e (m, remove-IsNoneBelow w a xs h)
  ]

  pub remove-IsOrdered :
      (w : ℕ) (xs : List ℕ)
      → IsOrdered (lower_fd fd_of) xs
      → IsOrdered (lower_fd fd_of) (remove w xs)
  remove-IsOrdered w [] o = tt
  remove-IsOrdered w (a ∷ xs) (n, o) = elim (Bool-cases (w == a)) [
    | inl e ↦ rw e o
    | inr e ↦ rw e (remove-IsNoneBelow w a xs n, remove-IsOrdered w xs o)
  ]
