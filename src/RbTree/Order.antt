-- ===== src/RbTree/Order.antt =====
-- The order of the nodes by the caller's `cmp` in src/common/ds/rbtree.c, and insertion in it.
use c_liber.Prelude.{
  ℕ, ◌≡◌, refl, ap, sym, ◌∙◌, Bool, true, false, List, [], ◌∷◌, ◌++◌, if◌then◌else◌, Bool-cases,
  inl, inr,
}
use mathlib.Core.Path.{subst}
use c_liber.RbTree.{red}
use c_liber.RbTree.Shape.{Tree, leaf, fork, inorder}

choice-append :
    (b : Bool) (n x : ℕ) (xs xs' ys zs : List ℕ)
    → xs' ≡ zs ++ ys
    → (if b then n ∷ x ∷ xs ++ ys else x ∷ xs') ≡ (if b then n ∷ x ∷ xs else x ∷ zs) ++ ys
choice-append true n x xs xs' ys zs e = refl
choice-append false n x xs xs' ys zs e = ap (◌∷◌ x) e

-- What `cmp(a, b) < 0` has to be: the nodes are in a linear order up to equal ones.
pub record IsOrder (less : ℕ → ℕ → Bool) : Type 0 where
  pub asym : (a b : ℕ) → less a b ≡ true → less b a ≡ false
  pub trans : (a b c : ℕ) → less b a ≡ false → less c b ≡ false → less c a ≡ false

module _ (less : ℕ → ℕ → Bool) where
  abbrev pub IsNoneBelow : ℕ → List ℕ → Type 0
  IsNoneBelow a [] = Unit
  IsNoneBelow a (b ∷ bs) = (less b a ≡ false) × IsNoneBelow a bs

  abbrev pub IsOrdered : List ℕ → Type 0
  IsOrdered [] = Unit
  IsOrdered (a ∷ xs) = IsNoneBelow a xs × IsOrdered xs

  -- The node is put in front of the first one that is greater.
  abbrev pub insort : ℕ → List ℕ → List ℕ
  insort n [] = n ∷ []
  insort n (a ∷ xs) = if less n a then n ∷ a ∷ xs else a ∷ insort n xs

  -- Insertion at a leaf.
  abbrev pub grow : ℕ → Tree → Tree
  grow n leaf = fork red leaf n leaf
  grow n (fork c l a r) = if less n a then fork c (grow n l) a r else fork c l a (grow n r)

  module _ (o : IsOrder less) where
    IsNoneBelow-middle :
        (x a : ℕ) (xs ys : List ℕ) → IsNoneBelow x (xs ++ a ∷ ys) → less a x ≡ false
    IsNoneBelow-middle x a [] ys (e, i) = e
    IsNoneBelow-middle x a (b ∷ xs) ys (e, i) = IsNoneBelow-middle x a xs ys i

    IsOrdered-right : (xs ys : List ℕ) → IsOrdered (xs ++ ys) → IsOrdered ys
    IsOrdered-right [] ys i = i
    IsOrdered-right (x ∷ xs) ys (h, i) = IsOrdered-right xs ys i

    IsNoneBelow-left : (x : ℕ) (xs ys : List ℕ) → IsNoneBelow x (xs ++ ys) → IsNoneBelow x xs
    IsNoneBelow-left x [] ys i = tt
    IsNoneBelow-left x (b ∷ xs) ys (e, i) = (e, IsNoneBelow-left x xs ys i)

    IsOrdered-left : (xs ys : List ℕ) → IsOrdered (xs ++ ys) → IsOrdered xs
    IsOrdered-left [] ys i = tt
    IsOrdered-left (x ∷ xs) ys (h, i) = (IsNoneBelow-left x xs ys h, IsOrdered-left xs ys i)

    insort_left :
        (n a : ℕ) (xs ys : List ℕ)
        → less n a ≡ true
        → insort n (xs ++ a ∷ ys) ≡ insort n xs ++ a ∷ ys
    insort_left n a [] ys e = ap (λ b. if b then n ∷ a ∷ ys else a ∷ insort n ys) e
    insort_left n a (x ∷ xs) ys e =
        choice-append (less n x) n x xs (insort n (xs ++ a ∷ ys)) (a ∷ ys) (insort n xs)
          (insort_left n a xs ys e)

    insort_right :
        (n a : ℕ) (xs ys : List ℕ)
        → less n a ≡ false
        → IsOrdered (xs ++ a ∷ ys)
        → insort n (xs ++ a ∷ ys) ≡ xs ++ a ∷ insort n ys
    insort_right n a [] ys e i = ap (λ b. if b then n ∷ a ∷ ys else a ∷ insort n ys) e
    insort_right n a (x ∷ xs) ys e (h, i) =
        ap (λ b. if b then n ∷ x ∷ xs ++ a ∷ ys else x ∷ insort n (xs ++ a ∷ ys))
          (o.trans x a n (IsNoneBelow-middle x a xs ys h) e)
        ∙ ap (◌∷◌ x) (insort_right n a xs ys e i)

    pub inorder-grow :
        (n : ℕ) (t : Tree) → IsOrdered (inorder t) → inorder (grow n t) ≡ insort n (inorder t)
    inorder-grow n leaf i = refl
    inorder-grow n (fork c l a r) i = elim (Bool-cases (less n a)) [
      | inl h ↦
          ap (λ b. inorder (if b then fork c (grow n l) a r else fork c l a (grow n r))) h
          ∙ ap (λ xs. xs ++ a ∷ inorder r)
              (inorder-grow n l (IsOrdered-left (inorder l) (a ∷ inorder r) i))
          ∙ sym (insort_left n a (inorder l) (inorder r) h)
      | inr h ↦
          ap (λ b. inorder (if b then fork c (grow n l) a r else fork c l a (grow n r))) h
          ∙ ap (λ xs. inorder l ++ a ∷ xs)
              (inorder-grow n r (IsOrdered-right (inorder l) (a ∷ inorder r) i).1)
          ∙ sym (insort_right n a (inorder l) (inorder r) h i)
    ]

    IsNoneBelow-all :
        (n a : ℕ) (xs : List ℕ) → less a n ≡ false → IsNoneBelow a xs → IsNoneBelow n xs
    IsNoneBelow-all n a [] e i = tt
    IsNoneBelow-all n a (x ∷ xs) e (h, i) = (o.trans n a x e h, IsNoneBelow-all n a xs e i)

    insort-IsNoneBelow :
        (n a : ℕ) (xs : List ℕ) → less n a ≡ false → IsNoneBelow a xs → IsNoneBelow a (insort n xs)
    insort-IsNoneBelow n a [] e i = (e, tt)
    insort-IsNoneBelow n a (x ∷ xs) e (h, i) = elim (Bool-cases (less n x)) [
      | inl d ↦
          subst (λ b. IsNoneBelow a (if b then n ∷ x ∷ xs else x ∷ insort n xs)) (sym d) (e, (h, i))
      | inr d ↦
          subst (λ b. IsNoneBelow a (if b then n ∷ x ∷ xs else x ∷ insort n xs)) (sym d)
            (h, insort-IsNoneBelow n a xs e i)
    ]

    pub insort-IsOrdered : (n : ℕ) (xs : List ℕ) → IsOrdered xs → IsOrdered (insort n xs)
    insort-IsOrdered n [] i = (tt, tt)
    insort-IsOrdered n (a ∷ xs) (h, i) = elim (Bool-cases (less n a)) [
      | inl d ↦
          subst (λ b. IsOrdered (if b then n ∷ a ∷ xs else a ∷ insort n xs)) (sym d)
            ((o.asym n a d, IsNoneBelow-all n a xs (o.asym n a d) h), (h, i))
      | inr d ↦
          subst (λ b. IsOrdered (if b then n ∷ a ∷ xs else a ∷ insort n xs)) (sym d)
            (insort-IsNoneBelow n a xs d h, insort-IsOrdered n xs i)
    ]
