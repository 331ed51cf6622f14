-- ===== src/ThreadPool/Entries.antt =====
-- Counting the entries of the lists of src/system/nx/thread_pool.
use c_liber.Prelude.{
  ℕ, ◌+◌, ◌≡◌, refl, Bool, List, [], ◌∷◌, map, ◌==◌, if◌then◌else◌, arith, length, count,
}
use c_liber.DList.{without}
use c_liber.ThreadPool.World.{update, has}

abbrev pub bit : Bool → ℕ
bit b = if b then 1 else 0

pub length-without : (t : ℕ) (xs : List ℕ) → length (without t xs) + bit (has t xs) ≡ length xs
length-without t [] = refl
length-without t (x ∷ xs) = ground (arith, length-without t xs)

pub count-without :
    (u t : ℕ) (xs : List ℕ)
    → count u (without t xs) + (if u == t then bit (has t xs) else 0) ≡ count u xs
count-without u t [] = ground arith
count-without u t (x ∷ xs) = ground (arith, count-without u t xs)

pub without-absent : (t : ℕ) (xs : List ℕ) → count t xs ≡ 0 → without t xs ≡ xs
without-absent t [] h = refl
without-absent t (x ∷ xs) h = ground (arith, without-absent t xs)

pub map-update :
    (f : ℕ → ℕ) (t a : ℕ) (xs : List ℕ) → count t xs ≡ 0 → map (update f t a) xs ≡ map f xs
map-update f t a [] h = refl
map-update f t a (x ∷ xs) h = ground (arith, map-update f t a xs)

pub count-map-without :
    (f : ℕ → ℕ) (j t : ℕ) (xs : List ℕ)
    → count j (map f (without t xs)) + (if j == f t then bit (has t xs) else 0) ≡ count j (map f xs)
count-map-without f j t [] = ground arith
count-map-without f j t (x ∷ xs) = ground (arith, count-map-without f j t xs)
