-- ===== src/SafeStr/Tests.antt =====
-- Runs of src/common/safestr.c.
use c_liber.Prelude.{
  ℕ, ◌+◌, ◌≤◌, ◌<◌, ◌≡◌, refl, true, inr, List, [], ◌∷◌, ◌==◌, if◌then◌else◌, arith,
}
use c_liber.SafeStr.{Memory, Copied, pass, strcpy_s, strncpy_s, strcat_s, strncat_s, strdup_s}
use c_liber.SafeStr.Bounds.{IsWithin, copies-IsWithin, strdup_s_overruns}

-- "ab" at 100, "c" at 10.
abbrev letters : Memory
letters = λ a. if a == 100 then 97 else if a == 101 then 98 else if a == 10 then 99 else 0

abbrev bytes_at : ℕ → Copied → List ℕ
bytes_at p out =
    (if out.done then 1 else 0)
    ∷ out.mem p
    ∷ out.mem (p + 1)
    ∷ out.mem (p + 2)
    ∷ out.mem (p + 3)
    ∷ []

copied : bytes_at 10 (strcpy_s 9 10 3 100 letters) ≡ 1 ∷ 97 ∷ 98 ∷ 0 ∷ 0 ∷ []
unfolding strcpy_s
copied = refl

too_long : bytes_at 10 (strcpy_s 9 10 2 100 letters) ≡ 0 ∷ 0 ∷ 0 ∷ 0 ∷ 0 ∷ []
unfolding strcpy_s
too_long = refl

cut_short : bytes_at 10 (strncpy_s 9 10 2 100 1 letters) ≡ 1 ∷ 97 ∷ 0 ∷ 0 ∷ 0 ∷ []
unfolding strncpy_s
cut_short = refl

appended : bytes_at 10 (strcat_s 9 10 4 100 letters) ≡ 1 ∷ 99 ∷ 97 ∷ 98 ∷ 0 ∷ []
unfolding strcat_s
appended = refl

copies-IsWithin_example :
    IsWithin 10 4 letters (strcpy_s 9 10 4 100 letters).mem
    × IsWithin 10 4 letters (strncpy_s 9 10 4 100 2 letters).mem
    × IsWithin 10 4 letters (strcat_s 9 10 4 100 letters).mem
    × IsWithin 10 4 letters (strncat_s 9 10 4 100 2 letters).mem
copies-IsWithin_example = copies-IsWithin 9 10 4 100 2 letters

-- "ab" at 100, and no NUL below.
abbrev filled : Memory
filled = λ a. if a == 100 then 97 else if a == 101 then 98 else if a == 102 then 0 else 7

strdup_s_overruns_example :
    let len = pass 9 100 filled in
    let out = strdup_s 9 100 10 1 filled in
    (out.done ≡ true)
    × (10 + 1 ≤ 10 + len)
    × ((i : ℕ) → i < len → out.mem (10 + i) ≡ filled (100 + i))
    × (out.mem (10 + len) ≡ 0)
strdup_s_overruns_example =
    strdup_s_overruns 9 100 10 filled (omega arith) (λ e. omega arith)
      (unfold pass in inr (omega arith))
