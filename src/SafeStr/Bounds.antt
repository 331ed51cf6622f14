-- ===== src/SafeStr/Bounds.antt =====
-- Which bytes src/common/safestr.c writes.
use c_liber.Prelude.{
  ℕ, zero, suc, ◌+◌, ◌-◌, ◌≤◌, ◌<◌, ◌≡◌, ◌≢◌, refl, Bool, true, false, ◌||◌, not, ltb,
  if◌then◌else◌, min, arith, ◌⊎◌, inl, inr,
}
use c_liber.SafeStr.{
  Memory, Copied, strnlen_s, strcpy_s, strncpy_s, strcat_s, strncat_s, strdup_s, pass, sized,
  copy_bytes, set_byte, memcpy,
}

pass-le : (room p : ℕ) (mem : Memory) → pass room p mem ≤ room
unfolding pass
pass-le zero p mem = omega arith
pass-le (suc room) p mem = (let ih = pass-le room (p + 1) mem in ground arith)

pass-pos : (room p : ℕ) (mem : Memory) → 0 < room → mem p ≢ 0 → 0 < pass room p mem
unfolding pass
pass-pos zero p mem h n = absurd (omega arith)
pass-pos (suc room) p mem h n = ground arith

-- Nothing is written outside the `size` bytes at `p`.
abbrev pub IsWithin : (p size : ℕ) → (mem mem' : Memory) → Type 0
IsWithin p size mem mem' = (a : ℕ) → (a < p) ⊎ (p + size ≤ a) → mem' a ≡ mem a

copied-IsWithin :
    (p size to src n : ℕ) (mem : Memory)
    → p ≤ to
    → to + n < p + size
    → IsWithin p size mem (set_byte (to + n) 0 (memcpy to src n mem))
copied-IsWithin p size to src n mem le lt a (inl l) = ground arith
copied-IsWithin p size to src n mem le lt a (inr l) = ground arith

cleared-IsWithin : (p size : ℕ) (mem : Memory) → 0 < size → IsWithin p size mem (set_byte p 0 mem)
cleared-IsWithin p size mem h a (inl l) = ground arith
cleared-IsWithin p size mem h a (inr l) = ground arith

-- The three branches that the copying functions share.
abbrev outcome : (bad short : Bool) → (p to src n : ℕ) → Memory → Copied
outcome bad short p to src n mem =
    if bad
    then record { done = false; mem = mem }
    else if short
    then record { done = false; mem = set_byte p 0 mem }
    else record { done = true; mem = set_byte (to + n) 0 (memcpy to src n mem) }

outcome-IsWithin :
    (bad short : Bool) (p size to src n : ℕ) (mem : Memory)
    → p ≤ to
    → (bad ≡ false → 0 < size)
    → (bad ≡ false → short ≡ false → to + n < p + size)
    → IsWithin p size mem (outcome bad short p to src n mem).mem
outcome-IsWithin true short p size to src n mem le pos fits a h = refl
outcome-IsWithin false true p size to src n mem le pos fits a h =
    cleared-IsWithin p size mem (pos refl) a h
outcome-IsWithin false false p size to src n mem le pos fits a h =
    copied-IsWithin p size to src n mem le (fits refl refl) a h

module _ (rsize_max s1 s1max s2 : ℕ) (mem : Memory) where
  abbrev s1len : ℕ
  s1len = strnlen_s rsize_max s1 s1max mem

  strcpy_s-IsWithin : IsWithin s1 s1max mem (strcpy_s rsize_max s1 s1max s2 mem).mem
  unfolding strcpy_s
  strcpy_s-IsWithin =
      let len = strnlen_s rsize_max s2 s1max mem in
      outcome-IsWithin (not (sized rsize_max s1max)) (not (ltb len s1max)) s1 s1max s1 s2 len mem
        (omega arith) (λ e. ground arith) (λ e e'. ground arith)

  strncpy_s-IsWithin : (n : ℕ) → IsWithin s1 s1max mem (strncpy_s rsize_max s1 s1max s2 n mem).mem
  unfolding strncpy_s
  strncpy_s-IsWithin n =
      let len = strnlen_s rsize_max s2 s1max mem in
      outcome-IsWithin (not (sized rsize_max s1max) || not (sized rsize_max n))
        (not (ltb n s1max || ltb len s1max)) s1 s1max s1 s2 (min n len) mem (omega arith)
        (λ e. ground arith) (λ e e'. ground arith)

  strcat_s-IsWithin : IsWithin s1 s1max mem (strcat_s rsize_max s1 s1max s2 mem).mem
  unfolding strcat_s
  strcat_s-IsWithin =
      let len = strnlen_s rsize_max s2 (s1max - s1len) mem in
      outcome-IsWithin (not (sized rsize_max s1max)) (not (ltb len (s1max - s1len))) s1 s1max
        (s1 + s1len) s2 len mem (omega arith) (λ e. ground arith) (λ e e'. ground arith)

  strncat_s-IsWithin : (n : ℕ) → IsWithin s1 s1max mem (strncat_s rsize_max s1 s1max s2 n mem).mem
  unfolding strncat_s
  strncat_s-IsWithin n =
      let len = strnlen_s rsize_max s2 (s1max - s1len) mem in
      outcome-IsWithin (not (sized rsize_max s1max) || not (sized rsize_max n))
        (not (ltb n (s1max - s1len) || ltb len (s1max - s1len))) s1 s1max (s1 + s1len) s2
        (min n len) mem (omega arith) (λ e. ground arith) (λ e e'. ground arith)

-- Whatever the strings and the sizes are, strcpy_s, strncpy_s, strcat_s and strncat_s write no byte
-- outside the s1max bytes at s1, in none of their branches.
pub copies-IsWithin :
    (rsize_max s1 s1max s2 n : ℕ) (mem : Memory)
    → IsWithin s1 s1max mem (strcpy_s rsize_max s1 s1max s2 mem).mem
      × IsWithin s1 s1max mem (strncpy_s rsize_max s1 s1max s2 n mem).mem
      × IsWithin s1 s1max mem (strcat_s rsize_max s1 s1max s2 mem).mem
      × IsWithin s1 s1max mem (strncat_s rsize_max s1 s1max s2 n mem).mem
copies-IsWithin rsize_max s1 s1max s2 n mem = (
  strcpy_s-IsWithin rsize_max s1 s1max s2 mem,
  strncpy_s-IsWithin rsize_max s1 s1max s2 mem n,
  strcat_s-IsWithin rsize_max s1 s1max s2 mem,
  strncat_s-IsWithin rsize_max s1 s1max s2 mem n,
)

-- The loop of strdup_s copies n bytes to a place that does not overlap them, and writes nothing else.
copy_bytes-outside :
    (n src des a : ℕ) (mem : Memory)
    → (a < des) ⊎ (des + n ≤ a)
    → copy_bytes n src des mem a ≡ mem a
unfolding copy_bytes
copy_bytes-outside zero src des a mem h = refl
copy_bytes-outside (suc n) src des a mem h =
    let ih =
      copy_bytes-outside n (src + 1) (des + 1) a (set_byte des (mem src) mem) (ground arith) in
    ground arith

copy_bytes-inside :
    (n src des i : ℕ) (mem : Memory)
    → (src + n ≤ des) ⊎ (des + n ≤ src)
    → i < n
    → copy_bytes n src des mem (des + i) ≡ mem (src + i)
unfolding copy_bytes
copy_bytes-inside zero src des i mem apart h = absurd (omega arith)
copy_bytes-inside (suc n) src des zero mem apart h =
    let ih =
      copy_bytes-outside n (src + 1) (des + 1) des (set_byte des (mem src) mem)
        (inl (omega arith)) in
    ground arith
copy_bytes-inside (suc n) src des (suc i) mem apart h =
    let ih =
      copy_bytes-inside n (src + 1) (des + 1) i (set_byte des (mem src) mem) (ground arith)
        (omega arith) in
    ground arith

-- Where the source is not empty, RSIZE_MAX is not 0 and the two places do not overlap, strdup_s into a buffer of one byte
-- reports success and copies the whole string, up to RSIZE_MAX bytes, and the NUL behind it: it
-- writes past the buffer.
pub strdup_s_overruns :
    (rsize_max src des : ℕ) (mem : Memory)
    → 0 < rsize_max
    → mem src ≢ 0
    → (let len = pass rsize_max src mem in
        (src + len ≤ des) ⊎ (des + len ≤ src)
        → let out = strdup_s rsize_max src des 1 mem in
          (out.done ≡ true)
          × (des + 1 ≤ des + len)
          × ((i : ℕ) → i < len → out.mem (des + i) ≡ mem (src + i))
          × (out.mem (des + len) ≡ 0))
unfolding strdup_s
strdup_s_overruns rsize_max src des mem h n apart =
    let l = pass-pos rsize_max src mem h n in
    (
      refl,
      omega arith,
      λ i lt.
          let same = copy_bytes-inside (pass rsize_max src mem) src des i mem apart lt in
          ground arith,
      ground arith,
    )
