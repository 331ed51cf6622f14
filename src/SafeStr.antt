-- ===== src/SafeStr.antt =====
-- src/common/safestr.c: copies of NUL-terminated strings into buffers of a given size. The memory is a
-- function from addresses to bytes. Pointers are not NULL. `memcpy` copies between places that do not
-- overlap, as its callers promise by `restrict`.
pub mod Bounds
mod Tests
use c_liber.Prelude.{
  ℕ, zero, suc, ◌+◌, ◌-◌, Bool, true, false, ◌&&◌, ◌||◌, not, ltb, leb, ◌==◌, if◌then◌else◌, min,
}

abbrev pub Memory : Type 0
Memory = ℕ → ℕ

abbrev pub set_byte : (p b : ℕ) → Memory → Memory
set_byte p b mem = λ a. if a == p then b else mem a

-- `_zeroStr`
abbrev pub zero_str : ℕ → Memory → Memory
zero_str p = set_byte p 0

abbrev pub memcpy : (to from n : ℕ) → Memory → Memory
memcpy to from n mem = λ a. if leb to a && ltb a (to + n) then mem (from + (a - to)) else mem a

-- What a function returns, 0 or -1, and the memory after it.
pub record Copied : Type 0 where
  pub done : Bool
  pub mem : Memory

-- The loop of `strnlen_s`: `room` bytes may still be passed.
unfoldable pub pass : (room p : ℕ) → Memory → ℕ
pass zero p mem = 0
pass (suc room) p mem = let rest = pass room (p + 1) mem in if mem p == 0 then 0 else suc rest

-- The loop of `strdup_s`.
unfoldable pub copy_bytes : (n src des : ℕ) → Memory → Memory
copy_bytes zero src des mem = mem
copy_bytes (suc n) src des mem = copy_bytes n (src + 1) (des + 1) (set_byte des (mem src) mem)

-- `rsize_max` is RSIZE_MAX of def.h.
module _ (rsize_max : ℕ) where
  unfoldable pub strnlen_s : (s maxsize : ℕ) → Memory → ℕ
  unfolding pass
  strnlen_s s maxsize mem = pass (if maxsize == 0 then rsize_max else maxsize) s mem

  -- `Check_mem_size`
  abbrev pub sized : ℕ → Bool
  sized n = not (n == 0) && ltb n rsize_max

  unfoldable pub strdup_s : (src des des_max : ℕ) → Memory → Copied
  unfolding strnlen_s copy_bytes
  strdup_s src des des_max mem =
      let copy_len = strnlen_s src (des_max - 1) mem in
      if des_max == 0 then record { done = false; mem = mem } else record {
        done = true;
        mem = set_byte (des + copy_len) 0 (copy_bytes copy_len src des mem);
      }

  unfoldable pub strcpy_s : (s1 s1max s2 : ℕ) → Memory → Copied
  unfolding strnlen_s
  strcpy_s s1 s1max s2 mem =
      let s2len = strnlen_s s2 s1max mem in
      if not (sized s1max)
      then record { done = false; mem = mem }
      else if not (ltb s2len s1max)
      then record { done = false; mem = zero_str s1 mem }
      else record { done = true; mem = set_byte (s1 + s2len) 0 (memcpy s1 s2 s2len mem) }

  unfoldable pub strncpy_s : (s1 s1max s2 n : ℕ) → Memory → Copied
  unfolding strnlen_s
  strncpy_s s1 s1max s2 n mem =
      let s2len = strnlen_s s2 s1max mem in
      let copy_size = min n s2len in
      if not (sized s1max) || not (sized n)
      then record { done = false; mem = mem }
      else if not (ltb n s1max || ltb s2len s1max)
      then record { done = false; mem = zero_str s1 mem }
      else record { done = true; mem = set_byte (s1 + copy_size) 0 (memcpy s1 s2 copy_size mem) }

  unfoldable pub strcat_s : (s1 s1max s2 : ℕ) → Memory → Copied
  unfolding strnlen_s
  strcat_s s1 s1max s2 mem =
      let s1len = strnlen_s s1 s1max mem in
      let m = s1max - s1len in
      let s2len = strnlen_s s2 m mem in
      if not (sized s1max)
      then record { done = false; mem = mem }
      else if not (ltb s2len m)
      then record { done = false; mem = zero_str s1 mem }
      else record {
        done = true;
        mem = set_byte (s1 + s1len + s2len) 0 (memcpy (s1 + s1len) s2 s2len mem);
      }

  unfoldable pub strncat_s : (s1 s1max s2 n : ℕ) → Memory → Copied
  unfolding strnlen_s
  strncat_s s1 s1max s2 n mem =
      let s1len = strnlen_s s1 s1max mem in
      let m = s1max - s1len in
      let s2len = strnlen_s s2 m mem in
      let copy_size = min n s2len in
      if not (sized s1max) || not (sized n)
      then record { done = false; mem = mem }
      else if not (ltb n m || ltb s2len m)
      then record { done = false; mem = zero_str s1 mem }
      else record {
        done = true;
        mem = set_byte (s1 + s1len + copy_size) 0 (memcpy (s1 + s1len) s2 copy_size mem);
      }
