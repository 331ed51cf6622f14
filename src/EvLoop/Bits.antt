-- ===== src/EvLoop/Bits.antt =====
-- The bits of a `uint32_t`, the `ev_set` of src/fevent_loop/fevent.h. `a & (1 << i)` is `bit i a`.
use c_liber.Prelude.{
  ℕ, zero, suc, ◌+◌, ◌*◌, ◌/◌, ◌%◌, ◌<◌, ◌≡◌, Bool, ◌||◌, ◌==◌, if◌then◌else◌, arith,
}

unfoldable pub bit : ℕ → ℕ → Bool
bit zero a = a % 2 == 1
bit (suc i) a = bit i (a / 2)

-- `a | b` for words of `w` bits.
unfoldable pub or_bits : (w : ℕ) → ℕ → ℕ → ℕ
or_bits zero a b = 0
or_bits (suc w) a b = (if a % 2 == 1 || b % 2 == 1 then 1 else 0) + 2 * or_bits w (a / 2) (b / 2)

pub bit-or_bits : (i w a b : ℕ) → i < w → bit i (or_bits w a b) ≡ bit i a || bit i b
unfolding bit or_bits
bit-or_bits i zero a b h = absurd (omega (arith, h))
bit-or_bits zero (suc w) a b h = ground arith
bit-or_bits (suc i) (suc w) a b h =
    ground (arith, bit-or_bits i w (a / 2) (b / 2) (omega (arith, h)))

pub bit-zero : (i : ℕ) → bit i 0 ≡ Bool.false
unfolding bit
bit-zero zero = ground arith
bit-zero (suc i) = bit-zero i
