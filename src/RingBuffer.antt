-- ===== src/RingBuffer.antt =====
-- src/system/nx/io/ring_buffer.c: a byte ring whose buffer is one shared-memory file mapped twice in
-- a row, so that every run of up to `size` bytes is contiguous in the address space. `mem` is the
-- file; the address `buf + off` is its byte `off % size`. An `unsigned long` is a number with its
-- wrap-around at 2 ^ 64 written out. The mutex serialises the calls, which are functions here.
pub mod Bytes
pub mod Laws
pub mod Create
pub mod Tests
use c_liber.Prelude.{
  ℕ, ◌+◌, ◌-◌, ◌*◌, ◌/◌, ◌%◌, ◌^◌, zero, suc, Bool, List, [], ◌∷◌, set, get_or, leb, if◌then◌else◌,
}

abbrev pub ulong_mod : ℕ
ulong_mod = 2 ^ 64

abbrev pub add_ulong : ℕ → ℕ → ℕ
add_ulong a b = (a + b) % ulong_mod

abbrev pub sub_ulong : ℕ → ℕ → ℕ
sub_ulong a b = (a + ulong_mod - b) % ulong_mod

-- `struct ring_buffer`: `mem` stands for what `buf` points to.
pub record RingBuffer : Type 0 where
  pub mem : List ℕ
  pub size : ℕ
  pub write_offset : ℕ
  pub read_offset : ℕ

-- The pointers are offsets from `buf`.
unfoldable pub ring_buffer_write_pos : RingBuffer → ℕ
ring_buffer_write_pos rbuf = rbuf.write_offset

unfoldable pub ring_buffer_read_pos : RingBuffer → ℕ
ring_buffer_read_pos rbuf = rbuf.read_offset

unfoldable pub ring_buffer_commit_write : RingBuffer → ℕ → RingBuffer
ring_buffer_commit_write rbuf w_num = record rbuf {
  write_offset = add_ulong rbuf.write_offset w_num;
}

-- The body of `commit_read` behind the addition.
wrap_offsets : RingBuffer → RingBuffer
wrap_offsets rbuf =
    if leb rbuf.size rbuf.read_offset
    then record rbuf {
      read_offset = sub_ulong rbuf.read_offset rbuf.size;
      write_offset = sub_ulong rbuf.write_offset rbuf.size;
    }
    else rbuf

unfoldable pub ring_buffer_commit_read : RingBuffer → ℕ → RingBuffer
unfolding wrap_offsets
ring_buffer_commit_read rbuf r_num =
    wrap_offsets (record rbuf { read_offset = add_ulong rbuf.read_offset r_num })

unfoldable pub ring_buffer_data_count : RingBuffer → ℕ
ring_buffer_data_count rbuf = sub_ulong rbuf.write_offset rbuf.read_offset

unfoldable pub ring_buffer_free_space : RingBuffer → ℕ
unfolding ring_buffer_data_count
ring_buffer_free_space rbuf = sub_ulong rbuf.size (ring_buffer_data_count rbuf)

unfoldable pub ring_buffer_reset : RingBuffer → RingBuffer
ring_buffer_reset rbuf = record rbuf { write_offset = 0; read_offset = 0 }

-- What `read(fd, buf + off, n)` does with the bytes that it got: a store at each address in turn.
unfoldable pub store_at : (size : ℕ) → ℕ → List ℕ → List ℕ → List ℕ
store_at size off [] mem = mem
store_at size off (b ∷ bs) mem = store_at size (off + 1) bs (set mem (off % size) b)

-- The `n` bytes that stand from `buf + off` on.
unfoldable pub load_at : (size : ℕ) → List ℕ → ℕ → ℕ → List ℕ
load_at size mem off zero = []
load_at size mem off (suc n) = get_or mem (off % size) 0 ∷ load_at size mem (off + 1) n
