-- ===== src/RingBuffer/Laws.antt =====
-- src/system/nx/io/ring_buffer.c as a bounded queue of bytes: the invariant of the offsets, and what
-- each operation does to the bytes that are held.
use c_liber.Prelude.{
  ℕ, ◌+◌, ◌-◌, ◌^◌, ◌≤◌, ◌<◌, ◌≡◌, refl, sym, ap, ap₂, ◌∙◌, List, [], ◌++◌, drop, take, arith,
  length, leb, leb→le, Bool-cases, inl, inr,
}
use c_liber.RingBuffer.{
  RingBuffer, add_ulong, ring_buffer_write_pos, ring_buffer_read_pos, ring_buffer_commit_write,
  ring_buffer_commit_read, ring_buffer_data_count, ring_buffer_free_space, ring_buffer_reset,
  wrap_offsets, store_at, load_at,
}
use c_liber.RingBuffer.Bytes.{
  length-load_at, length-store_at, load_at-store_at, drop-load_at, take-load_at, load_at-sub,
}

-- `size` is the length of a mapping that is made twice, so it stays far below 2 ^ 63.
pub record IsValid (rbuf : RingBuffer) : Type 0 where
  pub mapped : length rbuf.mem ≡ rbuf.size
  pub nonempty : 0 < rbuf.size
  pub in_range : rbuf.size ≤ 2 ^ 62
  pub low : rbuf.read_offset < rbuf.size
  pub ordered : rbuf.read_offset ≤ rbuf.write_offset
  pub bounded : rbuf.write_offset ≤ rbuf.read_offset + rbuf.size

-- The bytes that are committed for writing and not yet for reading, oldest first.
unfoldable pub contents : RingBuffer → List ℕ
contents rbuf = load_at rbuf.size rbuf.mem rbuf.read_offset (rbuf.write_offset - rbuf.read_offset)

pub length-contents :
    (rbuf : RingBuffer) → length (contents rbuf) ≡ rbuf.write_offset - rbuf.read_offset
unfolding contents
length-contents rbuf = length-load_at _ _ _ _

-- Storing the bytes at the write position and committing their number.
abbrev pub written : RingBuffer → List ℕ → RingBuffer
written r bs =
    ring_buffer_commit_write (record r { mem = store_at r.size (ring_buffer_write_pos r) bs r.mem })
      (length bs)

module _ {rbuf : RingBuffer} (v : IsValid rbuf) where
  -- On a valid ring `ring_buffer_data_count` is the number of bytes held, `ring_buffer_free_space`
  -- is the rest of the size, and neither subtraction wraps.
  pub data_count-free_space :
      (ring_buffer_data_count rbuf ≡ length (contents rbuf))
      × (ring_buffer_free_space rbuf + length (contents rbuf) ≡ rbuf.size)
  unfolding ring_buffer_data_count ring_buffer_free_space
  data_count-free_space = (omega (arith, length-contents rbuf), omega (arith, length-contents rbuf))

  -- On a valid ring, bytes stored at the write position and committed follow the bytes held, if there
  -- was room, and the ring stays valid.
  pub contents-written :
      (bs : List ℕ)
      → length bs ≤ ring_buffer_free_space rbuf
      → IsValid (written rbuf bs) × (contents (written rbuf bs) ≡ contents rbuf ++ bs)
  unfolding contents ring_buffer_commit_write ring_buffer_write_pos
  contents-written bs h = (
    record {
      mapped = length-store_at _ _ bs rbuf.mem ∙ v.mapped;
      nonempty = v.nonempty;
      in_range = v.in_range;
      low = v.low;
      ordered = omega (arith, data_count-free_space);
      bounded = omega (arith, data_count-free_space, length-contents rbuf);
    },
    ap₂ (λ a k. load_at rbuf.size (store_at rbuf.size a bs rbuf.mem) rbuf.read_offset k)
          (omega arith) (omega (arith, data_count-free_space, length-contents rbuf))
        ∙ load_at-store_at rbuf.size bs rbuf.mem rbuf.read_offset
            (rbuf.write_offset - rbuf.read_offset) v.mapped
            (omega (arith, data_count-free_space, length-contents rbuf)),
  )

  -- Behind the addition of `ring_buffer_commit_read` the offsets may stand in the second mapping.
  wrap_offsets-drop :
      (n : ℕ)
      → n ≤ length (contents rbuf)
      → let r = record rbuf { read_offset = rbuf.read_offset + n } in
        IsValid (wrap_offsets r) × (contents (wrap_offsets r) ≡ drop n (contents rbuf))
  unfolding contents wrap_offsets
  wrap_offsets-drop n h =
      let held = length-contents rbuf in
      let rest =
        drop-load_at rbuf.size rbuf.mem rbuf.read_offset (rbuf.write_offset - rbuf.read_offset) n
          (omega (arith, held)) in
      elim (Bool-cases (leb rbuf.size (rbuf.read_offset + n))) [
        | inl e ↦
            let over = leb→le rbuf.size (rbuf.read_offset + n) e in
            rw e (
              record {
                mapped = v.mapped;
                nonempty = v.nonempty;
                in_range = v.in_range;
                low = omega (arith, held);
                ordered = omega (arith, held);
                bounded = omega (arith, held);
              },
              ap₂ (load_at rbuf.size rbuf.mem) (omega (arith, held)) (omega (arith, held))
                  ∙ load_at-sub rbuf.size rbuf.mem (rbuf.read_offset + n)
                      (rbuf.write_offset - rbuf.read_offset - n) v.nonempty over
                  ∙ sym rest,
            )
        | inr e ↦
            let under : rbuf.read_offset + n < rbuf.size = ground arith in
            rw e (
              record {
                mapped = v.mapped;
                nonempty = v.nonempty;
                in_range = v.in_range;
                low = under;
                ordered = omega (arith, held);
                bounded = omega (arith, held);
              },
              ap (load_at rbuf.size rbuf.mem (rbuf.read_offset + n)) (omega arith) ∙ sym rest,
            )
      ]

  -- On a valid ring `ring_buffer_commit_read` takes the oldest bytes away, if so many are held, and
  -- the ring stays valid.
  pub contents-commit_read :
      (n : ℕ)
      → n ≤ length (contents rbuf)
      → IsValid (ring_buffer_commit_read rbuf n)
        × (contents (ring_buffer_commit_read rbuf n) ≡ drop n (contents rbuf))
  unfolding ring_buffer_commit_read
  contents-commit_read n h =
      let exact : add_ulong rbuf.read_offset n ≡ rbuf.read_offset + n =
        omega (arith, length-contents rbuf) in
      rw exact (wrap_offsets-drop n h)

  -- What stands at the read position is what is held, oldest first.
  pub load_at-read_pos :
      (n : ℕ)
      → n ≤ length (contents rbuf)
      → load_at rbuf.size rbuf.mem (ring_buffer_read_pos rbuf) n ≡ take n (contents rbuf)
  unfolding contents ring_buffer_read_pos
  load_at-read_pos n h =
      sym
        (take-load_at rbuf.size rbuf.mem rbuf.read_offset _ n (omega (arith, length-contents rbuf)))

  -- `ring_buffer_reset` empties the ring.
  pub contents-reset : IsValid (ring_buffer_reset rbuf) × (contents (ring_buffer_reset rbuf) ≡ [])
  unfolding contents ring_buffer_reset load_at
  contents-reset = (
    record {
      mapped = v.mapped;
      nonempty = v.nonempty;
      in_range = v.in_range;
      low = v.nonempty;
      ordered = omega arith;
      bounded = omega arith;
    },
    refl,
  )
