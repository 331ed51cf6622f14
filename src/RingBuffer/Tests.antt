-- ===== src/RingBuffer/Tests.antt =====
-- The theorems on the ring buffer at small rings, and runs of it.
use c_liber.Prelude.{
  ◌+◌, ◌%◌, ◌≡◌, ◌≤◌, ◌<◌, refl, true, false, [], ◌∷◌, ◌++◌, drop, arith, replicate,
}
use c_liber.RingBuffer.{RingBuffer, ring_buffer_commit_read, ring_buffer_free_space, load_at}
use c_liber.RingBuffer.Laws.{IsValid, contents, written, contents-written, contents-commit_read}
use c_liber.RingBuffer.Create.{Setup, outstanding, ring_buffer_create, create-IsValid, mapping}

-- Four bytes of room; the bytes 9 and 8 stand across the end of the mapping.
abbrev pub four : RingBuffer
four = record { mem = 8 ∷ 0 ∷ 0 ∷ 9 ∷ []; size = 4; write_offset = 5; read_offset = 3 }

pub four-IsValid : IsValid four
four-IsValid = record {
  mapped = refl;
  nonempty = omega arith;
  in_range = omega arith;
  low = omega arith;
  ordered = omega arith;
  bounded = omega arith;
}

four-contents : contents four ≡ 9 ∷ 8 ∷ []
unfolding contents load_at
four-contents = refl

contents-written_example :
    IsValid (written four (7 ∷ 6 ∷ []))
    × (contents (written four (7 ∷ 6 ∷ [])) ≡ contents four ++ 7 ∷ 6 ∷ [])
unfolding ring_buffer_free_space
contents-written_example = contents-written four-IsValid (7 ∷ 6 ∷ []) (omega arith)

contents-commit_read_example :
    IsValid (ring_buffer_commit_read four 1)
    × (contents (ring_buffer_commit_read four 1) ≡ drop 1 (contents four))
unfolding contents load_at
contents-commit_read_example = contents-commit_read four-IsValid 1 (omega arith)

abbrev pub all_well : Setup
all_well = record {
  malloc = true;
  mutex_init = true;
  shm_open = true;
  shm_unlink = true;
  ftruncate = true;
  reserve = true;
  first_mmap = true;
  second_mmap = true;
  close = true;
}

-- With a `close` that fails the mapping stays behind.
close_leaks :
    outstanding [] (ring_buffer_create (record all_well { close = false }) 5).1 ≡ mapping ∷ []
unfolding outstanding ring_buffer_create
close_leaks = refl

abbrev pub page : RingBuffer
page = record { mem = replicate 4096 0; size = 4096; write_offset = 0; read_offset = 0 }

create-IsValid_example :
    IsValid page
    × (contents page ≡ [])
    × (page.size % 4096 ≡ 0)
    × (5 ≤ page.size)
    × (page.size < 5 + 4096)
unfolding ring_buffer_create
create-IsValid_example = create-IsValid all_well 5 page (omega arith) refl
