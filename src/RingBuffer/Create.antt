-- ===== src/RingBuffer/Create.antt =====
-- `ring_buffer_create` of src/system/nx/io/ring_buffer.c. The outcomes of the system calls are given;
-- what the code acquires and releases on its way is recorded.
use c_liber.Prelude.{
  ◌≤◌, ◌<◌, arith, length-replicate, ℕ, ◌+◌, ◌-◌, ◌*◌, ◌/◌, ◌%◌, ◌^◌, ◌≡◌, Bool, true, false, ◌&&◌,
  not, List, [], ◌∷◌, ◌++◌, map, Option, none, some, ◌==◌, leb, ◌||◌, if◌then◌else◌, replicate,
}
use c_liber.RingBuffer.{RingBuffer, add_ulong, load_at}
use c_liber.RingBuffer.Laws.{IsValid, contents}

-- Whether each call succeeds; `reserve` is the first of the three `mmap`s.
pub record Setup : Type 0 where
  pub malloc : Bool
  pub mutex_init : Bool
  pub shm_open : Bool
  pub shm_unlink : Bool
  pub ftruncate : Bool
  pub reserve : Bool
  pub first_mmap : Bool
  pub second_mmap : Bool
  pub close : Bool

pub data Resource : Type 0 where
  block mutex descriptor mapping : Resource

pub data Event : Type 0 where
  acquire release : Resource → Event

-- `size` rounded up to whole pages.
pub page_size : ℕ → ℕ
page_size size = add_ulong size (2 ^ 12 - 1) / 2 ^ 12 * 2 ^ 12

-- `ERR_CLEAN_BEGIN … ERR_CLEAN_END`: the pushed resources are released, the last one first.
pub unwind : List Resource → List Event
unwind = map release

-- Each step takes what has happened so far, oldest first.
close_fd : Setup → RingBuffer → List Event → Option RingBuffer × List Event
unfolding unwind
close_fd s rbuf es =
    if s.close
    then (some rbuf, es ++ release descriptor ∷ [])
    else (none, es ++ release descriptor ∷ unwind (mutex ∷ block ∷ []))

-- Whether the unchecked `mmap` reserves the address space; one of 0 bytes fails.
reserves : Setup → (size : ℕ) → Bool
reserves s size = s.reserve && not (size * 2 % 2 ^ 64 == 0)

-- Where it fails, `buf` is MAP_FAILED. An `mmap` fixed there fails, and what it returns is `buf`, so
-- that the first test passes; the second passes only if `buf + size` is `buf`, which a size of 0
-- makes it. `munmap` of MAP_FAILED releases nothing.
map_buffer : Setup → ℕ → List Event → Option RingBuffer × List Event
unfolding unwind close_fd reserves
map_buffer s size es =
    if reserves s size
    then (if s.first_mmap
        then if s.second_mmap
          then close_fd s fresh reserved
          else undo (release mapping ∷ []) reserved
        else undo (release mapping ∷ []) reserved)
    else if size == 0
    then close_fd s fresh es
    else undo [] es
  where
    fresh : RingBuffer
    fresh = record { mem = replicate size 0; size = size; write_offset = 0; read_offset = 0 }

    reserved : List Event
    reserved = es ++ acquire mapping ∷ []

    undo : List Event → List Event → Option RingBuffer × List Event
    undo unmapped before =
        (none, before ++ unmapped ++ release descriptor ∷ unwind (mutex ∷ block ∷ []))

open_file : Setup → ℕ → List Event → Option RingBuffer × List Event
unfolding unwind map_buffer
open_file s size es =
    if s.shm_open
    then (if s.shm_unlink then if s.ftruncate then map_buffer s size opened else undo else undo)
    else (none, es ++ unwind (mutex ∷ block ∷ []))
  where
    opened : List Event
    opened = es ++ acquire descriptor ∷ []

    undo : Option RingBuffer × List Event
    undo = (none, opened ++ release descriptor ∷ unwind (mutex ∷ block ∷ []))

unfoldable pub ring_buffer_create : Setup → ℕ → Option RingBuffer × List Event
unfolding unwind open_file page_size
ring_buffer_create s size =
    if s.malloc
    then (if s.mutex_init
        then (if size == 0
            then (none, acquired ++ unwind (mutex ∷ block ∷ []))
            else open_file s (page_size size) acquired)
        else (none, acquire block ∷ unwind (block ∷ [])))
    else (none, [])
  where
    acquired : List Event
    acquired = acquire block ∷ acquire mutex ∷ []

same : Resource → Resource → Bool
same block block = true
same mutex mutex = true
same descriptor descriptor = true
same mapping mapping = true
same _ _ = false

drop_first : Resource → List Resource → List Resource
unfolding same
drop_first r [] = []
drop_first r (x ∷ xs) = if same r x then xs else x ∷ drop_first r xs

-- What is still held after a run of events, the latest first.
unfoldable pub outstanding : List Resource → List Event → List Resource
unfolding drop_first
outstanding held [] = held
outstanding held (acquire r ∷ es) = outstanding (r ∷ held) es
outstanding held (release r ∷ es) = outstanding (drop_first r held) es

-- Whether the calls before the first `mmap` succeed.
abbrev pub opens : Setup → (size : ℕ) → Bool
opens s size =
    s.malloc && s.mutex_init && not (size == 0) && s.shm_open && s.shm_unlink && s.ftruncate

-- Whether the rounded size wraps around to 0: the last 4095 numbers of 64 bits do.
abbrev pub wraps : ℕ → Bool
wraps size = leb (2 ^ 64 - 4095) size

-- Whether the ring is mapped. The size is doubled in 64 bits.
abbrev pub maps : Setup → (size : ℕ) → Bool
maps s size = s.reserve && s.first_mmap && s.second_mmap && not (page_size size * 2 % 2 ^ 64 == 0)

-- What a caller is left with: with a ring the block, the mutex and the mapping, or no mapping where
-- the size wraps around; on failure nothing, but for a failed `close`.
abbrev pub Outcome : Setup → ℕ → Option RingBuffer → List Resource → Type 0
Outcome s size none held =
    (held ≡ (if opens s size && maps s size then mapping ∷ [] else []))
    × ((opens s size && (maps s size || wraps size) && s.close) ≡ false)
Outcome s size (some r) held =
    (held ≡ (if wraps size then [] else mapping ∷ []) ++ mutex ∷ block ∷ [])
    × ((opens s size && (maps s size || wraps size) && s.close) ≡ true)
    × (r.size ≡ (if wraps size then 0 else (size + 4095) / 4096 * 4096))

-- A ring that was asked for within 2 ^ 61 bytes is valid and empty, and its size is the size asked
-- for, rounded up to a multiple of 4096, the page.
pub create-IsValid :
    (s : Setup) (size : ℕ) (rbuf : RingBuffer)
    → size ≤ 2 ^ 61
    → (ring_buffer_create s size).0 ≡ some rbuf
    → IsValid rbuf
      × (contents rbuf ≡ [])
      × (rbuf.size % 4096 ≡ 0)
      × (size ≤ rbuf.size)
      × (rbuf.size < size + 4096)
unfolding ring_buffer_create contents load_at
create-IsValid s size rbuf h e = ground (arith, length-replicate {A = ℕ} (page_size size) 0)
