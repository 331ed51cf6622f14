-- ===== src/Io/Dump.antt =====
-- `fd_dump` of src/system/nx/io/io.c: a `select` loop that copies one descriptor to another through a
-- ring buffer. The kernel's answers of each round are given; the bytes that `read` took from `rfd` and
-- that `write` put out to `wfd` are recorded, and each call of `read` with the number of bytes it asked for.
pub mod Faithful
pub mod Stream
pub mod Tests
use c_liber.Prelude.{
  ℕ, Bool, true, false, not, ◌&&◌, ◌||◌, List, [], ◌∷◌, ◌++◌, Option, none, some, ◌==◌,
  if◌then◌else◌, length, ◌≤◌,
}
use c_liber.RingBuffer.{
  RingBuffer, ring_buffer_write_pos, ring_buffer_read_pos, ring_buffer_commit_write,
  ring_buffer_commit_read, ring_buffer_data_count, ring_buffer_free_space, store_at, load_at,
}
use c_liber.RingBuffer.Create.{Setup, ring_buffer_create}

-- The two names of one error number on Linux.
abbrev pub eagain : ℕ
eagain = 11

abbrev pub ewouldblock : ℕ
ewouldblock = 11

-- A number of bytes or an error number.
pub data Read : Type 0 where
  got : List ℕ → Read
  failed : ℕ → Read

pub data Write : Type 0 where
  took : ℕ → Write
  failed : ℕ → Write

-- What the kernel answers in one round: `select_fails` is the outcome of `select`, the next two are
-- the descriptors that it finds ready, and `read` and `write` are called only if the code does.
pub record Round : Type 0 where
  pub select_fails : Bool
  pub rfd_ready : Bool
  pub wfd_ready : Bool
  pub read : Read
  pub write : Write

pub record Dump : Type 0 where
  pub rbuf : RingBuffer
  pub eof : Bool
  pub input : List ℕ
  pub output : List ℕ
  pub reads : List (ℕ × Read)

-- The first argument of `finish_cb`, and the result of `fd_dump`: 0 or -1.
pub data Code : Type 0 where
  zero minus_one : Code

-- The calls of `finish_cb` are listed, oldest first.
pub data State : Type 0 where
  running : Dump → State
  ended : (result : Code) → (finish : List Code) → Dump → State

-- After the read half of a round: the write set, or the jump to `onerr`.
pub data Half : Type 0 where
  more : Dump → (wset : Bool) → Half
  onerr : (finish : List Code) → Dump → Half

-- `set_fd`: which descriptors the round waits for.
abbrev pub asks_read : Dump → Bool
asks_read d = not d.eof && not (ring_buffer_free_space d.rbuf == 0)

abbrev pub asks_write : Dump → Bool
asks_write d = not (ring_buffer_data_count d.rbuf == 0)

-- `errno != EWOULDBLOCK || errno != EAGAIN`
abbrev pub is_fatal : ℕ → Bool
is_fatal errno = not (errno == ewouldblock) || not (errno == eagain)

pub take_in : Dump → List ℕ → Dump
take_in d bs = record d {
  rbuf =
      ring_buffer_commit_write
        (record rbuf { mem = store_at rbuf.size (ring_buffer_write_pos rbuf) bs rbuf.mem })
        (length bs);
  input = d.input ++ bs;
}
  where
    open d use {rbuf}

after_read : Read → Bool → Dump → Half
unfolding take_in
after_read (got []) wset d = more (record d { eof = true }) wset
after_read (got (b ∷ bs)) wset d = more (take_in d (b ∷ bs)) true
after_read (failed errno) wset d = if is_fatal errno then onerr (minus_one ∷ []) d else more d wset

-- The call of `read` is recorded with its size, the latest call first.
abbrev pub ask : Read → Dump → Dump
ask r d = record d { reads = (ring_buffer_free_space d.rbuf, r) ∷ d.reads }

pub read_half : Round → Dump → Half
unfolding after_read
read_half k d =
    if asks_read d && k.rfd_ready
    then after_read k.read (asks_write d && k.wfd_ready) (ask k.read d)
    else more d (asks_write d && k.wfd_ready)

pub put_out : Dump → ℕ → Dump
put_out d n = record d {
  rbuf = ring_buffer_commit_read rbuf n;
  output = d.output ++ load_at rbuf.size rbuf.mem (ring_buffer_read_pos rbuf) n;
}
  where
    open d use {rbuf}

after_write : Write → Dump → Half
unfolding put_out
after_write (took n) d = more (put_out d n) false
after_write (failed errno) d = if is_fatal errno then onerr [] d else more d false

write_half : Round → Half → Half
unfolding after_write
write_half k (onerr finish d) = onerr finish d
write_half k (more d wset) = if wset && asks_write d then after_write k.write d else more d wset

-- The end of the round; `onerr` calls `finish_cb` with -1.
settle : Half → State
settle (onerr finish d) = ended minus_one (finish ++ minus_one ∷ []) d
settle (more d wset) =
    if d.eof && ring_buffer_data_count d.rbuf == 0 then ended zero (zero ∷ []) d else running d

unfoldable pub dump_round : Round → Dump → State
unfolding read_half write_half settle
dump_round k d =
    if k.select_fails
    then ended minus_one (minus_one ∷ []) d
    else settle (write_half k (read_half k d))

-- The loop, for the rounds that the kernel has answered so far.
unfoldable pub dump_loop : List Round → State → State
unfolding dump_round
dump_loop [] s = s
dump_loop (k ∷ ks) (ended result finish d) = ended result finish d
dump_loop (k ∷ ks) (running d) = dump_loop ks (dump_round k d)

-- The first state of the loop.
abbrev pub start : RingBuffer → Dump
start rbuf = record { rbuf = rbuf; eof = false; input = []; output = []; reads = [] }

-- Whether the two calls of `fcntl` behind the loop can put the flags of the descriptors back.
pub record Restore : Type 0 where
  pub rfd : Bool
  pub wfd : Bool

-- Behind the loop and behind `onerr`: the result is -1 where the flags cannot be put back, also after
-- `finish_cb` has been called with 0.
pub restore_flags : Restore → State → State
restore_flags r (running d) = running d
restore_flags r (ended zero finish d) =
    if r.rfd && r.wfd then ended zero finish d else ended minus_one finish d
restore_flags r (ended minus_one finish d) = ended minus_one finish d

-- Behind the ring's creation. `unblocked` says whether both descriptors could be made non-blocking. A
-- ring that cannot be made ends the call with no call of `finish_cb` (`none`).
dump_with : (unblocked : Bool) → List Round → Restore → Option RingBuffer → Option State
unfolding dump_loop restore_flags
dump_with unblocked ks r none = none
dump_with true ks r (some rbuf) = some (restore_flags r (dump_loop ks (running (start rbuf))))
dump_with false ks r (some rbuf) =
    some (restore_flags r (ended minus_one (minus_one ∷ []) (start rbuf)))

pub fd_dump : Setup → (unblocked : Bool) → List Round → Restore → Option State
unfolding dump_with
fd_dump s unblocked ks r = dump_with unblocked ks r (ring_buffer_create s 4096).0
