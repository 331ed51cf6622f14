-- ===== src/Io/Dump/Stream.antt =====
-- `fd_dump` of src/system/nx/io/io.c copies the stream: nothing is lost, repeated or reordered.
use c_liber.Prelude.{
  ℕ, ◌≤◌, ◌<◌, ◌≡◌, refl, ap, sym, ◌∙◌, Bool, true, false, List, [], ◌∷◌, ◌++◌, Option, none, some,
  length, arith, ◌≢◌, inl, inr, ◌⊎◌, ◌&&◌, Bool-cases, append-nil,
}
use mathlib.Core.Path.{subst}
use mathlib.Core.Option.{some-injective}
use c_liber.RingBuffer.{ring_buffer_free_space, ring_buffer_data_count, RingBuffer}
use c_liber.RingBuffer.Create.{Setup, ring_buffer_create, create-IsValid}
use c_liber.RingBuffer.Laws.{contents, data_count-free_space}
use c_liber.Io.Dump.Faithful.{IsFaithful, answered_zero, take_in-IsFaithful, put_out-IsFaithful}
use c_liber.Io.Dump.{
  Read, got, failed, Write, took, Round, Dump, zero, minus_one, State, running, ended, Half, more,
  onerr, take_in, after_read, read_half, after_write, write_half, settle, dump_round, dump_loop,
  start, dump_with, asks_read, asks_write, fd_dump, ask, Restore, restore_flags,
}

-- What the kernel promises: `read` returns at most what was asked for, and `write` takes at most
-- what it was given.
abbrev pub ReadFits : Read → Dump → Type 0
ReadFits (got bs) d = length bs ≤ ring_buffer_free_space d.rbuf
ReadFits (failed errno) d = Unit

abbrev pub WriteFits : Write → Half → Type 0
WriteFits w (onerr finish d) = Unit
WriteFits (took n) (more d wset) = n ≤ ring_buffer_data_count d.rbuf
WriteFits (failed errno) (more d wset) = Unit

abbrev pub Fits : Round → Dump → Type 0
Fits k d = ReadFits k.read d × WriteFits k.write (read_half k d)

-- Along the whole run.
abbrev pub AllFit : List Round → State → Type 0
AllFit [] s = Unit
AllFit (k ∷ ks) (ended result finish d) = Unit
AllFit (k ∷ ks) (running d) = Fits k d × AllFit ks (dump_round k d)

-- The whole stream is copied: a call of `read` that asked for some bytes answered 0, and all that
-- was read has been written.
abbrev pub IsDrained : Dump → Type 0
IsDrained d = (d.output ≡ d.input) × (answered_zero d.reads ≡ true)

-- What holds of each state of the loop: the stream is copied so far, the loop ends well only with the
-- stream drained and one call of `finish_cb`, and badly with -1 in each call of it.
abbrev pub Streams : State → Type 0
Streams (running d) = IsFaithful d
Streams (ended zero finish d) = IsFaithful d × IsDrained d × (finish ≡ zero ∷ [])
Streams (ended minus_one finish d) =
    IsFaithful d × ((finish ≡ minus_one ∷ []) ⊎ (finish ≡ minus_one ∷ minus_one ∷ []))

-- What holds of the call: as of the loop, but for the flags that cannot be put back behind it.
abbrev pub Finishes : Restore → State → Type 0
Finishes r (running d) = IsFaithful d
Finishes r (ended zero finish d) =
    IsFaithful d × IsDrained d × (finish ≡ zero ∷ []) × (r.rfd ≡ true) × (r.wfd ≡ true)
Finishes r (ended minus_one finish d) =
    IsFaithful d
    × ((finish ≡ minus_one ∷ [])
        ⊎ (finish ≡ minus_one ∷ minus_one ∷ [])
        ⊎ (IsDrained d × (finish ≡ zero ∷ []) × (r.rfd && r.wfd ≡ false)))

abbrev HalfStreams : Half → Type 0
HalfStreams (more d wset) = IsFaithful d
HalfStreams (onerr finish d) = IsFaithful d × ((finish ≡ []) ⊎ (finish ≡ minus_one ∷ []))

-- With room in the ring, the call of `read` keeps the stream.
after_read-HalfStreams :
    (r : Read) (wset : Bool) (d : Dump)
    → IsFaithful d
    → 0 < ring_buffer_free_space d.rbuf
    → ReadFits r d
    → HalfStreams (after_read r wset (ask r d))
unfolding after_read take_in
after_read-HalfStreams (got []) wset d f room h = record {
  valid = f.valid;
  copied = f.copied;
  told = refl;
  asked = (room, f.asked);
}
after_read-HalfStreams (got (b ∷ bs)) wset d f room h =
    let g = take_in-IsFaithful d (b ∷ bs) f h in
    record { valid = g.valid; copied = g.copied; told = f.told; asked = (room, f.asked) }
after_read-HalfStreams (failed errno) wset d f room h =
    let g : IsFaithful (ask (failed errno) d) = record {
      valid = f.valid;
      copied = f.copied;
      told = f.told;
      asked = (room, f.asked);
    } in
    ground arith

read_half-HalfStreams :
    (k : Round) (d : Dump) → IsFaithful d → ReadFits k.read d → HalfStreams (read_half k d)
unfolding read_half
read_half-HalfStreams k d f h =
    let after : 0 < ring_buffer_free_space d.rbuf
        → HalfStreams (after_read k.read (asks_write d && k.wfd_ready) (ask k.read d)) =
      λ room. after_read-HalfStreams k.read (asks_write d && k.wfd_ready) d f room h in
    ground arith

after_write-HalfStreams :
    (w : Write) (wset : Bool) (d : Dump)
    → IsFaithful d
    → WriteFits w (more d wset)
    → HalfStreams (after_write w d)
unfolding after_write
after_write-HalfStreams (took n) wset d f h = put_out-IsFaithful d n f h
after_write-HalfStreams (failed errno) wset d f h = ground arith

write_half-HalfStreams :
    (k : Round) (h : Half) → HalfStreams h → WriteFits k.write h → HalfStreams (write_half k h)
unfolding write_half
write_half-HalfStreams k (onerr finish d) s w = s
write_half-HalfStreams k (more d wset) s w = ground (arith, after_write-HalfStreams k.write wset d)

nil_of_length_zero : (xs : List ℕ) → length xs ≡ 0 → xs ≡ []
nil_of_length_zero [] h = refl
nil_of_length_zero (x ∷ xs) h = absurd (omega arith)

-- An empty ring means that all of the input has been put out.
output-eq-input : (d : Dump) → IsFaithful d → ring_buffer_data_count d.rbuf ≡ 0 → d.output ≡ d.input
output-eq-input d f h =
    let empty =
      nil_of_length_zero (contents d.rbuf) (omega (arith, data_count-free_space f.valid)) in
    sym (f.copied ∙ ap (◌++◌ d.output) empty ∙ append-nil d.output)

settle-Streams : (h : Half) → HalfStreams h → Streams (settle h)
unfolding settle
settle-Streams (onerr finish d) (f, which) = (f, ground arith)
settle-Streams (more d wset) f = ground (arith, output-eq-input d f, f.told)

dump_round-Streams : (k : Round) (d : Dump) → IsFaithful d → Fits k d → Streams (dump_round k d)
unfolding dump_round
dump_round-Streams k d f (r, w) = elim (Bool-cases k.select_fails) [
  | inl e ↦ rw e (f, inl refl)
  | inr e ↦ rw e (
      settle-Streams _ (write_half-HalfStreams k (read_half k d) (read_half-HalfStreams k d f r) w))
]

-- Whatever the kernel answers within its promises, each round keeps the stream: what was read from
-- `rfd` is what was written to `wfd` followed by what the ring holds, and every call of `read` asked
-- for at least one byte. The loop ends well only when a call of `read` has answered 0, which is the
-- end of the file, everything read has been written, and `finish_cb` has been called once, with 0.
pub dump_loop-Streams :
    (ks : List Round) (s : State) → Streams s → AllFit ks s → Streams (dump_loop ks s)
unfolding dump_loop
dump_loop-Streams [] s h fit = h
dump_loop-Streams (k ∷ ks) (ended result finish d) h fit = h
dump_loop-Streams (k ∷ ks) (running d) h (fit, rest) =
    dump_loop-Streams ks (dump_round k d) (dump_round-Streams k d h fit) rest

start-IsFaithful :
    (s : Setup) (rbuf : RingBuffer)
    → (ring_buffer_create s 4096).0 ≡ some rbuf
    → IsFaithful (start rbuf)
start-IsFaithful s rbuf e =
    let made = create-IsValid s 4096 rbuf (omega arith) e in
    record { valid = made.0; copied = sym made.1; told = refl; asked = tt }

restore_flags-Finishes : (r : Restore) (st : State) → Streams st → Finishes r (restore_flags r st)
unfolding restore_flags
restore_flags-Finishes r (running d) h = h
restore_flags-Finishes r (ended zero finish d) h = ground arith
restore_flags-Finishes r (ended minus_one finish d) h = ground arith

dump_with-Finishes :
    (unblocked : Bool) (ks : List Round) (r : Restore) (o : Option RingBuffer) (st : State)
    → ((rbuf : RingBuffer) → o ≡ some rbuf → IsFaithful (start rbuf))
    → ((rbuf : RingBuffer) → o ≡ some rbuf → AllFit ks (running (start rbuf)))
    → dump_with unblocked ks r o ≡ some st
    → Finishes r st
unfolding dump_with
dump_with-Finishes unblocked ks r none st begun fit e = absurd (cc)
dump_with-Finishes true ks r (some rbuf) st begun fit e =
    subst (Finishes r) (some-injective _ _ e) (
      restore_flags-Finishes r _
        (dump_loop-Streams ks (running (start rbuf)) (begun rbuf refl) (fit rbuf refl)))
dump_with-Finishes false ks r (some rbuf) st begun fit e =
    subst (Finishes r) (some-injective _ _ e) (
      restore_flags-Finishes r (ended minus_one (minus_one ∷ []) (start rbuf))
        (begun rbuf refl, inl refl))

-- Whatever the kernel answers within its promises, a call of `fd_dump` that has its ring copies the
-- stream: at any time what was read from `rfd` is what was written to `wfd` followed by what the ring
-- holds, and every call of `read` asked for at least one byte. It returns 0 only when a call of `read`
-- has answered 0, all that was read has been written, `finish_cb` has been called once, with 0, and
-- the flags of both descriptors have been put back. It returns -1 after one or two calls of
-- `finish_cb` with -1, or, where the stream is drained but the flags of a descriptor cannot be put
-- back, after one call of it with 0.
pub fd_dump-Finishes :
    (s : Setup) (unblocked : Bool) (ks : List Round) (r : Restore) (st : State)
    → ((rbuf : RingBuffer)
        → (ring_buffer_create s 4096).0 ≡ some rbuf
        → AllFit ks (running (start rbuf)))
    → fd_dump s unblocked ks r ≡ some st
    → Finishes r st
unfolding fd_dump
fd_dump-Finishes s unblocked ks r st fit e =
    dump_with-Finishes unblocked ks r (ring_buffer_create s 4096).0 st (start-IsFaithful s) fit e

-- A round that reads and gets an error other than EAGAIN ends the call with -1, and `finish_cb` has
-- been called twice.
pub fatal_read_finishes_twice :
    (k : Round) (d : Dump) (errno : ℕ)
    → k.select_fails ≡ false
    → k.rfd_ready ≡ true
    → asks_read d ≡ true
    → k.read ≡ failed errno
    → errno ≢ 11
    → dump_round k d ≡ ended minus_one (minus_one ∷ minus_one ∷ []) (ask k.read d)
unfolding dump_round read_half write_half settle after_read
fatal_read_finishes_twice k d errno ok ready asks fails fatal = ground arith
