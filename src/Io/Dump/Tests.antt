-- ===== src/Io/Dump/Tests.antt =====
-- The theorems on `fd_dump` at a small ring.
use c_liber.Prelude.{◌≡◌, refl, true, false, List, [], ◌∷◌, some, arith}
use c_liber.RingBuffer.{
  RingBuffer, ring_buffer_free_space, load_at, store_at, ring_buffer_commit_write,
  ring_buffer_commit_read, ring_buffer_data_count, ring_buffer_read_pos, ring_buffer_write_pos,
}
use c_liber.RingBuffer.Laws.{contents}
use c_liber.RingBuffer.Tests.{four, four-IsValid, all_well, page}
use c_liber.RingBuffer.Create.{ring_buffer_create}
use mathlib.Core.Path.{subst}
use mathlib.Core.Option.{some-injective}
use c_liber.Io.Dump.{
  got, failed, took, Round, Dump, zero, State, running, ended, dump_loop, start, fd_dump, Restore,
  restore_flags,
}
use c_liber.Io.Dump.Faithful.{IsFaithful}
use c_liber.Io.Dump.Stream.{AllFit, Streams, dump_loop-Streams, fd_dump-Finishes, Finishes}

abbrev begun : Dump
begun = record {
  rbuf = four;
  eof = false;
  input = 1 ∷ 9 ∷ 8 ∷ [];
  output = 1 ∷ [];
  reads = (4, got (1 ∷ 9 ∷ 8 ∷ [])) ∷ [];
}

-- One byte comes in and two go out, then the end of the file, then the last byte goes out.
abbrev rounds : List Round
rounds =
    record {
      select_fails = false;
      rfd_ready = true;
      wfd_ready = true;
      read = got (7 ∷ []);
      write = took 2;
    }
    ∷ record {
      select_fails = false;
      rfd_ready = true;
      wfd_ready = false;
      read = got [];
      write = took 0;
    }
    ∷ record {
      select_fails = false;
      rfd_ready = true;
      wfd_ready = true;
      read = got [];
      write = took 1;
    }
    ∷ []

-- Two bytes come in and one goes out, then the end of the file, then the last byte goes out.
abbrev rounds_of_page : List Round
rounds_of_page =
    record {
      select_fails = false;
      rfd_ready = true;
      wfd_ready = true;
      read = got (7 ∷ 6 ∷ []);
      write = took 1;
    }
    ∷ record {
      select_fails = false;
      rfd_ready = true;
      wfd_ready = true;
      read = got [];
      write = took 1;
    }
    ∷ []

abbrev broken : Round
broken = record {
  select_fails = false;
  rfd_ready = true;
  wfd_ready = true;
  read = failed 5;
  write = took 0;
}

-- The loop ends with 0, everything read has been written, and one call of `finish_cb`.
abbrev finished : Dump
finished = record {
  rbuf = record { mem = 8 ∷ 7 ∷ 0 ∷ 9 ∷ []; size = 4; write_offset = 2; read_offset = 2 };
  eof = true;
  input = 1 ∷ 9 ∷ 8 ∷ 7 ∷ [];
  output = 1 ∷ 9 ∷ 8 ∷ 7 ∷ [];
  reads = (3, got []) ∷ (2, got (7 ∷ [])) ∷ (4, got (1 ∷ 9 ∷ 8 ∷ [])) ∷ [];
}

rounds_end : dump_loop rounds (running begun) ≡ ended zero (zero ∷ []) finished
unfolding dump_loop store_at load_at ring_buffer_commit_write ring_buffer_commit_read
    ring_buffer_data_count ring_buffer_free_space ring_buffer_read_pos ring_buffer_write_pos
rounds_end = refl

begun-IsFaithful : IsFaithful begun
unfolding contents load_at
begun-IsFaithful = record {
  valid = four-IsValid;
  copied = refl;
  told = refl;
  asked = (omega arith, tt);
}

rounds_fit : AllFit rounds (running begun)
unfolding dump_loop store_at load_at ring_buffer_commit_write ring_buffer_commit_read
    ring_buffer_data_count ring_buffer_free_space ring_buffer_read_pos ring_buffer_write_pos
rounds_fit = omega arith

dump_loop-Streams_example : Streams (dump_loop rounds (running begun))
dump_loop-Streams_example = dump_loop-Streams rounds (running begun) begun-IsFaithful rounds_fit

page_rounds_fit : AllFit rounds_of_page (running (start page))
unfolding dump_loop store_at load_at ring_buffer_commit_write ring_buffer_commit_read
    ring_buffer_data_count ring_buffer_free_space ring_buffer_read_pos ring_buffer_write_pos
page_rounds_fit = omega arith

page_made : (rbuf : RingBuffer) → (ring_buffer_create all_well 4096).0 ≡ some rbuf → page ≡ rbuf
unfolding ring_buffer_create
page_made rbuf e = some-injective _ _ e

abbrev restored : Restore
restored = record { rfd = true; wfd = true }

abbrev page_end : State
page_end = restore_flags restored (dump_loop rounds_of_page (running (start page)))

page_run : fd_dump all_well true rounds_of_page restored ≡ some page_end
unfolding fd_dump ring_buffer_create
page_run = refl

fd_dump-Finishes_example : Finishes restored page_end
fd_dump-Finishes_example =
    fd_dump-Finishes all_well true rounds_of_page restored page_end
      (λ rbuf e.
        subst (λ r. AllFit rounds_of_page (running (start r))) (page_made rbuf e) page_rounds_fit)
      page_run
