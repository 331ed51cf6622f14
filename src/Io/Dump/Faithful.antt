-- ===== src/Io/Dump/Faithful.antt =====
-- What holds between the rounds of `fd_dump` of src/system/nx/io/io.c: the stream is copied so far.
use c_liber.Prelude.{
  ℕ, ◌≤◌, ◌<◌, ◌≡◌, ap, ap₂, sym, ◌∙◌, Bool, true, false, List, [], ◌∷◌, ◌++◌, length, arith,
  append_assoc, take-append-drop, take, drop,
}
use c_liber.RingBuffer.{ring_buffer_free_space, ring_buffer_data_count}
use c_liber.RingBuffer.Laws.{
  IsValid, contents, data_count-free_space, contents-written, contents-commit_read,
  load_at-read_pos,
}
use c_liber.Io.Dump.{Read, got, failed, Dump, take_in, put_out}

-- Whether a call of `read` has answered 0.
abbrev pub answered_zero : List (ℕ × Read) → Bool
answered_zero [] = false
answered_zero ((n, got []) ∷ rs) = true
answered_zero ((n, got (b ∷ bs)) ∷ rs) = answered_zero rs
answered_zero ((n, failed errno) ∷ rs) = answered_zero rs

-- Every call of `read` asked for at least one byte, so that an answer of 0 is the end of the file.
abbrev pub AskForSome : List (ℕ × Read) → Type 0
AskForSome [] = Unit
AskForSome ((n, r) ∷ rs) = (0 < n) × AskForSome rs

-- What was read is what was written and then what the ring holds, and `eof` is set exactly if a call
-- of `read` that asked for some bytes answered 0.
pub record IsFaithful (d : Dump) : Type 0 where
  pub valid : IsValid d.rbuf
  pub copied : d.input ≡ d.output ++ contents d.rbuf
  pub told : d.eof ≡ answered_zero d.reads
  pub asked : AskForSome d.reads

pub take_in-IsFaithful :
    (d : Dump) (bs : List ℕ)
    → IsFaithful d
    → length bs ≤ ring_buffer_free_space d.rbuf
    → IsFaithful (take_in d bs)
unfolding take_in
take_in-IsFaithful d bs f h =
    let (valid, appended) = contents-written f.valid bs h in
    record {
      valid = valid;
      copied =
          ap (λ w. w ++ bs) f.copied
          ∙ append_assoc d.output (contents d.rbuf) bs
          ∙ ap (◌++◌ d.output) (sym appended);
      told = f.told;
      asked = f.asked;
    }

pub put_out-IsFaithful :
    (d : Dump) (n : ℕ) → IsFaithful d → n ≤ ring_buffer_data_count d.rbuf → IsFaithful (put_out d n)
unfolding put_out
put_out-IsFaithful d n f h =
    let le : n ≤ length (contents d.rbuf) = omega (arith, data_count-free_space f.valid) in
    let (valid, dropped) = contents-commit_read f.valid n le in
    record {
      valid = valid;
      copied =
          f.copied
          ∙ ap (◌++◌ d.output) (sym (take-append-drop n (contents d.rbuf)))
          ∙ sym (append_assoc d.output (take n (contents d.rbuf)) (drop n (contents d.rbuf)))
          ∙ ap₂ (λ u w. (d.output ++ u) ++ w) (sym (load_at-read_pos f.valid n le)) (sym dropped);
      told = f.told;
      asked = f.asked;
    }
