-- ===== src/Emitter/Tests.antt =====
-- The theorem on the emitter at an emitter with one event, and runs of it.
use c_liber.Prelude.{false, ◌<◌, length, ◌≡◌, refl, true, some, [], ◌∷◌, pos}
use c_liber.Tst.{Key, nil, tst_search_r, insert_head_r, tst_insert}
use c_liber.Emitter.{Emitter, registered, ev_emitter_on, ev_emitter_once, ev_emitter_emit_f}
use c_liber.Emitter.Cells.{IsApart, Registers, ev_emitter_on-Registers}

abbrev data_key : Key
data_key = b'd' ∷ []

abbrev end_key : Key
end_key = b'e' ∷ []

abbrev empty : Emitter
empty = record {
  ev_cb_map = record { head = nil; key_num = pos 0 };
  cell = λ a. record { once = true; cb = 0 };
  next = 0;
}

empty-IsApart : IsApart empty
unfolding tst_search_r
empty-IsApart = record { apart = λ ev j a p q. absurd (cc); known = λ ev a p. absurd (cc) }

-- The callback 5 is registered for "e".
abbrev one_event : Emitter
one_event = (ev_emitter_on true 9 end_key 5 empty).2

one_event-IsApart : IsApart one_event
one_event-IsApart = (ev_emitter_on-Registers true 9 end_key 5 empty empty-IsApart).0

ev_emitter_on-Registers_example :
    let out = ev_emitter_on true 9 data_key 7 one_event in
    IsApart out.2
    × Registers data_key (record { once = false; cb = 7 }) one_event out
    × (true ≡ true → length data_key < 9 → out.0 ≡ true)
ev_emitter_on-Registers_example =
    ev_emitter_on-Registers true 9 data_key 7 one_event one_event-IsApart

-- A callback that is registered once is gone after the first event.
once_only :
    registered data_key (
      ev_emitter_emit_f
        (λ cb emitter. emitter)
        data_key
        (ev_emitter_once true 9 data_key 7 empty).2)
    ≡ some (record { once = true; cb = 0 })
unfolding ev_emitter_emit_f ev_emitter_once tst_insert insert_head_r tst_search_r
once_only = refl
