-- ===== src/EvLoop/EventSet.antt =====
-- `to_ep_events` and `to_custom_events` of src/fevent_loop/_ev_monitor_core/_epoll.c: between the
-- events of the library (src/fevent_loop/fevent.h) and those of Linux' epoll.
use c_liber.Prelude.{ℕ, ◌≡◌, refl, Bool, true, false, ◌&&◌, ◌||◌, if◌then◌else◌}
use c_liber.EvLoop.Bits.{bit, or_bits}

-- The numbers of the bits.
abbrev pub ev_read : ℕ
ev_read = 0

abbrev pub ev_write : ℕ
ev_write = 1

abbrev pub ev_err : ℕ
ev_err = 2

abbrev pub ev_async : ℕ
ev_async = 3

abbrev pub ev_ign : ℕ
ev_ign = 9

abbrev pub ev_fin : ℕ
ev_fin = 10

abbrev pub epollin : ℕ
epollin = 0

abbrev pub epollpri : ℕ
epollpri = 1

abbrev pub epollout : ℕ
epollout = 2

abbrev pub epollerr : ℕ
epollerr = 3

abbrev pub epollhup : ℕ
epollhup = 4

abbrev pub epolloneshot : ℕ
epolloneshot = 30

-- `if(b) events |= flag;`
abbrev or_if : Bool → (flag : ℕ) → ℕ → ℕ
or_if b flag events = if b then or_bits 32 events flag else events

unfoldable pub to_ep_events : ℕ → ℕ
to_ep_events custom =
    or_bits 32
      (or_if (bit ev_err custom) 2 (or_if (bit ev_write custom) 4 (or_if (bit ev_read custom) 1 0)))
      1073741824

unfoldable pub to_custom_events : (ep_events old_cevts : ℕ) → ℕ
to_custom_events ep_events old_cevts = or_if (bit epollpri ep_events) 4 (
    or_if (bit ev_write old_cevts && (bit epollout ep_events || bit epollerr ep_events)) 2 (
      or_if
        (bit ev_read old_cevts
          && (bit epollin ep_events || bit epollhup ep_events || bit epollerr ep_events))
        1 0))

asked : (r w e : Bool) → ℕ
asked r w e = or_bits 32 (or_if e 2 (or_if w 4 (or_if r 1 0))) 1073741824

asked-bits :
    (r w e : Bool)
    → (bit epollin (asked r w e) ≡ r)
      × (bit epollout (asked r w e) ≡ w)
      × (bit epollpri (asked r w e) ≡ e)
      × (bit epolloneshot (asked r w e) ≡ true)
unfolding asked bit or_bits
asked-bits true true true = (refl, refl, refl, refl)
asked-bits true true false = (refl, refl, refl, refl)
asked-bits true false true = (refl, refl, refl, refl)
asked-bits true false false = (refl, refl, refl, refl)
asked-bits false true true = (refl, refl, refl, refl)
asked-bits false true false = (refl, refl, refl, refl)
asked-bits false false true = (refl, refl, refl, refl)
asked-bits false false false = (refl, refl, refl, refl)

reported : (r w e : Bool) → ℕ
reported r w e = or_if e 4 (or_if w 2 (or_if r 1 0))

reported-bits :
    (r w e : Bool)
    → (bit ev_read (reported r w e) ≡ r)
      × (bit ev_write (reported r w e) ≡ w)
      × (bit ev_err (reported r w e) ≡ e)
unfolding reported bit or_bits
reported-bits true true true = (refl, refl, refl)
reported-bits true true false = (refl, refl, refl)
reported-bits true false true = (refl, refl, refl)
reported-bits true false false = (refl, refl, refl)
reported-bits false true true = (refl, refl, refl)
reported-bits false true false = (refl, refl, refl)
reported-bits false false true = (refl, refl, refl)
reported-bits false false false = (refl, refl, refl)

-- What epoll is asked for: to report input, output and urgent data exactly if the events ask for
-- reading, writing and errors, once; so `epoll_add` and `epoll_mod` never see a 0 here.
pub to_ep_events-bits :
    (custom : ℕ)
    → (bit epollin (to_ep_events custom) ≡ bit ev_read custom)
      × (bit epollout (to_ep_events custom) ≡ bit ev_write custom)
      × (bit epollpri (to_ep_events custom) ≡ bit ev_err custom)
      × (bit epolloneshot (to_ep_events custom) ≡ true)
unfolding to_ep_events asked
to_ep_events-bits custom = asked-bits (bit ev_read custom) (bit ev_write custom) (bit ev_err custom)

-- What is reported: reading if it was asked for and there is input, a hang-up or an error, writing if
-- it was asked for and there is room or an error, and urgent data whether it was asked for or not.
pub to_custom_events-bits :
    (ep_events old_cevts : ℕ)
    → (bit ev_read (to_custom_events ep_events old_cevts) ≡ (
        bit ev_read old_cevts
        && (bit epollin ep_events || bit epollhup ep_events || bit epollerr ep_events)))
      × (bit ev_write (to_custom_events ep_events old_cevts)
          ≡ (bit ev_write old_cevts && (bit epollout ep_events || bit epollerr ep_events)))
      × (bit ev_err (to_custom_events ep_events old_cevts) ≡ bit epollpri ep_events)
unfolding to_custom_events reported
to_custom_events-bits ep_events old_cevts =
    reported-bits
      (bit ev_read old_cevts
        && (bit epollin ep_events || bit epollhup ep_events || bit epollerr ep_events))
      (bit ev_write old_cevts && (bit epollout ep_events || bit epollerr ep_events))
      (bit epollpri ep_events)
