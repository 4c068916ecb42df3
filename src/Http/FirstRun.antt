-- ===== src/Http/FirstRun.antt =====
-- The first run of a coroutine handler, side by side with the plain loop.
use sylar_framework.Prelude.{ℕ, ◌≡◌, refl, Bool, true, false, ◌||◌, ◌⊎◌, inl, inr, some, Bool-cases}
use sylar_framework.Http.Connection.{
  Io, bytes, nothing, try_again, failed, Pending, Phase, reading, writing, closed, on_readable,
  on_writable,
}
use sylar_framework.Http.Worker.{
  input, output, modify, remove, Watch, Served, Event, object, watch_read, watch_write, handle_bits,
  event_loop, at_head, resume_read, resume_write, event_loop_with_co, served_or,
}

-- The registration that a phase is meant to have.
abbrev pub registered : Phase → Watch
registered reading = modify input
registered (writing p) = modify output
registered closed = remove

-- epoll reports no readiness but that which the descriptor is registered for.
abbrev pub Reported : Event → Watch → Type 0
Reported ev w =
    (ev.readable ≡ true → w.interest ≡ some input) × (ev.writable ≡ true → w.interest ≡ some output)

-- The two loops agree, but where a `send` took bytes and the descriptor is not registered again.
abbrev pub SameButSend : Served → Served → Bool → Io → Type 0
SameButSend t u r io =
    (t.connection ≡ u.connection) × ((t ≡ u) ⊎ ((n : ℕ) × (io ≡ bytes n) × (r ≡ false)))

-- On an agreeing connection and one object.
read_run :
    (reply : ℕ → Pending) (r : Bool) (a : ℕ) (o : Pending) (d : Served) (io : Io)
    → SameButSend
        (served_or d (
          resume_read reply
            (at_head (some o))
            (record {
              connection = record { phase = reading; allocated = a };
              watch = record { interest = some input; armed = false };
            })
            io))
        (record {
          connection = on_readable (record { phase = reading; allocated = a }) reply io;
          watch = watch_read io;
        })
        r
        io
unfolding resume_read on_readable watch_read
read_run reply r a o d (bytes n) = (refl, inl refl)
read_run reply r a o d nothing = (refl, inl refl)
read_run reply r a o d try_again = (refl, inl refl)
read_run reply r a o d failed = (refl, inl refl)

write_run :
    (r : Bool) (a : ℕ) (p : Pending) (d : Served) (io : Io)
    → r ≡ false
    → SameButSend
        (served_or d (
          resume_write
            (at_head (some p))
            (record {
              connection = record { phase = writing p; allocated = a };
              watch = record { interest = some output; armed = false };
            })
            io))
        (record {
          connection = on_writable (record { phase = writing p; allocated = a }) p io;
          watch = watch_write p io;
        })
        r
        io
unfolding resume_write on_writable watch_write
write_run r a p d (bytes n) e = (refl, inr (n, refl, e))
write_run r a p d nothing z = elim (Bool-cases p.keep_alive) [
  | inl e ↦ rw e (refl, inl refl)
  | inr e ↦ rw e (refl, inl refl)
]
write_run r a p d try_again e = (refl, inl refl)
write_run r a p d failed e = (refl, inl refl)

-- `event_loop` and `event_loop_with_co` on the phases, when the readable bit is set, and when only
-- the writable one is.
readable_run :
    (reply : ℕ → Pending) (r : Bool) (ph : Phase) (a : ℕ) (d : Served) (io : Io)
    → (registered ph).interest ≡ some input
    → SameButSend
        (served_or d (
          resume_read reply
            (at_head (some (object ph)))
            (record {
              connection = record { phase = ph; allocated = a };
              watch = record (registered ph) { armed = false };
            })
            io))
        (record {
          connection = on_readable (record { phase = ph; allocated = a }) reply io;
          watch = watch_read io;
        })
        r
        io
readable_run reply r reading a d io h = read_run reply r a (object reading) d io
readable_run reply r (writing p) a d io h = cc h
readable_run reply r closed a d io h = cc h

writable_run :
    (r : Bool) (ph : Phase) (a : ℕ) (d : Served) (io : Io)
    → r ≡ false
    → (registered ph).interest ≡ some output
    → SameButSend
        (served_or d (
          resume_write
            (at_head (some (object ph)))
            (record {
              connection = record { phase = ph; allocated = a };
              watch = record (registered ph) { armed = false };
            })
            io))
        (record {
          connection = on_writable (record { phase = ph; allocated = a }) (object ph) io;
          watch = watch_write (object ph) io;
        })
        r
        io
writable_run r reading a d io e h = cc h
writable_run r (writing p) a d io e h = write_run r a p d io e
writable_run r closed a d io e h = cc h

-- On a connection that is registered as its phase asks, and an event that epoll reports for it, the
-- first run of a coroutine leaves the connection as the plain loop does, and what epoll waits for
-- too, but where `send` took bytes.
pub event_loop_with_co-event_loop :
    (reply : ℕ → Pending) (ev : Event) (ph : Phase) (a : ℕ) (d : Served) (io : Io)
    → Reported ev (registered ph)
    → SameButSend
        (served_or d (
          event_loop_with_co reply ev
            (record { connection = record { phase = ph; allocated = a }; watch = registered ph })
            io))
        (event_loop reply ev
          (record { connection = record { phase = ph; allocated = a }; watch = registered ph })
          io)
        ev.readable
        io
unfolding event_loop_with_co event_loop handle_bits
event_loop_with_co-event_loop reply ev ph a d io h = elim (Bool-cases (ev.hang_up || ev.error)) [
  | inl e ↦ rw e (refl, inl refl)
  | inr e ↦ elim (Bool-cases ev.readable) [
    | inl f ↦ rw (e, f) (readable_run reply true ph a d io (h.0 f))
    | inr f ↦ elim (Bool-cases ev.writable) [
      | inl g ↦ rw (e, f, g) (writable_run false ph a d io refl (h.1 g))
      | inr g ↦ rw (e, f, g) (refl, inl refl)
    ]
  ]
]
