-- ===== src/Http/Worker.antt =====
-- src/http_server.cc: `EventLoop` and `EventLoopWithCo` on the events of one connection, with the calls
-- of `ControlEpollEvent`, and the handlers that run as coroutines. The object that an event points to
-- is the one that the connection is registered with.
use sylar_framework.Prelude.{
  ℕ, ◌+◌, ◌-◌, suc, Bool, true, false, ◌||◌, List, [], ◌∷◌, Option, none, some, if◌then◌else◌,
}
use sylar_framework.Http.Connection.{
  Io, bytes, nothing, try_again, failed, Pending, Phase, reading, writing, closed, Connection, shut,
  on_readable, on_writable,
}

pub data Interest : Type 0 where
  input output : Interest

-- What epoll has for the descriptor. `armed` says that since its last event the descriptor has been
-- registered once more, or found not ready: the descriptors are edge triggered, and the next event
-- is waited for.
pub record Watch : Type 0 where
  pub interest : Option Interest
  pub armed : Bool

pub record Served : Type 0 where
  pub connection : Connection
  pub watch : Watch

-- The bits of `epoll_event::events`.
pub record Event : Type 0 where
  pub hang_up : Bool
  pub error : Bool
  pub readable : Bool
  pub writable : Bool

-- `ControlEpollEvent` with `EPOLL_CTL_MOD` and with `EPOLL_CTL_DEL`.
abbrev pub modify : Interest → Watch
modify i = record { interest = some i; armed = true }

abbrev pub remove : Watch
remove = record { interest = none; armed = false }

-- The event that is handled is the last one.
abbrev taken : Watch → Watch
taken w = record w { armed = false }

-- Not ready: the next event comes when it is.
abbrev waited : Watch → Watch
waited w = record w { armed = true }

-- The object behind `data.ptr`: an answer, or a new `EventData` for a request.
abbrev pub object : Phase → Pending
object reading = record { cursor = 0; length = 0; keep_alive = true }
object (writing p) = p
object closed = record { cursor = 0; length = 0; keep_alive = true }

unfoldable pub watch_read : Io → Watch
watch_read (bytes n) = modify output
watch_read nothing = remove
watch_read try_again = modify input
watch_read failed = remove

unfoldable pub watch_write : Pending → Io → Watch
watch_write p (bytes n) = modify output
watch_write p nothing = if p.keep_alive then modify input else remove
watch_write p try_again = modify output
watch_write p failed = remove

-- `HandleEpollEvent`: `EPOLLIN` goes first.
unfoldable pub handle_bits : (ℕ → Pending) → Event → Served → Io → Served
unfolding on_readable on_writable watch_read watch_write
handle_bits reply ev s io =
    if ev.readable
    then record { connection = on_readable s.connection reply io; watch = watch_read io }
    else record {
      connection = on_writable s.connection (object s.connection.phase) io;
      watch = watch_write (object s.connection.phase) io;
    }

-- `ControlEpollEvent(DEL)`, `close` and `delete`.
abbrev pub drop_client : Served → Served
drop_client s = record { connection = shut s.connection; watch = remove }

-- The body of the loop over the events of `EventLoop`.
unfoldable pub event_loop : (ℕ → Pending) → Event → Served → Io → Served
unfolding handle_bits
event_loop reply ev s io =
    if ev.hang_up || ev.error
    then drop_client s
    else if ev.readable || ev.writable
    then handle_bits reply ev s io
    else drop_client s

-- What the frame of a coroutine holds when it yields: its object, or that it stands behind the test
-- at the head of the loop, which found a null pointer.
pub data Frame : Type 0 where
  at_head : Option Pending → Frame
  behind_test : Frame

-- One run of a coroutine, from where it was resumed to where it yields.
pub data Run : Type 0 where
  yields : Frame → Served → Run
  null_pointer : Run
  no_coroutine : Served → Run

-- `HandleReadEvent` from the head of its loop. `request` stays where no branch sets it to null.
unfoldable pub resume_read : (ℕ → Pending) → Frame → Served → Io → Run
unfolding on_readable
resume_read reply behind_test s io = null_pointer
resume_read reply (at_head none) s io = yields behind_test s
resume_read reply (at_head (some o)) s (bytes n) =
    yields (at_head (some o))
      (record { connection = on_readable s.connection reply (bytes n); watch = modify output })
resume_read reply (at_head (some o)) s nothing = yields (at_head none) (drop_client s)
resume_read reply (at_head (some o)) s try_again =
    yields (at_head (some o)) (record s { watch = waited s.watch })
resume_read reply (at_head (some o)) s failed = yields (at_head none) (drop_client s)

-- `HandleWriteEvent` from the head of its loop.
unfoldable pub resume_write : Frame → Served → Io → Run
resume_write behind_test s io = null_pointer
resume_write (at_head none) s io = yields behind_test s
resume_write (at_head (some p)) s (bytes n) =
    let q : Pending = record p { cursor = p.cursor + n; length = p.length - n } in
    yields (at_head (some q)) (record s { connection = record s.connection { phase = writing q } })
resume_write (at_head (some p)) s nothing =
    if p.keep_alive
    then yields (at_head none) (record {
      connection = record { phase = reading; allocated = suc (s.connection.allocated - 1) };
      watch = modify input;
    })
    else yields (at_head none) (drop_client s)
resume_write (at_head (some p)) s try_again =
    yields (at_head (some p)) (record s { watch = waited s.watch })
resume_write (at_head (some p)) s failed = yields (at_head none) (drop_client s)

abbrev pub served_or : Served → Run → Served
served_or d (yields f s) = s
served_or d null_pointer = d
served_or d (no_coroutine s) = s

-- The body of the loop over the events of `EventLoopWithCo`: a coroutine is made for the event and
-- resumed once.
unfoldable pub event_loop_with_co : (ℕ → Pending) → Event → Served → Io → Run
unfolding resume_read resume_write
event_loop_with_co reply ev s io =
    let o : Frame = at_head (some (object s.connection.phase)) in
    let t : Served = record s { watch = taken s.watch } in
    if ev.hang_up || ev.error
    then no_coroutine (drop_client s)
    else if ev.readable
    then resume_read reply o t io
    else if ev.writable
    then resume_write o t io
    else no_coroutine (drop_client s)

unfoldable pub events_loop_with_co : (ℕ → Pending) → Served → List (Event × Io) → Served
unfolding event_loop_with_co
events_loop_with_co reply s [] = s
events_loop_with_co reply s ((ev, io) ∷ evs) =
    events_loop_with_co reply (served_or s (event_loop_with_co reply ev s io)) evs

unfoldable pub events_loop : (ℕ → Pending) → Served → List (Event × Io) → Served
unfolding event_loop
events_loop reply s [] = s
events_loop reply s ((ev, io) ∷ evs) = events_loop reply (event_loop reply ev s io) evs
