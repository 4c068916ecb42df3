-- ===== src/Http/Connection.antt =====
-- src/http_server.cc: `HandleEpollEvent`, the life of one connection without coroutines. What
-- `recv` and `send` return is the environment's; the calls that the handler makes are listed in
-- order. `allocated` counts the `EventData` objects that exist.
use sylar_framework.Prelude.{ℕ, suc, ◌+◌, ◌-◌, Bool, List, [], ◌∷◌, if◌then◌else◌}

-- The result of `recv` or `send`: bytes, 0, EAGAIN or EWOULDBLOCK, or another error.
pub data Io : Type 0 where
  bytes : ℕ → Io
  nothing try_again failed : Io

-- What is registered with epoll for the descriptor, with the object that it points to.
pub record Pending : Type 0 where
  pub cursor : ℕ
  pub length : ℕ
  pub keep_alive : Bool

pub data Phase : Type 0 where
  reading : Phase
  writing : Pending → Phase
  closed : Phase

pub record Connection : Type 0 where
  pub phase : Phase
  pub allocated : ℕ

-- `delete`.
abbrev pub release : Connection → Connection
release c = record c { allocated = c.allocated - 1 }

-- `ControlEpollEvent(DEL)`, `close` and `delete`.
abbrev pub shut : Connection → Connection
shut c = record { phase = closed; allocated = c.allocated - 1 }

-- `EPOLLIN`: a request of `n` bytes is answered by `reply`, whose bytes lie in a new object.
unfoldable pub on_readable : Connection → (ℕ → Pending) → Io → Connection
on_readable c reply (bytes n) = record { phase = writing (reply n); allocated = suc c.allocated }
on_readable c reply nothing = shut c
on_readable c reply try_again = record c { phase = reading }
on_readable c reply failed = shut c

-- `EPOLLOUT`: `send` from the cursor on.
unfoldable pub on_writable : Connection → Pending → Io → Connection
on_writable c p (bytes n) = record c {
  phase = writing (record p { cursor = p.cursor + n; length = p.length - n });
}
on_writable c p nothing =
    if p.keep_alive then record { phase = reading; allocated = suc (c.allocated - 1) } else shut c
on_writable c p try_again = record c { phase = writing p }
on_writable c p failed = shut c

-- `HandleEpollEvent` on the object that the event points to: one for reading is handed to the
-- reading branch, one for writing to the writing branch.
unfoldable pub handle_epoll_event : (ℕ → Pending) → Connection → Io → Connection
unfolding on_readable on_writable
handle_epoll_event reply c io = elim c.phase [
  | reading ↦ on_readable c reply io
  | writing p ↦ on_writable c p io
  | closed ↦ c
]

unfoldable pub handle_all : (ℕ → Pending) → Connection → List Io → Connection
handle_all reply c [] = c
handle_all reply c (io ∷ ios) = handle_all reply (handle_epoll_event reply c io) ios
