-- ===== src/Socket/Calls.antt =====
-- src/socket.cc and src/include/socket.hh: `Socket`. The results of the system calls are arguments; the
-- descriptors that the kernel gave out and those that were closed are listed, the newest first.
-- `setsockopt` and `fcntl` on a new descriptor change nothing that is modelled.
use sylar_framework.Prelude.{
  ℕ, ◌-◌, ◌^◌, Bool, true, false, ◌==◌, List, ◌∷◌, Option, none, some, if◌then◌else◌,
}
use sylar_framework.Address.IpAddress.{
  Family, inet, inet6, other_family, SockAddr, IpAddress, create, get_family,
}
use sylar_framework.Epoll.Events.{Interest, Table, Ctl, cancel_event}

pub data SocketType : Type 0 where
  tcp udp : SocketType

-- `socket_` is `none` for -1, `addr_` for a null pointer.
pub record Socket : Type 0 where
  pub descriptor : Option ℕ
  pub family : Family
  pub socket_type : SocketType
  pub is_connected : Bool
  pub addr : Option IpAddress
  pub buf_size : ℕ

pub record Descriptors : Type 0 where
  pub opened : List ℕ
  pub closed : List ℕ

abbrev pub give : ℕ → Descriptors → Descriptors
give fd d = record d { opened = fd ∷ d.opened }

abbrev pub is_udp : SocketType → Bool
is_udp tcp = false
is_udp udp = true

-- The constructor, with what `socket` returns: it throws without a descriptor. `buf_size_` is not set:
-- `size` is what the memory holds.
unfoldable pub construct :
    ℕ → Family → SocketType → Option ℕ → Descriptors → Option Socket × Descriptors
construct size family type_ none d = (none, d)
construct size family type_ (some fd) d = (
  some (record {
    descriptor = some fd;
    family = family;
    socket_type = type_;
    is_connected = is_udp type_;
    addr = none;
    buf_size = size;
  }),
  give fd d,
)

-- `CreateTCPSocket` and `CreateUDPSocket`, by way of the functions for the two families: an exception,
-- a null pointer, or a socket.
pub data Made : Type 0 where
  thrown null : Made
  made : Socket → Made

abbrev as_made : Option Socket → Made
as_made none = thrown
as_made (some s) = made s

unfoldable pub create_socket :
    ℕ → SocketType → IpAddress → Option ℕ → Descriptors → Made × Descriptors
unfolding construct get_family
create_socket size type_ addr fd d =
    let four = construct size inet type_ fd d in
    let six = construct size inet6 type_ fd d in
    elim (get_family addr) [
      | inet ↦ (as_made four.0, four.1)
      | inet6 ↦ (as_made six.0, six.1)
      | other_family n ↦ (null, d)
    ]

-- `Close`, and the destructor.
unfoldable pub close : Socket → Descriptors → Socket × Descriptors
close s d = (
  record s { descriptor = none; is_connected = false },
  elim s.descriptor [ none ↦ d | some fd ↦ record d { closed = fd ∷ d.closed } ],
)

-- `GetSockOpt` and `SetSockOpt` by whether the call returned -1.
unfoldable pub sock_opt : Bool → Bool
sock_opt failed = if failed then false else true

abbrev pub same_family : Family → Family → Bool
same_family inet inet = true
same_family inet6 inet6 = true
same_family (other_family m) (other_family n) = m == n
same_family _ _ = false

-- `Bind`, by whether `bind` succeeded.
unfoldable pub bind : IpAddress → Bool → Socket → Socket × Bool
unfolding get_family
bind addr ok s =
    if same_family (get_family addr) s.family
    then (if ok then (record s { addr = some addr }, true) else (s, false))
    else (s, false)

-- `Listen`.
unfoldable pub listen : Bool → Socket → Socket × Bool
listen ok s = (s, ok)

-- `Connect`.
unfoldable pub connect : IpAddress → Bool → Socket → Socket × Bool
connect addr ok s = if ok then (record s { is_connected = true }, true) else (s, false)

-- What `recv` and its kin return, `none` for -1.
abbrev pub as_size : Option ℕ → ℕ
as_size none = 2 ^ 64 - 1
as_size (some n) = n

-- `Recv`, the first `RecvFrom` and `RecvMsg`; the second `RecvFrom` does not set `buf_size_`.
unfoldable pub recv : Option ℕ → Socket → Socket × Option ℕ
recv ret s = (record s { buf_size = as_size ret }, ret)

unfoldable pub recv_from_vector : Option ℕ → Socket → Socket × Option ℕ
recv_from_vector ret s = (s, ret)

-- `Send`, `SendTo` and `SendMsg`.
unfoldable pub send : Option ℕ → Socket → Socket × Option ℕ
send ret s = (s, ret)

-- `Accept`: with what `accept` returns and what `socket` returns to the constructor. When
-- `Address::Create` throws the new socket is destroyed.
abbrev pub with_peer : Socket → Descriptors → Option (Option IpAddress) → Made × Descriptors
with_peer s d none = (thrown, (close s d).1)
with_peer s d (some p) = (made (record s { addr = p }), d)

abbrev pub take_over : ℕ → SockAddr → Option Socket × Descriptors → Made × Descriptors
take_over fd peer (none, d) = (thrown, d)
take_over fd peer (some s, d) = with_peer (record s { descriptor = some fd }) d (create (some peer))

unfoldable pub accept :
    ℕ → Option (ℕ × SockAddr) → Option ℕ → Socket → Descriptors → Made × Descriptors
unfolding construct close create
accept size none new s d = (null, d)
accept size (some (fd, peer)) new s d =
    take_over fd peer (construct size s.family s.socket_type new (give fd d))

-- `CancelReadEvent`, `CancelWriteEvent` and `CancelAllEvent`. No context is registered for -1.
unfoldable pub cancel : Interest → Option ℕ → Table → Table × Option Ctl
unfolding cancel_event
cancel type_ none t = (t, none)
cancel type_ (some fd) t = cancel_event type_ fd t

abbrev pub read_event : Interest
read_event = record { read = true; write = false }

abbrev pub write_event : Interest
write_event = record { read = false; write = true }

unfoldable pub cancel_all_event : Socket → Table → Table
unfolding cancel
cancel_all_event s t = (cancel write_event s.descriptor (cancel read_event s.descriptor t).0).0
