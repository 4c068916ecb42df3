-- ===== src/Socket/Owned.antt =====
-- The descriptors that a socket owns over its life.
use sylar_framework.Prelude.{
  ℕ, ◌≡◌, refl, ◌∙◌, ◌⊎◌, inl, inr, Bool, true, false, List, [], ◌∷◌, Option, none, some,
  Bool-cases,
}
use sylar_framework.Address.IpAddress.{SockAddr, IpAddress, create, get_family}
use sylar_framework.Socket.Calls.{
  Socket, Descriptors, construct, made, close, bind, listen, connect, recv, recv_from_vector, send,
  accept, give, same_family, is_udp,
}

-- The calls on a socket, with the results of the system calls that they make.
pub data Use : Type 0 where
  use_bind : IpAddress → Bool → Use
  use_listen : Bool → Use
  use_connect : IpAddress → Bool → Use
  use_close : Use
  use_recv use_recv_from_vector use_send : Option ℕ → Use

unfoldable pub use_one : Use → Socket × Descriptors → Socket × Descriptors
unfolding bind listen connect close recv recv_from_vector send
use_one (use_bind addr ok) (s, d) = ((bind addr ok s).0, d)
use_one (use_listen ok) (s, d) = ((listen ok s).0, d)
use_one (use_connect addr ok) (s, d) = ((connect addr ok s).0, d)
use_one use_close (s, d) = close s d
use_one (use_recv r) (s, d) = ((recv r s).0, d)
use_one (use_recv_from_vector r) (s, d) = ((recv_from_vector r s).0, d)
use_one (use_send r) (s, d) = ((send r s).0, d)

unfoldable pub use_all : List Use → Socket × Descriptors → Socket × Descriptors
unfolding use_one
use_all [] s = s
use_all (u ∷ us) s = use_all us (use_one u s)

-- What stands when the socket is destroyed.
abbrev pub destroyed : Socket × Descriptors → Descriptors
destroyed (s, d) = (close s d).1

-- The socket holds its descriptor, or has closed it.
abbrev Holds : ℕ → Descriptors → Socket × Descriptors → Type 0
Holds fd d (s, e) =
    ((s.descriptor ≡ some fd) × (e ≡ d))
    ⊎ ((s.descriptor ≡ none) × (e ≡ record d { closed = fd ∷ d.closed }))

bind-descriptor :
    (addr : IpAddress) (ok : Bool) (s : Socket) → (bind addr ok s).0.descriptor ≡ s.descriptor
unfolding bind
bind-descriptor addr ok s = elim (Bool-cases (same_family (get_family addr) s.family)) [
  | inl e ↦ elim (Bool-cases ok) [ inl f ↦ cc (e, f) | inr f ↦ cc (e, f) ]
  | inr e ↦ cc e
]

connect-descriptor :
    (addr : IpAddress) (ok : Bool) (s : Socket) → (connect addr ok s).0.descriptor ≡ s.descriptor
unfolding connect
connect-descriptor addr true s = refl
connect-descriptor addr false s = refl

Holds-same :
    (fd : ℕ) (d e : Descriptors) (s t : Socket)
    → t.descriptor ≡ s.descriptor
    → Holds fd d (s, e)
    → Holds fd d (t, e)
Holds-same fd d e s t h (inl (a, b)) = inl (h ∙ a, b)
Holds-same fd d e s t h (inr (a, b)) = inr (h ∙ a, b)

close-Holds : (fd : ℕ) (d e : Descriptors) (s : Socket) → Holds fd d (s, e) → Holds fd d (close s e)
unfolding close
close-Holds fd d e s (inl (a, b)) = inr (refl, cc (a, b))
close-Holds fd d e s (inr (a, b)) = inr (refl, cc (a, b))

use_one-Holds :
    (fd : ℕ) (d : Descriptors) (u : Use) (s : Socket) (e : Descriptors)
    → Holds fd d (s, e)
    → Holds fd d (use_one u (s, e))
unfolding use_one listen recv recv_from_vector send
use_one-Holds fd d (use_bind addr ok) s e h =
    Holds-same fd d e s (bind addr ok s).0 (bind-descriptor addr ok s) h
use_one-Holds fd d (use_listen ok) s e h = h
use_one-Holds fd d (use_connect addr ok) s e h =
    Holds-same fd d e s (connect addr ok s).0 (connect-descriptor addr ok s) h
use_one-Holds fd d use_close s e h = close-Holds fd d e s h
use_one-Holds fd d (use_recv r) s e h = Holds-same fd d e s (recv r s).0 refl h
use_one-Holds fd d (use_recv_from_vector r) s e h = h
use_one-Holds fd d (use_send r) s e h = h

use_all-Holds :
    (fd : ℕ) (d : Descriptors) (us : List Use) (s : Socket) (e : Descriptors)
    → Holds fd d (s, e)
    → Holds fd d (use_all us (s, e))
unfolding use_all
use_all-Holds fd d [] s e h = h
use_all-Holds fd d (u ∷ us) s e h =
    use_all-Holds fd d us (use_one u (s, e)).0 (use_one u (s, e)).1 (use_one-Holds fd d u s e h)

destroyed-Holds :
    (fd : ℕ) (d : Descriptors) (p : Socket × Descriptors)
    → Holds fd d p
    → destroyed p ≡ record d { closed = fd ∷ d.closed }
unfolding close
destroyed-Holds fd d (s, e) (inl (a, b)) = cc (a, b)
destroyed-Holds fd d (s, e) (inr (a, b)) = cc (a, b)

pub use_all-closes_once :
    (fd : ℕ) (us : List Use) (s : Socket) (d : Descriptors)
    → s.descriptor ≡ some fd
    → destroyed (use_all us (s, d)) ≡ record d { closed = fd ∷ d.closed }
use_all-closes_once fd us s d h =
    destroyed-Holds fd d (use_all us (s, d)) (use_all-Holds fd d us s d (inl (h, refl)))

-- When the peer's family is known, `Accept` comes to have two descriptors, that of the connection and
-- that which the constructor of the new socket makes. Whatever is done with the new socket, and after
-- it is destroyed, only the connection's has been closed. And the new socket counts as connected if and
-- only if it is one for datagrams.
pub accept-leaks :
    (size fd new : ℕ) (peer : SockAddr) (s : Socket) (d : Descriptors) (p : IpAddress)
    → create (some peer) ≡ some (some p)
    → (t : Socket) × (accept size (some (fd, peer)) (some new) s d ≡ (made t, give new (give fd d)))
      × (t.is_connected ≡ is_udp s.socket_type)
      × ((us : List Use)
          → destroyed (use_all us (t, give new (give fd d)))
            ≡ record { opened = new ∷ fd ∷ d.opened; closed = fd ∷ d.closed })
unfolding accept construct
accept-leaks size fd new peer s d p h =
    let t : Socket = record {
      descriptor = some fd;
      family = s.family;
      socket_type = s.socket_type;
      is_connected = is_udp s.socket_type;
      addr = some p;
      buf_size = size;
    } in
    (t, cc h, refl, λ us. use_all-closes_once fd us t (give new (give fd d)) refl)
