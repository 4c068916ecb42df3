-- ===== src/Socket/Tests.antt =====
-- src/socket.cc: sockets at concrete results of the system calls.
use sylar_framework.Prelude.{◌≡◌, refl, true, List, [], ◌∷◌, none, some}
use sylar_framework.Address.IpAddress.{inet, SockAddr, ipv4, create}
use sylar_framework.Socket.Calls.{tcp, Socket, Descriptors, accept, made, give, is_udp}
use sylar_framework.Socket.Owned.{
  Use, use_listen, use_close, use_recv, use_all, destroyed, accept-leaks,
}

abbrev peer : SockAddr
peer = record { family = inet; port = 20480; host = 127 ∷ 0 ∷ 0 ∷ 1 ∷ [] }

abbrev listening : Socket
listening = record {
  descriptor = some 3;
  family = inet;
  socket_type = tcp;
  is_connected = is_udp tcp;
  addr = some (ipv4 peer);
  buf_size = 0;
}

abbrev at_start : Descriptors
at_start = record { opened = 3 ∷ []; closed = [] }

abbrev uses : List Use
uses = use_listen true ∷ use_recv none ∷ use_close ∷ use_close ∷ []

accept-leaks_example :
    (t : Socket) × (accept 0 (some (4, peer)) (some 5) listening at_start
      ≡ (made t, give 5 (give 4 at_start)))
    × (t.is_connected ≡ is_udp tcp)
    × ((us : List Use)
        → destroyed (use_all us (t, give 5 (give 4 at_start)))
          ≡ record { opened = 5 ∷ 4 ∷ 3 ∷ []; closed = 4 ∷ [] })
unfolding create
accept-leaks_example = accept-leaks 0 4 5 peer listening at_start (ipv4 peer) refl
