-- ===== src/Http/Tests.antt =====
-- src/http_message.cc and src/http_server.cc: requests and one connection at concrete inputs.
use sylar_framework.Prelude.{
  ℕ, ◌+◌, ◌≡◌, refl, true, false, ◌-◌, ◌++◌, arith, replicate, map, length, List, [], ◌∷◌, none,
  some, ◌&&◌, if◌then◌else◌,
}
use sylar_framework.Prelude.Text.{text, equal, is_space, to_upper, break_on, decimal}
use sylar_framework.Http.Message.{
  get, post, method_from_string, version_from_string, content_length, HttpRequest, new_request,
}
use sylar_framework.Http.Parser.{from_string, extract, skip_spaces, split_word}
use sylar_framework.Http.Connection.{Pending, bytes, nothing, closed, reading}
use sylar_framework.Http.Worker.{
  input, modify, Served, Event, event_loop, event_loop_with_co, served_or,
}
use sylar_framework.Http.FirstRun.{SameButSend, event_loop_with_co-event_loop}
use sylar_framework.Http.Lifecycle.{
  HttpServer, Calls, start, create_epolls, overwrite, loops, starts, stops, enter_stop, loop_head,
  stop, serve, Waits,
}
use sylar_framework.Http.Endless.{serve-Waits}
use sylar_framework.Prelude.Text.{before, remove_if, strip}
use sylar_framework.Http.Message.{
  response_to_string, version_to_string, assign, get_header, header_lines, set_content,
  set_content_length, set_headers, status_code_to_string, status_number,
}
use sylar_framework.Http.Parser.{
  add_line, add_lines, extract_from, lines, parse_broken, parse_parts, with_method, with_version,
}
use sylar_framework.Http.Server.{
  recover, handle_request_message, find_path, answer_parsed, call_handler, dispatch, find_method,
  method_number,
}
use sylar_framework.Http.Exchange.{deliver_all, deliver_all-handle_request_data}
use sylar_framework.Http.Laws.{from_string-no_headers}
use sylar_framework.Http.Routes.{route, or_else, route-register_handler}
use sylar_framework.Http.Server.{
  Table, Reply, same_method, register_handler, reply_of, handle_request_data,
}

-- "GET / HTTP/1.1", an empty line, and the body "abc".
abbrev bodied : List ℕ
bodied = text "GET / HTTP/1.1\r\n\r\nabc"

abbrev accepted : HttpRequest
accepted = (from_string new_request bodied).0

from_string-no_headers_example :
    (accepted.message.content ≡ []) × (accepted.message.headers ≡ (content_length, decimal 0) ∷ [])
unfolding break_on from_string method_from_string version_from_string equal to_upper extract
    skip_spaces split_word is_space
from_string-no_headers_example =
    from_string-no_headers bodied (text "GET / HTTP/1.1") (text "\r\nabc") accepted refl refl refl

abbrev kept_open : ℕ → Pending
kept_open n = record { cursor = 0; length = 100 + n; keep_alive = true }

-- A table with one route, whose handlers are named by numbers.
abbrev one_route : Table ℕ
one_route = (text "/a", (get, 1) ∷ []) ∷ []

route-register_handler_example :
    route (text "/a") post (register_handler (text "/a") post 2 one_route)
    ≡ or_else
        (route (text "/a") post one_route)
        (if equal (text "/a") (text "/a") && same_method post post then some 2 else none)
route-register_handler_example =
    route-register_handler (text "/a") (text "/a") post post 2 one_route

abbrev waiting : Served
waiting = record { connection = record { phase = reading; allocated = 1 }; watch = modify input }

abbrev readable_event : Event
readable_event = record { hang_up = false; error = false; readable = true; writable = false }

event_loop_with_co-event_loop_example :
    SameButSend
      (served_or waiting (event_loop_with_co kept_open readable_event waiting (bytes 5)))
      (event_loop kept_open readable_event waiting (bytes 5))
      true
      (bytes 5)
event_loop_with_co-event_loop_example =
    event_loop_with_co-event_loop kept_open readable_event reading 1 waiting (bytes 5)
      (λ e. refl, λ e. cc e)

abbrev all_right : Calls
all_right = record {
  option_ok = true;
  bind_ok = true;
  listen_ok = true;
  epoll_create = some 4 ∷ some 5 ∷ some 6 ∷ some 7 ∷ some 8 ∷ [];
}

abbrev stopped_server : HttpServer
stopped_server = record {
  sock_fd = 3;
  worker_epoll_fd = replicate 5 (some 0);
  running = false;
  started = false;
  threads = 0;
}

abbrev started_server : HttpServer
started_server = record {
  sock_fd = 3;
  worker_epoll_fd = some 4 ∷ some 5 ∷ some 6 ∷ some 7 ∷ some 8 ∷ [];
  running = true;
  started = true;
  threads = 6;
}

serve-Waits_example : Waits (stop (loops ∷ stops ∷ loops ∷ []) started_server)
unfolding start create_epolls overwrite serve enter_stop loop_head
serve-Waits_example =
    serve-Waits all_right stopped_server started_server started_server
      (loops ∷ starts (record all_right { bind_ok = false }) ∷ []) (loops ∷ stops ∷ loops ∷ []) refl
      refl

-- A request for a path that nobody has registered.
abbrev asked : List ℕ
asked = text "GET /b HTTP/1.1\r\nHost: h\r\n\r\n"

abbrev not_there : Reply
not_there = reply_of (λ e. []) [] asked

fits : (handle_request_data (λ e. []) [] asked ≡ some not_there) × (length not_there.bytes ≡ 28)
unfolding handle_request_data reply_of break_on from_string method_from_string version_from_string
    equal to_upper extract skip_spaces split_word is_space response_to_string version_to_string
    recover handle_request_message find_path decimal assign get_header header_lines set_content
    set_content_length set_headers status_code_to_string status_number add_line add_lines
    extract_from lines parse_broken parse_parts with_method with_version answer_parsed call_handler
    dispatch find_method method_number same_method before remove_if strip
fits = (refl, refl)

deliver_all-handle_request_data_example :
    deliver_all
      (λ e. [])
      []
      asked
      (record { received = []; connection = record { phase = reading; allocated = 1 } })
      (bytes (length asked) ∷ map bytes (7 ∷ (length not_there.bytes - 7) ∷ []) ++ nothing ∷ [])
    ≡ record {
      received = not_there.bytes;
      connection =
          if not_there.keep_alive
          then record { phase = reading; allocated = 2 }
          else record { phase = closed; allocated = 1 };
    }
deliver_all-handle_request_data_example =
    deliver_all-handle_request_data (λ e. []) [] asked not_there 1
      (7 ∷ (length not_there.bytes - 7) ∷ []) (fits.0) (omega (arith, fits.1))
