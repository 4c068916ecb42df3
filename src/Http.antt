-- ===== src/Http.antt =====
-- src/http_message.cc, src/include/http_message.hh and src/http_server.cc: requests and responses
-- as texts (`Message`, `Parser`), what the server answers (`Server`), and one connection under
-- epoll (`Connection`), the loop of a worker with and without coroutines (`Worker`), and the one that
-- hands connections out (`Listener`).
pub mod Message
pub mod NotFound
pub mod Parser
pub mod Server
pub mod Connection
pub mod Laws
pub mod Routes
pub mod Leak
pub mod Exchange
pub mod Worker
pub mod FirstRun
pub mod Listener
pub mod Lifecycle
pub mod Endless
mod Tests
