-- ===== src/Http/Lifecycle.antt =====
-- src/http_server.cc: the constructor of `HttpServer`, `Start` and `Stop`. The results of the system
-- calls are arguments, and what `running_` holds before `Start` is one, since no constructor sets it.
use sylar_framework.Prelude.{
  replicate, ℕ, zero, suc, ◌-◌, ◌≡◌, Bool, true, false, not, List, [], ◌∷◌, ◌++◌, Option, none,
  some, if◌then◌else◌, ◌==◌,
}
use sylar_framework.Http.Listener.{pool_size}

pub data Failure : Type 0 where
  no_socket no_options no_bind no_listen no_epoll : Failure

-- `sock_fd_`, the epoll descriptors, `none` for -1, `running_`, whether there are threads to join,
-- and the number of those that run: the listener and the workers.
pub record HttpServer : Type 0 where
  pub sock_fd : ℕ
  pub worker_epoll_fd : List (Option ℕ)
  pub running : Bool
  pub started : Bool
  pub threads : ℕ

-- What happens: the server, or an exception and the server that it leaves. A thread that is assigned
-- to while it is there to be joined ends the program.
pub data Started : Type 0 where
  running_server : HttpServer → Started
  fails : Failure → HttpServer → Started
  terminates : Started

unfoldable pub create_server : Bool → Option ℕ → Option HttpServer
create_server memory none = none
create_server memory (some fd) = some (record {
  sock_fd = fd;
  worker_epoll_fd = replicate pool_size (some 0);
  running = memory;
  started = false;
  threads = 0;
})

-- The results of `setsockopt`, `bind`, `listen` and each `epoll_create1`.
pub record Calls : Type 0 where
  pub option_ok : Bool
  pub bind_ok : Bool
  pub listen_ok : Bool
  pub epoll_create : List (Option ℕ)

-- The loop over the workers, up to the first failure: what is stored, and whether all are there.
unfoldable pub create_epolls : ℕ → List (Option ℕ) → List (Option ℕ) × Bool
create_epolls zero rs = ([], true)
create_epolls (suc n) [] = (none ∷ [], false)
create_epolls (suc n) (none ∷ rs) = (none ∷ [], false)
create_epolls (suc n) (some fd ∷ rs) = let rest = create_epolls n rs in (some fd ∷ rest.0, rest.1)

-- A descriptor takes the place of what stands there.
unfoldable pub overwrite : List (Option ℕ) → List (Option ℕ) → List (Option ℕ)
overwrite [] old = old
overwrite (fd ∷ fds) [] = fd ∷ fds
overwrite (fd ∷ fds) (x ∷ old) = fd ∷ overwrite fds old

-- `Start`.
unfoldable pub start : Calls → HttpServer → Started
unfolding create_epolls overwrite
start c s =
    let made = create_epolls pool_size c.epoll_create in
    let t = record s { worker_epoll_fd = overwrite made.0 s.worker_epoll_fd } in
    if not c.option_ok
    then fails no_options s
    else if not c.bind_ok
    then fails no_bind s
    else if not c.listen_ok
    then fails no_listen s
    else if not made.1
    then fails no_epoll t
    else if s.started
    then terminates
    else running_server (record t { running = true; started = true; threads = suc pool_size })

-- A thread at the head of its loop: it goes on while `running_` is set.
unfoldable pub loop_head : HttpServer → HttpServer
loop_head s = if s.running then s else record s { threads = s.threads - 1 }

-- `Stop` up to its first `join`: it does nothing there.
unfoldable pub enter_stop : HttpServer → HttpServer
enter_stop s = s

-- What may happen to a server: calls of `Start` and of `Stop`, and a thread that comes to the head of
-- its loop; `none` is the end of the program.
pub data Step : Type 0 where
  starts : Calls → Step
  stops loops : Step

abbrev pub left_by : Started → Option HttpServer
left_by (running_server s) = some s
left_by (fails f s) = some s
left_by terminates = none

unfoldable pub serve : List Step → HttpServer → Option HttpServer
unfolding start loop_head enter_stop
serve [] s = some s
serve (starts c ∷ steps) s = elim (left_by (start c s)) [ none ↦ none | some t ↦ serve steps t ]
serve (stops ∷ steps) s = serve steps (enter_stop s)
serve (loops ∷ steps) s = serve steps (loop_head s)

-- `join` throws where there is no thread, and waits for one that runs; the descriptors are closed
-- when all threads have been joined.
pub data Stopped : Type 0 where
  not_joinable waits : Stopped
  stopped : List (Option ℕ) → Stopped

unfoldable pub join_all : HttpServer → Stopped
join_all s = if s.threads == 0 then stopped (s.worker_epoll_fd ++ some s.sock_fd ∷ []) else waits

abbrev pub joined : Option HttpServer → Option Stopped
joined none = none
joined (some s) = some (join_all s)

-- `Stop`, with what happens to the server between the call and the moment it is looked at; `none` is
-- the end of the program.
unfoldable pub stop : List Step → HttpServer → Option Stopped
unfolding serve enter_stop join_all
stop during s = if not s.started then some not_joinable else joined (serve during (enter_stop s))

-- `Stop` does not come to its end, unless the program has.
abbrev pub Waits : Option Stopped → Type 0
Waits none = Unit
Waits (some r) = r ≡ waits
