-- ===== src/Http/Endless.antt =====
-- src/http_server.cc: a server that has been started, and that `Stop` waits for.
use mathlib.Core.Path.{subst}
use sylar_framework.Prelude.{
  ap, sym, not, if◌then◌else◌, suc, ◌≡◌, refl, ◌∙◌, inl, inr, Bool-cases, true, List, [], ◌∷◌,
  Option, none, some,
}
use sylar_framework.Http.Listener.{pool_size}
use sylar_framework.Http.Lifecycle.{
  HttpServer, Calls, Started, running_server, fails, terminates, create_epolls, start, loop_head,
  not_joinable, enter_stop, stop, join_all, joined, Step, starts, stops, loops, left_by, serve,
  Waits,
}

-- All threads of a server run, and its flag is set.
abbrev pub IsServing : HttpServer → Type 0
IsServing s = (s.started ≡ true) × (s.running ≡ true) × (s.threads ≡ suc pool_size)

-- What `Start` makes of the flag and the threads.
abbrev Kept : HttpServer → Started → Type 0
Kept s (running_server t) = IsServing t
Kept s (fails f t) = (t.started ≡ s.started) × (t.running ≡ s.running) × (t.threads ≡ s.threads)
Kept s terminates = Unit

start-Kept : (c : Calls) (s : HttpServer) → Kept s (start c s)
unfolding start
start-Kept c s = elim (Bool-cases c.option_ok) [
  | inr e ↦ rw (start, e) (refl, refl, refl)
  | inl e ↦ elim (Bool-cases c.bind_ok) [
    | inr f ↦ rw (start, e, f) (refl, refl, refl)
    | inl f ↦ elim (Bool-cases c.listen_ok) [
      | inr g ↦ rw (start, e, f, g) (refl, refl, refl)
      | inl g ↦ elim (Bool-cases (create_epolls pool_size c.epoll_create).1) [
        | inr h ↦ rw (start, e, f, g, h) (refl, refl, refl)
        | inl h ↦ elim (Bool-cases s.started) [
          | inl i ↦ rw (start, e, f, g, h, i) tt
          | inr i ↦ rw (start, e, f, g, h, i) (refl, refl, refl)
        ]
      ]
    ]
  ]
]

-- Unless the program has ended.
abbrev Serves : Option HttpServer → Type 0
Serves none = Unit
Serves (some s) = IsServing s

left_by-Serves : (s : HttpServer) (r : Started) → IsServing s → Kept s r → Serves (left_by r)
left_by-Serves s (running_server t) h k = k
left_by-Serves s (fails f t) h k = (k.0 ∙ h.0, k.1 ∙ h.1, k.2 ∙ h.2)
left_by-Serves s terminates h k = tt

loop_head-IsServing : (s : HttpServer) → IsServing s → loop_head s ≡ s
unfolding loop_head
loop_head-IsServing s h = cc h.1

enter_stop-IsServing : (s : HttpServer) → IsServing s → IsServing (enter_stop s)
unfolding enter_stop
enter_stop-IsServing s h = h

serve_from :
    (steps : List Step)
    → ((s : HttpServer) → IsServing s → Serves (serve steps s))
    → (o : Option HttpServer) → Serves o
    → Serves (elim o [ none ↦ none | some t ↦ serve steps t ])
serve_from steps f none h = tt
serve_from steps f (some t) h = f t h

serve-Serves : (steps : List Step) (s : HttpServer) → IsServing s → Serves (serve steps s)
unfolding serve
serve-Serves [] s h = h
serve-Serves (starts c ∷ steps) s h =
    serve_from steps (serve-Serves steps) (left_by (start c s))
      (left_by-Serves s (start c s) h (start-Kept c s))
serve-Serves (stops ∷ steps) s h = serve-Serves steps (enter_stop s) (enter_stop-IsServing s h)
serve-Serves (loops ∷ steps) s h = rw (loop_head-IsServing s h) (serve-Serves steps s h)

joined-Waits : (o : Option HttpServer) → Serves o → Waits (joined o)
unfolding join_all
joined-Waits none h = tt
joined-Waits (some s) h = rw (join_all, h.2) refl

stop-Waits : (during : List Step) (s : HttpServer) → IsServing s → Waits (stop during s)
unfolding stop enter_stop
stop-Waits during s h =
    subst Waits (ap (λ b. if not b then some not_joinable else joined (serve during s)) (sym h.0))
      (joined-Waits (serve during s) (serve-Serves during s h))

-- Once a server has been started, `Stop` waits, whatever happens before it is called and while it
-- waits: its threads going on, further calls of `Stop` and of `Start`, unless one of these ends the
-- program. Neither `Stop` nor anything else resets the flag that the threads read, so none of them
-- ever ends.
pub serve-Waits :
    (c : Calls) (s t u : HttpServer) (before during : List Step)
    → start c s ≡ running_server t
    → serve before t ≡ some u
    → Waits (stop during u)
serve-Waits c s t u before during e f =
    stop-Waits during u (subst Serves f (serve-Serves before t (subst (Kept s) e (start-Kept c s))))
