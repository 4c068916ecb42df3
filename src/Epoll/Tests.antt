-- ===== src/Epoll/Tests.antt =====
-- src/epoll.cc and src/hook.cc: a coroutine that waits for a descriptor.
use sylar_framework.Prelude.{
  ℕ, ◌≡◌, refl, Bool, true, false, List, [], ◌∷◌, Option, none, some, ◌==◌, if◌then◌else◌, arith,
}
use sylar_framework.Epoll.Events.{
  Interest, EventCtx, Op, add, modify, remove, Table, find, register_event, register_at,
}
use sylar_framework.Epoll.Kernel.{
  InterestList, Request, registers, registers_ctx, cancels, serve, Agrees, serve-Agrees,
}
use sylar_framework.TimeWheel.Wheel.{Wheel, count, add_timer, create, list_at}
use sylar_framework.TimeWheel.Next.{trigger, get_next_timeout}
use sylar_framework.Epoll.Waiting.{wait_time_due}
use sylar_framework.Epoll.Loop.{
  wait_time, Action, RanFor, handle_event, is_heard, heard_as, handle_event-register_event,
}
use sylar_framework.Epoll.Hook.{registers, yields, do_io, read_only, write_only}
use sylar_framework.Epoll.Blocked.{caller, blocked, transferred, to_read, to_write, do_io-blocked}

-- A kernel whose interest list is a function.
abbrev control : Op → ℕ → Interest → (ℕ → Option Interest) → ℕ → Option Interest
control add fd i s k = if fd == k then some i else s k
control modify fd i s k = if fd == k then some i else s k
control remove fd i s k = if fd == k then none else s k

abbrev kernel : InterestList
kernel = record {
  State = ℕ → Option Interest;
  watched = λ k s. s k;
  control = control;
  control_add = λ fd k i s h. refl;
  control_modify = λ fd k i j s h. refl;
  control_remove = λ fd k i j s h. refl;
}

abbrev waiting : EventCtx
waiting = record {
  type_ = read_only;
  fd = 5;
  r_callback = none;
  w_callback = none;
  r_co = some 1;
  w_co = none;
}

abbrev one : Table
one = (5, waiting) ∷ []

abbrev requests : List (Request kernel)
requests =
    registers waiting
    ∷ registers_ctx write_only 6 (to_write 6 2)
    ∷ registers_ctx read_only 6 (to_read 6 3)
    ∷ cancels read_only 5
    ∷ []

serve-Agrees_example :
    Agrees kernel (serve kernel requests [] (λ k. none)).0 (serve kernel requests [] (λ k. none)).1
unfolding find
serve-Agrees_example =
    serve-Agrees kernel requests [] (λ k. none) (tt, ((refl, refl), ((refl, refl), (tt, tt))))
      (λ k. refl)

handle_event-register_event_example :
    (as_ : List Action) × (handle_event 0
        (heard_as 5 (register_event waiting []).1)
        read_only
        (register_event waiting []).0
      ≡ some as_)
    × RanFor read_only waiting as_
unfolding register_event register_at find is_heard
handle_event-register_event_example = handle_event-register_event 0 read_only waiting [] refl

abbrev rounds : List Bool
rounds = true ∷ false ∷ []

do_io-blocked_example :
    (do_io true (caller 5 read_only 1 2) (blocked rounds 3 [])
      ≡ transferred rounds (registers (to_read 5 1) ∷ yields ∷ []) 3)
    × (do_io true (caller 5 write_only 1 2) (blocked rounds 3 [])
        ≡ transferred rounds (registers (to_write 5 1) ∷ yields ∷ []) 3)
    × (do_io true (caller 5 read_only 1 1) (blocked rounds 3 [])
        ≡ transferred rounds (registers (to_read 5 1) ∷ []) 3)
    × (do_io true (caller 5 write_only 1 1) (blocked rounds 3 [])
        ≡ transferred rounds (registers (to_write 5 1) ∷ []) 3)
do_io-blocked_example = do_io-blocked 5 1 0 3 rounds []

-- Two milliseconds after the start the timer of 2 milliseconds is due.
abbrev due : Wheel
due = add_timer 0 2 40 (count 1) (create 4 1 0)

wait_time_due_example : wait_time (get_next_timeout 2 due) ≡ 1000
unfolding list_at trigger
wait_time_due_example =
    wait_time_due 2 due 2
      (record { remaining = 0; interval = 2; registered = 0; times = count 1; task = 40 }) [] refl
      (omega arith) (omega arith) refl refl
