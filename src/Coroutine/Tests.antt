-- ===== src/Coroutine/Tests.antt =====
-- src/coroutine.cc: the main coroutine, one that it resumes, and one that this resumes; and two that
-- use one stack in turn.
use sylar_framework.Prelude.{
  ℕ, ◌≡◌, refl, Option, none, some, [], ◌∷◌, arith, drop, if◌then◌else◌, ◌==◌,
}
use sylar_framework.Coroutine.Schedule.{Schedule, to, init, create, resume, yield_, finish}
use sylar_framework.Coroutine.Reach.{
  Reach, IsWell, start, later, creates, resumes, target, Reach-IsWell,
}
use sylar_framework.Coroutine.Nested.{resume-yield}
use sylar_framework.Coroutine.Shared.{
  Frame, Memory, change, swap_context, resume_stack, save_stack, load, exchange, exchange_with,
  swap_to, Meets, swap_context-back,
}

-- Two coroutines are created, the main one resumes the first, and this the second, which ends.
abbrev created : Schedule
created = create (create init)

abbrev outer : Schedule
outer = target created (resume 1 created)

abbrev inner : Schedule
inner = target outer (resume 2 outer)

abbrev ended : Schedule
ended = target inner (finish inner)

outer_resumed : resume 1 created ≡ to outer
unfolding resume create
outer_resumed = refl

inner_resumed : resume 2 outer ≡ to inner
unfolding resume create
inner_resumed = refl

outer_reached : Reach outer
outer_reached = later (later (later start (creates refl)) (creates refl)) (resumes 1 outer_resumed)

outer-IsWell : IsWell outer
outer-IsWell = Reach-IsWell outer_reached

Reach-IsWell_example : IsWell outer
Reach-IsWell_example = Reach-IsWell outer_reached

resume-yield_example :
    (s2 : Schedule) × (yield_ inner ≡ to s2)
    × (s2.stack ≡ outer.stack)
    × (s2.stack_top ≡ outer.stack_top)
    × (s2.running_co ≡ outer.running_co)
    × ((i : ℕ) → s2.states i ≡ outer.states i)
resume-yield_example = resume-yield outer inner 2 outer-IsWell inner_resumed

-- Coroutine 1 is on the stack, and 2 has been on it before.
abbrev frame_one : Frame
frame_one = record { shared = some 0; dummy = some 2; saved_stack = [] }

abbrev frame_two : Frame
frame_two = record { shared = some 0; dummy = some 1; saved_stack = 9 ∷ 9 ∷ 9 ∷ [] }

abbrev frame_main : Frame
frame_main = record { shared = none; dummy = none; saved_stack = [] }

abbrev one_stack : Memory
one_stack = record {
  stacks = λ i. record { occupy_co = some 1; stack_buffer = 1 ∷ 2 ∷ 3 ∷ 4 ∷ [] };
  frames = λ i. if i == 1 then frame_one else if i == 2 then frame_two else frame_main;
}

abbrev some_memory : Memory → Option Memory → Memory
some_memory m none = m
some_memory m (some n) = n

abbrev switched : Memory
switched = some_memory one_stack (swap_context 0 0 2 one_stack)

-- Coroutine 2 has written over the stack.
abbrev written : Memory
written = record switched {
  stacks =
      change switched.stacks 0 (record (switched.stacks 0) { stack_buffer = 8 ∷ 8 ∷ 8 ∷ 8 ∷ [] });
}

one_stack-Meets : Meets 0 1 2 0 2 one_stack
one_stack-Meets = record {
  apart = refl;
  apart_next = refl;
  differ = refl;
  occupied = refl;
  uses = refl;
  left_at = refl;
}

written-Meets : Meets 0 2 1 0 1 written
unfolding swap_context swap_to exchange exchange_with save_stack load resume_stack
written-Meets = record {
  apart = refl;
  apart_next = refl;
  differ = refl;
  occupied = refl;
  uses = refl;
  left_at = refl;
}

swap_context-back_example :
    (m3 : Memory) × (swap_context 0 0 1 written ≡ some m3)
    × (drop 2 (m3.stacks 0).stack_buffer ≡ drop 2 (one_stack.stacks 0).stack_buffer)
unfolding swap_context swap_to exchange exchange_with save_stack load resume_stack
swap_context-back_example =
    swap_context-back 0 0 0 1 2 0 2 1 one_stack switched written one_stack-Meets refl written-Meets
      refl refl (omega arith)
