-- ===== src/Coroutine/Schedule.antt =====
-- src/coroutine.cc: `Schedule` and the state of a `Coroutine`. Coroutines are numbered in the order
-- of `CreateCoroutine`, and the main coroutine is 0. A function of the source that ends in
-- `swapcontext` gives the state in which the other context goes on.
use sylar_framework.Prelude.{
  ℕ, suc, ◌+◌, ◌-◌, ◌≤◌, ◌<◌, ◌≡◌, arith, ◌*◌, ◌/◌, ◌%◌, ◌^◌, Bool, true, false, List, [], ◌∷◌,
  Option, none, some, length, get_elem?, ltb, ◌==◌, if◌then◌else◌,
}

pub data CoState : Type 0 where
  ready running terminal : CoState

abbrev pub is_ready : CoState → Bool
is_ready ready = true
is_ready _ = false

abbrev pub is_running : CoState → Bool
is_running running = true
is_running _ = false

abbrev pub is_terminal : CoState → Bool
is_terminal terminal = true
is_terminal _ = false

abbrev pub States : Type 0
States = ℕ → CoState

abbrev pub update : States → ℕ → CoState → States
update f i v j = if i == j then v else f j

-- `Schedule`, with the top of `co_stack_` first; `created` counts the coroutines.
pub record Schedule : Type 0 where
  pub stack : List ℕ
  pub stack_top : ℕ
  pub running_co : ℕ
  pub states : States
  pub created : ℕ

-- What a call comes to: the other context goes on, the call returns, an assertion fails, an
-- exception is thrown, or the stack is read out of its bounds.
pub data Switch : Type 0 where
  to : Schedule → Switch
  returns : Schedule → Switch
  refused thrown out_of_bounds : Switch

-- `InitThreadSchedule`.
abbrev pub init : Schedule
init = record {
  stack = 0 ∷ [];
  stack_top = 1;
  running_co = 0;
  states = update (λ _. terminal) 0 running;
  created = 1;
}

-- `CreateCoroutine`: the state of the new coroutine.
unfoldable pub create : Schedule → Schedule
create s = record s { states = update s.states s.created ready; created = suc s.created }

-- `co_stack_[i]`.
abbrev pub slot : ℕ → List ℕ → Option ℕ
slot i stack = if ltb i (length stack) then get_elem? stack (length stack - suc i) else none

-- The states after `Resume` has marked the coroutine that calls, unless it is the main one, and the
-- one that is called.
abbrev pub mark_resumed : Schedule → ℕ → States
mark_resumed s c =
    update (if ltb 1 (length s.stack) then update s.states s.running_co ready else s.states) c
      running

-- `Coroutine::Resume`.
unfoldable pub resume : ℕ → Schedule → Switch
resume c s =
    if is_terminal (s.states c)
    then returns s
    else if is_ready (s.states c)
    then (if is_running (s.states s.running_co)
        then to (record s {
          stack = c ∷ s.stack;
          stack_top = suc s.stack_top;
          running_co = c;
          states = mark_resumed s c;
        })
        else refused)
    else refused

abbrev pub pop : List ℕ → List ℕ
pop [] = []
pop (c ∷ cs) = cs

-- What `Yield` and `CoMainFunc` do once they have found the two coroutines on the stack.
abbrev pub leave : Schedule → ℕ → States → Schedule
leave s pending states_ = record s {
  stack = pop s.stack;
  stack_top = s.stack_top - 1;
  running_co = pending;
  states = states_;
}

unfoldable pub yield_to : Schedule → Option ℕ → Option ℕ → Switch
yield_to s (some co) (some pending) =
    to (leave s pending (update (update s.states co ready) pending running))
yield_to s _ _ = out_of_bounds

-- `Schedule::Yield`.
unfoldable pub yield_ : Schedule → Switch
unfolding yield_to
yield_ s =
    if ltb (length s.stack) 2
    then thrown
    else yield_to s (slot (s.stack_top - 1) s.stack) (slot (s.stack_top - 2) s.stack)

unfoldable pub finish_to : Schedule → Option ℕ → Option ℕ → Switch
finish_to s (some co) (some pending) = to (leave s pending s.states)
finish_to s _ _ = out_of_bounds

-- `Coroutine::CoMainFunc` of the running coroutine, once its function has returned.
unfoldable pub finish : Schedule → Switch
unfolding finish_to
finish s =
    let s' = record s { states = update s.states s.running_co terminal } in
    finish_to s' (slot (s.stack_top - 1) s.stack) (slot (s.stack_top - 2) s.stack)

-- `CreateCoroutine`: the stack's size, in a `size_t`.
unfoldable pub aligned_size : ℕ → ℕ
aligned_size size = if size % 4096 == 0 then size else (size / 4096 * 4096 + 4096) % 2 ^ 64

-- A size of at most 2 ^ 64 - 4096 is rounded up to the next multiple of a page.
pub aligned_size_bounds :
    (size : ℕ)
    → size + 4096 ≤ 2 ^ 64
    → (aligned_size size % 4096 ≡ 0)
      × (size ≤ aligned_size size)
      × (aligned_size size < size + 4096)
unfolding aligned_size
aligned_size_bounds size h = ground arith
