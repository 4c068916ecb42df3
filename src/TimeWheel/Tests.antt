-- ===== src/TimeWheel/Tests.antt =====
-- src/timewheel.cc: a wheel of four slots at concrete inputs.
use sylar_framework.Prelude.{◌≡◌, refl, arith, ℕ, zero, suc, ◌/◌, ◌≤◌, length, All, []}
use sylar_framework.TimeWheel.Wheel.{count, forever, Item, Wheel, create, add_timer, list_at}
use sylar_framework.TimeWheel.Turns.{IsTurning}
use sylar_framework.TimeWheel.Next.{trigger, closer, closest, get_next_timeout}
use sylar_framework.TimeWheel.Left.{IsNext, get_next_timeout-IsNext}
use sylar_framework.TimeWheel.Once.{RunsAfter, add_timer-RunsAfter}
use sylar_framework.TimeWheel.Slot.{IsOnce}

-- Two timers that run once, at 0 and at 4 milliseconds, and one that repeats every 3.
abbrev loaded : Wheel
loaded =
    add_timer 0 3 30 forever
      (add_timer 0 4 20 (count 1) (add_timer 0 0 10 (count 1) (create 4 1 0)))

abbrev repeated : Item
repeated = record { remaining = 0; interval = 3; registered = 0; times = forever; task = 30 }

-- The wheel when the timer that repeats is due.
abbrev turned : Wheel
turned = record loaded { current = 3 }

-- A wheel with one timer, which is run after a whole turn and two slots.
abbrev timed : Wheel
timed = add_timer 0 6 10 (count 1) (create 4 1 0)

timed-IsOnce : (i : ℕ) → All IsOnce (list_at i timed.lists)
unfolding list_at
timed-IsOnce zero = tt
timed-IsOnce (suc zero) = tt
timed-IsOnce (suc (suc zero)) = (refl, tt)
timed-IsOnce (suc (suc (suc zero))) = tt
timed-IsOnce (suc (suc (suc (suc i)))) = tt

length_timed : (i : ℕ) → length (list_at i timed.lists) ≤ 1
unfolding list_at
length_timed zero = omega arith
length_timed (suc zero) = omega arith
length_timed (suc (suc zero)) = omega arith
length_timed (suc (suc (suc zero))) = omega arith
length_timed (suc (suc (suc (suc i)))) = omega arith

timed-IsTurning : IsTurning 1 timed
unfolding list_at
timed-IsTurning = record {
  inside = omega arith;
  sized = refl;
  once = timed-IsOnce;
  enough = length_timed;
}

add_timer-RunsAfter_example : RunsAfter 1 (6 / 1) 10 timed
add_timer-RunsAfter_example =
    add_timer-RunsAfter 1 0 6 10 (create 4 1 0) (omega arith) (omega arith) timed-IsTurning

-- At the first millisecond the timer of slot 3 is next: 2 milliseconds are left.
get_next_timeout-IsNext_example :
    (get_next_timeout 1 loaded ≤ 2) × IsNext 1 loaded (get_next_timeout 1 loaded)
unfolding list_at
get_next_timeout-IsNext_example =
    get_next_timeout-IsNext 1 loaded 3 2 repeated [] refl (omega arith) (omega arith) (omega arith)
      ((omega arith, omega arith), (tt, (tt, ((omega arith, omega arith), tt)))) (omega arith) refl
      refl (omega arith)

two_left : get_next_timeout 1 loaded ≡ 2
unfolding get_next_timeout closest closer trigger list_at
two_left = refl
