-- ===== src/TimeWheel/Once.antt =====
-- src/timewheel.cc: a timer over many ticks, in a wheel whose timers run once.
use native.Mathlib.Nat.{mod-eq_of_lt, mod-lt, zero-div, mod-add-mod}
use sylar_framework.Prelude.{
  ℕ, zero, suc, ◌+◌, ◌/◌, ◌%◌, ◌<◌, ◌≡◌, refl, sym, ap, ◌∙◌, inl, inr, true, List, [], ◌∷◌, ◌++◌,
  some, arith, length, length-set, ◌==◌, ltb, ◌^◌,
}
use sylar_framework.TimeWheel.Wheel.{
  count, Item, Wheel, list_at, as_int, as_rounds, add_timer, tick, tick_all,
}
use sylar_framework.TimeWheel.Slot.{due, kept, tick-IsOnce}
use sylar_framework.TimeWheel.Places.{by_turn}
use sylar_framework.TimeWheel.Turns.{
  waits_in, is_run, is_run-due, waits_in-kept, list_at-set, next_wheel, IsTurning, Waits,
  list_at_here, list_at_there, next_wheel-IsTurning,
}

next_wheel-Waits :
    (fuel d task : ℕ) (w : Wheel)
    → IsTurning fuel w
    → Waits (suc d) task w
    → Waits d task (next_wheel w)
next_wheel-Waits fuel d task w t h =
    let s = w.slots in
    let cur = w.current in
    let ahead : cur + 1 + d ≡ cur + suc d = omega arith in
    let place : ((cur + 1) % s + d) % s ≡ (cur + suc d) % s =
      mod-add-mod (cur + 1) s d ∙ ap (λ n. n % s) ahead in
    elim (by_turn s cur d t.inside) [
      | inl (back, turns) ↦
          let self : (cur == cur) ≡ true = ground arith in
          let here : list_at (((cur + 1) % s + d) % s) (next_wheel w).lists
              ≡ kept (list_at cur w.lists) =
            ap (λ i. list_at i (next_wheel w).lists) (place ∙ back)
            ∙ list_at_here fuel cur w t self in
          ap (waits_in task (d / s)) here
          ∙ waits_in-kept task (d / s) (list_at cur w.lists) (
              ap (λ r. waits_in task r (list_at cur w.lists)) (sym turns)
              ∙ ap (λ i. waits_in task (suc d / s) (list_at i w.lists)) (sym back)
              ∙ h)
      | inr (away, turns) ↦
          let there : list_at (((cur + 1) % s + d) % s) (next_wheel w).lists
              ≡ list_at ((cur + suc d) % s) w.lists =
            ap (λ i. list_at i (next_wheel w).lists) place
            ∙ list_at_there fuel ((cur + suc d) % s) w t away in
          ap (waits_in task (d / s)) there
          ∙ ap (λ r. waits_in task r (list_at ((cur + suc d) % s) w.lists)) (sym turns)
          ∙ h
    ]

tick-next_wheel :
    (fuel : ℕ) (w : Wheel)
    → IsTurning fuel w
    → tick fuel w ≡ some (due (list_at w.current w.lists), next_wheel w)
tick-next_wheel fuel w t = tick-IsOnce fuel w (t.once w.current) (t.enough w.current)

is_run_now :
    (fuel task : ℕ) (w : Wheel)
    → IsTurning fuel w
    → Waits 0 task w
    → is_run task (due (list_at w.current w.lists)) ≡ true
is_run_now fuel task w t h =
    let shift : w.current + 0 ≡ w.current = omega arith in
    is_run-due task (list_at w.current w.lists) (
      ap (λ r. waits_in task r (list_at w.current w.lists)) (sym (zero-div w.slots))
      ∙ ap (λ i. waits_in task (0 / w.slots) (list_at i w.lists))
          (sym (ap (λ n. n % w.slots) shift ∙ mod-eq_of_lt t.inside))
      ∙ h)

tick_all-suc :
    (fuel n : ℕ) (w w1 w2 : Wheel) (first rest : List ℕ)
    → tick fuel w ≡ some (first, w1)
    → tick_all fuel n w1 ≡ some (rest, w2)
    → tick_all fuel (suc n) w ≡ some (first ++ rest, w2)
unfolding tick_all
tick_all-suc fuel n w w1 w2 first rest p q = rw (p, tick_all) (rw (q, tick_all) refl)

-- A task that is run by the tick that comes after `d` others.
abbrev pub RunsAfter : ℕ → ℕ → ℕ → Wheel → Type 0
RunsAfter fuel d task w =
    (before : List ℕ) × (last : List ℕ) × (w1 : Wheel) × (w2 : Wheel) × (tick_all fuel d w
      ≡ some (before, w1))
    × (tick fuel w1 ≡ some (last, w2))
    × (is_run task last ≡ true)

RunsAfter-Waits :
    (fuel d task : ℕ) (w : Wheel) → IsTurning fuel w → Waits d task w → RunsAfter fuel d task w
unfolding tick_all
RunsAfter-Waits fuel zero task w t h = (
  [],
  due (list_at w.current w.lists),
  w,
  next_wheel w,
  refl,
  tick-next_wheel fuel w t,
  is_run_now fuel task w t h,
)
RunsAfter-Waits fuel (suc d) task w t h =
    let (before, last, w1, w2, p, q, r) =
      RunsAfter-Waits fuel d task (next_wheel w) (next_wheel-IsTurning fuel w t)
        (next_wheel-Waits fuel d task w t h) in
    (
      due (list_at w.current w.lists) ++ before,
      last,
      w1,
      w2,
      tick_all-suc fuel d w (next_wheel w) w1 _ before (tick-next_wheel fuel w t) p,
      q,
      r,
    )

waits_in-append :
    (task rounds : ℕ) (is : List Item) (i : Item)
    → i.task ≡ task
    → i.remaining ≡ rounds
    → waits_in task rounds (is ++ i ∷ []) ≡ true
unfolding waits_in
waits_in-append task rounds [] i p q = ground arith
waits_in-append task rounds (j ∷ is) i p q = ground (arith, waits_in-append task rounds is i p q)

pub as_rounds_small : (n : ℕ) → n < 2 ^ 31 → as_rounds n ≡ n
as_rounds_small n h =
    let whole : n % 2 ^ 32 ≡ n = mod-eq_of_lt (omega (arith, h)) in
    let low : ltb n (2 ^ 31) ≡ true = ground arith in rw (whole, low) refl

-- A timer that runs once is run in time: in a wheel whose timers all run once, the task of a timer
-- that has been added is run by the tick that follows as many ticks as its timeout has whole units of
-- the granularity, and all these ticks end; where the whole turns that it waits for fit into an `int`,
-- and the number of its slot before the remainder is taken into 64 bits.
pub add_timer-RunsAfter :
    (fuel now timeout task : ℕ) (w : Wheel)
    → timeout / w.granularity / w.slots < 2 ^ 31
    → w.current + timeout / w.granularity < 2 ^ 64
    → IsTurning fuel (add_timer now timeout task (count 1) w)
    → RunsAfter fuel (timeout / w.granularity) task (add_timer now timeout task (count 1) w)
add_timer-RunsAfter fuel now timeout task w narrow low t =
    let d = timeout / w.granularity in
    let slot = (w.current + d) % 2 ^ 64 % w.slots in
    let place : slot ≡ (w.current + d) % w.slots = ap (λ n. n % w.slots) (mod-eq_of_lt low) in
    let sized : length w.lists ≡ w.slots = sym (length-set w.lists slot _) ∙ t.sized in
    let here : slot < w.slots = mod-lt ((w.current + d) % 2 ^ 64) (omega (arith, t.inside)) in
    let self : (slot == slot) ≡ true = ground arith in
    let found : list_at slot (add_timer now timeout task (count 1) w).lists
        ≡ list_at slot w.lists
          ++ record {
            remaining = as_rounds (d / w.slots);
            interval = as_int timeout;
            registered = now;
            times = count 1;
            task = task;
          }
            ∷ [] =
      list_at-set slot slot w.lists _ (omega (arith, here, sized)) ∙ rw self refl in
    RunsAfter-Waits fuel d task (add_timer now timeout task (count 1) w) t (
      ap
        (λ i.
          waits_in task (d / w.slots) (list_at i (add_timer now timeout task (count 1) w).lists))
        (sym place)
      ∙ ap (waits_in task (d / w.slots)) found
      ∙ waits_in-append task (d / w.slots) (list_at slot w.lists) _ refl
          (as_rounds_small (d / w.slots) narrow))
