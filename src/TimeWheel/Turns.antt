-- ===== src/TimeWheel/Turns.antt =====
-- src/timewheel.cc: what a tick leaves of a wheel whose timers run once.
use native.Mathlib.Nat.{mod-lt}
use mathlib.Core.Path.{subst}
use sylar_framework.Prelude.{
  ℕ, zero, suc, ◌+◌, ◌/◌, ◌%◌, ◌≤◌, ◌<◌, ◌≡◌, refl, sym, ap, ◌∙◌, inl, inr, Bool, true, false, ◌&&◌,
  ◌||◌, List, [], ◌∷◌, arith, length, set, length-set, All, ◌==◌, if◌then◌else◌, Bool-cases,
}
use sylar_framework.TimeWheel.Wheel.{Item, Lists, Wheel, list_at}
use sylar_framework.TimeWheel.Slot.{IsOnce, due, kept}

-- Whether a task is in a slot with so many rounds to go, and whether it is one of those that are run.
unfoldable pub waits_in : ℕ → ℕ → List Item → Bool
waits_in task rounds [] = false
waits_in task rounds (i ∷ is) = (i.task == task && i.remaining == rounds) || waits_in task rounds is

unfoldable pub is_run : ℕ → List ℕ → Bool
is_run task [] = false
is_run task (t ∷ ts) = t == task || is_run task ts

pub is_run-due :
    (task : ℕ) (is : List Item) → waits_in task 0 is ≡ true → is_run task (due is) ≡ true
unfolding waits_in is_run
is_run-due task (i ∷ is) h = ground (arith, is_run-due task is)
is_run-due task [] h = cc h

pub waits_in-kept :
    (task rounds : ℕ) (is : List Item)
    → waits_in task (suc rounds) is ≡ true
    → waits_in task rounds (kept is) ≡ true
unfolding waits_in
waits_in-kept task rounds (i ∷ is) h = ground (arith, waits_in-kept task rounds is)
waits_in-kept task rounds [] h = cc h

kept-IsOnce : (is : List Item) → All IsOnce is → All IsOnce (kept is)
kept-IsOnce [] h = tt
kept-IsOnce (i ∷ is) h = elim (Bool-cases (i.remaining == 0)) [
  | inl e ↦ rw e (kept-IsOnce is h.1)
  | inr e ↦ rw e (h.0, kept-IsOnce is h.1)
]

length-kept : (is : List Item) → length (kept is) ≤ length is
length-kept [] = omega arith
length-kept (i ∷ is) = ground (arith, length-kept is)

pub list_at-set :
    (i j : ℕ) (ls : Lists) (l : List Item)
    → j < length ls
    → list_at i (set ls j l) ≡ (if i == j then l else list_at i ls)
unfolding list_at
list_at-set i j [] l h = absurd (omega arith)
list_at-set zero zero (k ∷ ls) l h = refl
list_at-set (suc i) zero (k ∷ ls) l h = ground arith
list_at-set zero (suc j) (k ∷ ls) l h = ground arith
list_at-set (suc i) (suc j) (k ∷ ls) l h = list_at-set i j ls l (omega arith) ∙ ground arith

-- What a tick leaves, where all timers of the current slot run once.
abbrev pub next_wheel : Wheel → Wheel
next_wheel w = record w {
  lists = set w.lists w.current (kept (list_at w.current w.lists));
  current = (w.current + 1) % w.slots;
}

-- A wheel whose timers run once, no more of them in a slot than there is fuel for.
pub record IsTurning (fuel : ℕ) (w : Wheel) : Type 0 where
  pub inside : w.current < w.slots
  pub sized : length w.lists ≡ w.slots
  pub once : (i : ℕ) → All IsOnce (list_at i w.lists)
  pub enough : (i : ℕ) → length (list_at i w.lists) ≤ fuel

-- A task that is to be run after so many ticks.
abbrev pub Waits : ℕ → ℕ → Wheel → Type 0
Waits d task w = waits_in task (d / w.slots) (list_at ((w.current + d) % w.slots) w.lists) ≡ true

list_at_next :
    (fuel i : ℕ) (w : Wheel)
    → IsTurning fuel w
    → list_at i (next_wheel w).lists
      ≡ (if i == w.current then kept (list_at w.current w.lists) else list_at i w.lists)
list_at_next fuel i w t = list_at-set i w.current w.lists _ (omega (arith, t.inside, t.sized))

pub list_at_here :
    (fuel i : ℕ) (w : Wheel)
    → IsTurning fuel w
    → (i == w.current) ≡ true
    → list_at i (next_wheel w).lists ≡ kept (list_at w.current w.lists)
list_at_here fuel i w t e = list_at_next fuel i w t ∙ rw e refl

pub list_at_there :
    (fuel i : ℕ) (w : Wheel)
    → IsTurning fuel w
    → (i == w.current) ≡ false
    → list_at i (next_wheel w).lists ≡ list_at i w.lists
list_at_there fuel i w t e = list_at_next fuel i w t ∙ rw e refl

pub next_wheel-IsTurning : (fuel : ℕ) (w : Wheel) → IsTurning fuel w → IsTurning fuel (next_wheel w)
next_wheel-IsTurning fuel w t = record {
  inside = mod-lt (w.current + 1) (omega (arith, t.inside));
  sized = length-set w.lists w.current _ ∙ t.sized;
  once = λ i. elim (Bool-cases (i == w.current)) [
    | inl e ↦
        subst (All IsOnce) (sym (list_at_here fuel i w t e))
          (kept-IsOnce (list_at w.current w.lists) (t.once w.current))
    | inr e ↦ subst (All IsOnce) (sym (list_at_there fuel i w t e)) (t.once i)
  ];
  enough = λ i. elim (Bool-cases (i == w.current)) [
    | inl e ↦ omega (
      arith,
      ap length (list_at_here fuel i w t e),
      length-kept (list_at w.current w.lists),
      t.enough w.current,
    )
    | inr e ↦ omega (arith, ap length (list_at_there fuel i w t e), t.enough i)
  ];
}
