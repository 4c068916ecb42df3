-- ===== src/TimeWheel/Wheel.antt =====
-- src/timewheel.cc: `TimeWheel`. The clock is an argument. A callback, or the coroutine that is
-- resumed in its place, is a number, and running it adds the number to the result: callbacks that
-- call the wheel themselves are left out. `remaining_ticks_`
-- and `repeat_interval_` are an `int`, into which 64 bits are narrowed. A count of rounds that is
-- narrowed to a number below 0 stands as 0 here: both are run at the next visit, where the test for
-- less than 0 after the decrement is a test for 0 before it. (The decrement of the least `int`, which
-- has no defined result, is left out.)
use sylar_framework.Prelude.{
  ℕ, zero, suc, ◌+◌, ◌-◌, ◌/◌, ◌%◌, Bool, false, List, [], ◌∷◌, ◌++◌, Option, none, some, set,
  replicate, leb, ltb, ◌^◌, ◌==◌, if◌then◌else◌,
}

-- `repeat_count_`: any number below 0 means for ever.
pub data Times : Type 0 where
  forever : Times
  count : ℕ → Times

-- 64 bits that are narrowed to an `int`, seen as 64 bits again; and such a number as a count of
-- rounds.
abbrev pub as_int : ℕ → ℕ
as_int n = if ltb (n % 2 ^ 32) (2 ^ 31) then n % 2 ^ 32 else n % 2 ^ 32 + (2 ^ 64 - 2 ^ 32)

abbrev pub as_rounds : ℕ → ℕ
as_rounds n = if ltb (n % 2 ^ 32) (2 ^ 31) then n % 2 ^ 32 else 0

-- `TimeoutItem`, its interval as the 64 bits that every use converts it to.
pub record Item : Type 0 where
  pub remaining : ℕ
  pub interval : ℕ
  pub registered : ℕ
  pub times : Times
  pub task : ℕ

abbrev pub Lists : Type 0
Lists = List (List Item)

pub record Wheel : Type 0 where
  pub lists : Lists
  pub slots : ℕ
  pub granularity : ℕ
  pub last_trigger : ℕ
  pub current : ℕ

-- `TimeWheel::TimeWheel`.
abbrev pub create : ℕ → ℕ → ℕ → Wheel
create slots granularity now = record {
  lists = replicate slots [];
  slots = slots;
  granularity = granularity;
  last_trigger = now;
  current = 0;
}

unfoldable pub list_at : ℕ → Lists → List Item
list_at i [] = []
list_at zero (l ∷ ls) = l
list_at (suc i) (l ∷ ls) = list_at i ls

-- `wheel_[slot].emplace_back(item)`.
abbrev pub append_at : ℕ → Item → Lists → Lists
append_at i item lists = set lists i (list_at i lists ++ item ∷ [])

-- `AddTimer`.
abbrev pub add_timer : ℕ → ℕ → ℕ → Times → Wheel → Wheel
add_timer now timeout task times w =
    let item : Item = record {
      remaining = as_rounds (timeout / w.granularity / w.slots);
      interval = as_int timeout;
      registered = now;
      times = times;
      task = task;
    } in
    record w {
      lists = append_at ((w.current + timeout / w.granularity) % 2 ^ 64 % w.slots) item w.lists;
    }

-- `repeat_count_` after a run.
unfoldable pub spend : Times → Times
spend forever = forever
spend (count n) = count (n - 1)

unfoldable pub is_spent : Times → Bool
is_spent forever = false
is_spent (count n) = n == 0

-- The item for its next run.
abbrev pub rearm : ℕ → ℕ → Item → Item
rearm slots granularity item = record item {
  remaining = as_rounds (item.interval / granularity / slots);
  times = spend item.times;
}

abbrev pub ran : ℕ → Option (List ℕ × Lists) → Option (List ℕ × Lists)
ran task none = none
ran task (some (tasks, lists)) = some (task ∷ tasks, lists)

-- The walk over the list of slot `old`, with `next` the slot that the wheel has moved on to: the
-- items passed, and those to come. An item that is spliced into another slot, or to the end of its
-- own, sends the walk back to the start of the list; `none` is a walk that has used up its fuel.
unfoldable pub walk : ℕ → ℕ → ℕ → ℕ → ℕ → List Item → List Item → Lists → Option (List ℕ × Lists)
unfolding spend is_spent
walk fuel slots granularity old next seen [] lists = some ([], set lists old seen)
walk zero slots granularity old next seen (item ∷ todo) lists = none
walk (suc fuel) slots granularity old next seen (item ∷ todo) lists =
    let again = rearm slots granularity item in
    let target = (next + as_int (item.interval / granularity / slots)) % 2 ^ 64 % slots in
    let wait =
      walk fuel slots granularity old next
        (seen ++ record item { remaining = item.remaining - 1 } ∷ []) todo lists in
    let erase = walk fuel slots granularity old next seen todo lists in
    let stay = walk fuel slots granularity old next (seen ++ again ∷ []) todo lists in
    let to_end = walk fuel slots granularity old next [] (seen ++ (todo ++ again ∷ [])) lists in
    let move =
      walk fuel slots granularity old next [] (seen ++ todo) (append_at target again lists) in
    if item.remaining == 0
    then ran item.task (
        if is_spent again.times
        then erase
        else if target == next
        then stay
        else if target == old
        then to_end
        else move)
    else wait

-- The loop of `ExecuteTimeout`.
abbrev pub moved_on : Wheel → Option (List ℕ × Lists) → Option (List ℕ × Wheel)
moved_on w none = none
moved_on w (some (tasks, lists)) =
    some (tasks, record w { lists = lists; current = (w.current + 1) % w.slots })

unfoldable pub tick : ℕ → Wheel → Option (List ℕ × Wheel)
tick fuel w = moved_on w (
    walk fuel w.slots w.granularity w.current ((w.current + 1) % w.slots) []
      (list_at w.current w.lists) w.lists)

unfoldable pub tick_all : ℕ → ℕ → Wheel → Option (List ℕ × Wheel)
tick_all fuel zero w = some ([], w)
tick_all fuel (suc n) w = elim (tick fuel w) [
  | none ↦ none
  | some (tasks, w') ↦ elim (tick_all fuel n w') [
    | none ↦ none
    | some (more, w'') ↦ some (tasks ++ more, w'')
  ]
]

-- `ExecuteTimeout`, with fuel for each walk.
unfoldable pub execute_timeout : ℕ → ℕ → Wheel → Option (List ℕ × Wheel)
execute_timeout fuel now w =
    if leb now w.last_trigger
    then some ([], w)
    else elim (tick_all fuel ((now - w.last_trigger) / w.granularity) w) [
      | none ↦ none
      | some (tasks, w') ↦ some (tasks, record w' { last_trigger = now })
    ]
