-- ===== src/TimeWheel/Slot.antt =====
-- src/timewheel.cc: one slot of the wheel under `ExecuteTimeout`.
use native.Mathlib.Nat.{mod-eq_of_lt, mod-lt, div-eq_of_lt}
use mathlib.Core.Path.{ap₂}
use sylar_framework.Prelude.{
  ℕ, zero, suc, ◌+◌, ◌-◌, ◌/◌, ◌%◌, ◌≤◌, ◌<◌, ◌≡◌, refl, sym, ap, ◌∙◌, inl, inr, true, List, [],
  ◌∷◌, ◌++◌, some, arith, length, set, ◌^◌, append_assoc, append-nil, All, ◌==◌, if◌then◌else◌,
  Bool-cases,
}
use sylar_framework.TimeWheel.Wheel.{
  count, forever, Item, Lists, Wheel, list_at, spend, is_spent, ran, walk, moved_on, tick,
}

-- An item that runs once.
abbrev pub IsOnce : Item → Type 0
IsOnce item = item.times ≡ count 1

-- The tasks of the items whose rounds are used up, and the other items with one round less.
abbrev pub due : List Item → List ℕ
due [] = []
due (item ∷ items) = if item.remaining == 0 then item.task ∷ due items else due items

abbrev pub kept : List Item → List Item
kept [] = []
kept (item ∷ items) =
    if item.remaining == 0
    then kept items
    else record item { remaining = item.remaining - 1 } ∷ kept items

walk-IsOnce :
    (fuel slots granularity old next : ℕ) (seen todo : List Item) (lists : Lists)
    → All IsOnce todo
    → length todo ≤ fuel
    → walk fuel slots granularity old next seen todo lists
      ≡ some (due todo, set lists old (seen ++ kept todo))
unfolding walk spend is_spent
walk-IsOnce fuel slots granularity old next seen [] lists once enough =
    ap (λ l. some ([], set lists old l)) (sym (append-nil seen))
walk-IsOnce zero slots granularity old next seen (item ∷ todo) lists once enough =
    absurd (omega arith)
walk-IsOnce (suc fuel) slots granularity old next seen (item ∷ todo) lists once enough =
    elim (Bool-cases (item.remaining == 0)) [
      | inl up ↦
          rw (up, once.0)
            (ap (ran item.task)
              (walk-IsOnce fuel slots granularity old next seen todo lists once.1 (omega arith)))
      | inr later ↦
          let item' : Item = record item { remaining = item.remaining - 1 } in
          rw later (
            walk-IsOnce fuel slots granularity old next (seen ++ item' ∷ []) todo lists once.1
              (omega arith)
            ∙ ap (λ l. some (due todo, set lists old l))
                (append_assoc seen (item' ∷ []) (kept todo)))
    ]

-- A tick at a slot whose items run once each ends after one visit to each item: it runs those that
-- have no rounds left, in their order, drops them, takes one round from each of the others, leaves
-- every other slot alone and moves on to the next slot.
pub tick-IsOnce :
    (fuel : ℕ) (w : Wheel)
    → All IsOnce (list_at w.current w.lists)
    → length (list_at w.current w.lists) ≤ fuel
    → tick fuel w
      ≡ some (
        due (list_at w.current w.lists),
        record w {
          lists = set w.lists w.current (kept (list_at w.current w.lists));
          current = (w.current + 1) % w.slots;
        },
      )
unfolding tick
tick-IsOnce fuel w once enough = ap (moved_on w) (
    walk-IsOnce fuel w.slots w.granularity w.current ((w.current + 1) % w.slots) []
      (list_at w.current w.lists) w.lists once enough)

walk_repeated :
    (fuel slots granularity old next : ℕ) (item : Item) (lists : Lists)
    → item.interval / granularity < slots
    → next < slots
    → slots ≤ 2 ^ 64
    → walk
        (suc fuel)
        slots
        granularity
        old
        next
        []
        (record item { remaining = 0; times = forever } ∷ [])
        lists
      ≡ some (item.task ∷ [], set lists old (record item { remaining = 0; times = forever } ∷ []))
unfolding walk spend is_spent
walk_repeated fuel slots granularity old next item lists short inside fits =
    let z : item.interval / granularity / slots ≡ 0 = div-eq_of_lt short in
    let e : next + 0 ≡ next = omega arith in
    let m : next % slots ≡ next = mod-eq_of_lt inside in
    let low : next % 2 ^ 64 ≡ next = mod-eq_of_lt (omega (arith, inside, fits)) in
    let same : (next == next) ≡ true = ground arith in rw (z, e, low, m, same) refl

-- An item that repeats for ever with an interval of less than one turn of the wheel, alone in its
-- slot and with no rounds left, is run by a tick and stays in that slot, with no rounds left,
-- whatever its interval is; the wheel has at most 2 ^ 64 slots.
pub tick_repeated :
    (fuel : ℕ) (w : Wheel) (item : Item)
    → list_at w.current w.lists ≡ item ∷ []
    → item.remaining ≡ 0
    → item.times ≡ forever
    → item.interval / w.granularity < w.slots
    → 0 < w.slots
    → w.slots ≤ 2 ^ 64
    → tick (suc fuel) w
      ≡ some (
        item.task ∷ [],
        record w { lists = set w.lists w.current (item ∷ []); current = (w.current + 1) % w.slots },
      )
unfolding tick
tick_repeated fuel w item alone up often short pos fits =
    let next = (w.current + 1) % w.slots in
    let e : item ≡ record item { remaining = 0; times = forever } =
      ap₂ (λ r t. record item { remaining = r; times = t }) up often in
    ap (λ l. moved_on w (walk (suc fuel) w.slots w.granularity w.current next [] l w.lists))
      (alone ∙ ap (λ i. i ∷ []) e)
    ∙ ap (moved_on w) (
        walk_repeated fuel w.slots w.granularity w.current next item w.lists short
          (mod-lt (w.current + 1) pos) fits)
    ∙ ap
        (λ i.
          some
            (item.task ∷ [], record w { lists = set w.lists w.current (i ∷ []); current = next }))
        (sym e)
