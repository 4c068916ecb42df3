-- ===== src/TimeWheel/Left.antt =====
-- src/timewheel.cc: what `GetNextTimeout` returns, by the times at which the heads were registered.
use sylar_framework.Prelude.{
  ℕ, suc, zero, ◌+◌, ◌-◌, ◌^◌, ◌≤◌, ◌<◌, ◌≡◌, refl, ap, ◌∙◌, ◌⊎◌, inl, inr, false, List, [], ◌∷◌,
  length, Bool-cases, ltb, ◌==◌, arith, All,
}
use sylar_framework.TimeWheel.Wheel.{Item, Wheel, list_at}
use sylar_framework.TimeWheel.Next.{minus64, trigger, int64_max, get_next_timeout}
use sylar_framework.TimeWheel.Soonest.{scanned, scanned_le, closest-FromHead}

-- An item that is not registered in the future, with an interval of 64 bits.
abbrev pub IsPast : ℕ → Item → Type 0
IsPast now item = (item.registered ≤ now) × (item.interval < 2 ^ 64)

-- The first item of a list, if it has one.
abbrev pub HeadIsPast : ℕ → List Item → Type 0
HeadIsPast now [] = Unit
HeadIsPast now (item ∷ rest) = IsPast now item

-- The time left to an item: from now on to its interval after it was registered; for one that is
-- overdue, that difference in 64 bits.
abbrev pub IsLeft : ℕ → Item → ℕ → Type 0
IsLeft now item t =
    (t + now ≡ item.registered + item.interval)
    ⊎ ((t + now ≡ item.registered + item.interval + 2 ^ 64)
        × (item.registered + item.interval < now))

minus64_le : (a b : ℕ) → b ≤ a → a < 2 ^ 64 → minus64 a b ≡ a - b
minus64_le a b h g = omega (arith, h, g)

minus64_gt : (a b : ℕ) → a < b → b < 2 ^ 64 → minus64 a b ≡ a + 2 ^ 64 - b
minus64_gt a b h g = omega (arith, h, g)

trigger-IsLeft :
    (now : ℕ) (item : Item) → now < 2 ^ 64 → IsPast now item → IsLeft now item (trigger now item)
unfolding trigger
trigger-IsLeft now item h (past, fits) =
    let since : minus64 now item.registered ≡ now - item.registered =
      minus64_le now item.registered past h in
    let low : now - item.registered < 2 ^ 64 = omega (arith, h) in
    elim (Bool-cases (ltb (item.registered + item.interval) now)) [
      | inl e ↦
          let over : item.registered + item.interval < now = ground arith in
          let t =
            ap (minus64 item.interval) since
            ∙ minus64_gt item.interval (now - item.registered) (omega (arith, over, past)) low in
          inr (omega (arith, t, over, past, h), over)
      | inr e ↦
          let on : now ≤ item.registered + item.interval = ground arith in
          let t =
            ap (minus64 item.interval) since
            ∙ minus64_le item.interval (now - item.registered) (omega (arith, on, past)) fits in
          inl (omega (arith, t, on, past))
    ]

list_at-HeadIsPast :
    (now j : ℕ) (lists : List (List Item)) (item : Item) (rest : List Item)
    → All (HeadIsPast now) lists
    → list_at j lists ≡ item ∷ rest
    → IsPast now item
unfolding list_at
list_at-HeadIsPast now j [] item rest h e = cc e
list_at-HeadIsPast now zero (l ∷ ls) item rest h e = rw e at h.0
list_at-HeadIsPast now (suc j) (l ∷ ls) item rest h e = list_at-HeadIsPast now j ls item rest h.1 e

get_next_timeout-scanned :
    (now : ℕ) (w : Wheel)
    → w.last_trigger ≤ now
    → scanned now w < int64_max
    → get_next_timeout now w ≡ scanned now w
unfolding get_next_timeout
get_next_timeout-scanned now w h g =
    let late : ltb now w.last_trigger ≡ false = ground arith in
    let found : (scanned now w == int64_max) ≡ false = ground arith in rw (late, found) refl

-- What is left to the first item of some list.
abbrev pub IsNext : ℕ → Wheel → ℕ → Type 0
IsNext now w t =
    (j : ℕ) × (item : Item) × (rest : List Item) × (list_at j w.lists ≡ item ∷ rest)
    × IsLeft now item t

-- On a wheel with as many lists as slots, whose first items were all registered by `now`, and where
-- `now` is not before the last visit: when `u`, below `INT64_MAX`, is the time left to the first item of
-- some slot, then what `GetNextTimeout` returns is not above `u`, and is itself the time left to the
-- first item of some slot, taken in 64 bits for one that is overdue.
pub get_next_timeout-IsNext :
    (now : ℕ) (w : Wheel) (j u : ℕ) (item : Item) (rest : List Item)
    → length w.lists ≡ w.slots
    → w.current < w.slots
    → w.last_trigger ≤ now
    → now < 2 ^ 64
    → All (HeadIsPast now) w.lists
    → j < w.slots
    → list_at j w.lists ≡ item ∷ rest
    → u + now ≡ item.registered + item.interval
    → u < int64_max
    → (get_next_timeout now w ≤ u) × IsNext now w (get_next_timeout now w)
get_next_timeout-IsNext now w j u item rest sized inside late fits past here e left far =
    let low = scanned_le now w j item rest sized inside here e in
    let exact : trigger now item ≡ u =
      elim (trigger-IsLeft now item fits (list_at-HeadIsPast now j w.lists item rest past e)) [
        | inl on ↦ omega (arith, on, left)
        | inr (on, over) ↦ absurd (omega (arith, over, left))
      ] in
    let same = get_next_timeout-scanned now w late (omega (arith, low, exact, far)) in
    (
      omega (arith, same, low, exact),
      elim (closest-FromHead now w (length w.lists) 0 int64_max) [
        | inl f ↦ absurd (omega (arith, f, low, exact, far))
        | inr (k, first, others, at, t) ↦ (
          k,
          first,
          others,
          at,
          rw (same, t)
              (trigger-IsLeft now first fits
                (list_at-HeadIsPast now k w.lists first others past at)),
        )
      ],
    )
