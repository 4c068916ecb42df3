-- ===== src/TimeWheel/Next.antt =====
-- src/timewheel.cc: `GetNextTimeout`, with the 64 bits of its differences.
use sylar_framework.Prelude.{
  ℕ, zero, suc, ◌+◌, ◌-◌, ◌%◌, ◌^◌, min, List, [], ◌∷◌, length, ltb, ◌==◌, if◌then◌else◌,
}
use sylar_framework.TimeWheel.Wheel.{Item, Wheel, list_at}

-- The difference of two `uint64_t`.
abbrev pub minus64 : ℕ → ℕ → ℕ
minus64 a b = (a + (2 ^ 64 - b % 2 ^ 64)) % 2 ^ 64

-- `INT64_MAX`.
abbrev pub int64_max : ℕ
int64_max = 2 ^ 63 - 1

unfoldable pub trigger : ℕ → Item → ℕ
trigger now item = minus64 item.interval (minus64 now item.registered)

-- The first item of a list alone counts.
unfoldable pub closer : ℕ → List Item → ℕ → ℕ
unfolding trigger
closer now [] dis = dis
closer now (item ∷ rest) dis = min dis (trigger now item)

-- `n` more rounds of the loop, from round `i` on.
unfoldable pub closest : ℕ → Wheel → ℕ → ℕ → ℕ → ℕ
unfolding closer
closest now w zero i dis = dis
closest now w (suc n) i dis =
    closest now w n (suc i) (closer now (list_at ((w.current + i) % w.slots) w.lists) dis)

unfoldable pub get_next_timeout : ℕ → Wheel → ℕ
unfolding closest
get_next_timeout now w =
    let dis = closest now w (length w.lists) 0 int64_max in
    if ltb now w.last_trigger then 0 else if dis == int64_max then 0 else dis
