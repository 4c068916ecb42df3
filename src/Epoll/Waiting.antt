-- ===== src/Epoll/Waiting.antt =====
-- src/coroutine.cc: how long `Eventloop` lets epoll wait for the timers.
use sylar_framework.Prelude.{ℕ, ◌+◌, ◌≤◌, ◌<◌, ◌≡◌, ◌≢◌, refl, List, ◌∷◌, length, arith}
use sylar_framework.TimeWheel.Wheel.{Item, Wheel, list_at}
use sylar_framework.TimeWheel.Next.{trigger, get_next_timeout}
use sylar_framework.TimeWheel.Soonest.{get_next_timeout_bounds}
use sylar_framework.Epoll.Loop.{wait_time}

wait_time_none : (interval : ℕ) → interval ≡ 0 → wait_time interval ≡ 1000
unfolding wait_time
wait_time_none interval e = rw (wait_time, e) refl

-- A first item of a slot that is due at this very millisecond makes `GetNextTimeout` return 0, which
-- the loop takes for no timer at all: it waits for a whole second.
pub wait_time_due :
    (now : ℕ) (w : Wheel) (j : ℕ) (item : Item) (rest : List Item)
    → length w.lists ≡ w.slots
    → w.current < w.slots
    → j < w.slots
    → list_at j w.lists ≡ item ∷ rest
    → trigger now item ≡ 0
    → wait_time (get_next_timeout now w) ≡ 1000
wait_time_due now w j item rest s c h e d =
    let low = (get_next_timeout_bounds now w s c).0 j item rest h e in
    wait_time_none (get_next_timeout now w) (omega (arith, low, d))

-- The loop never waits for less than 2 milliseconds or more than 1000, and where `GetNextTimeout` is
-- not 0 it wakes at most one millisecond after the time left to the first item of any slot.
pub wait_time_bounds :
    (now : ℕ) (w : Wheel)
    → length w.lists ≡ w.slots
    → w.current < w.slots
    → (2 ≤ wait_time (get_next_timeout now w))
      × (wait_time (get_next_timeout now w) ≤ 1000)
      × ((j : ℕ) (item : Item) (rest : List Item)
          → get_next_timeout now w ≢ 0
          → j < w.slots
          → list_at j w.lists ≡ item ∷ rest
          → wait_time (get_next_timeout now w) ≤ trigger now item + 1)
unfolding wait_time
wait_time_bounds now w s c = (
  ground arith,
  ground arith,
  λ j item rest n h e.
      let low = (get_next_timeout_bounds now w s c).0 j item rest h e in ground (arith, low, n),
)
