-- ===== src/Epoll/Wrappers.antt =====
-- src/hook.cc: the system calls that are wrapped, and the hooked `sleep` and `usleep` on the wheel.
use sylar_framework.Prelude.{ℕ, ◌/◌, ◌+◌, ◌^◌, ◌<◌, ◌≡◌, refl, ◌⊎◌, inl, inr, Bool, List, Option}
use sylar_framework.TimeWheel.Wheel.{Wheel, count, add_timer}
use sylar_framework.TimeWheel.Turns.{IsTurning}
use sylar_framework.TimeWheel.Once.{RunsAfter, add_timer-RunsAfter}
use sylar_framework.Epoll.Events.{Interest}
use sylar_framework.Epoll.Hook.{Call, Io, do_io, sleep_time, usleep_time, read_only, write_only}

pub data SystemCall : Type 0 where
  call_read call_readv call_recv call_recvfrom call_recvmsg : SystemCall
  call_write call_writev call_send call_sendto call_sendmsg : SystemCall

-- The function that a wrapper hands to `do_io`, and the event that it waits for.
unfoldable pub wrapped_call : SystemCall → SystemCall × Interest
wrapped_call call_read = (call_read, read_only)
wrapped_call call_readv = (call_readv, read_only)
wrapped_call call_recv = (call_recv, read_only)
wrapped_call call_recvfrom = (call_recvfrom, read_only)
wrapped_call call_recvmsg = (call_recvmsg, read_only)
wrapped_call call_write = (call_write, write_only)
wrapped_call call_writev = (call_write, write_only)
wrapped_call call_send = (call_send, write_only)
wrapped_call call_sendto = (call_sendto, write_only)
wrapped_call call_sendmsg = (call_sendmsg, write_only)

-- A wrapper, on what its function returns each time.
unfoldable pub wrapper : SystemCall → Bool → ℕ → ℕ → ℕ → (SystemCall → List Call) → Option Io
unfolding wrapped_call do_io
wrapper c enabled fd co depth results =
    do_io enabled (record { fd = fd; event = (wrapped_call c).1; co = co; depth = depth })
      (results (wrapped_call c).0)

-- Every wrapper calls its own function, but that of `writev`, which calls `write`.
pub wrapped_call_own :
    (c : SystemCall)
    → ((wrapped_call c).0 ≡ c) ⊎ ((c ≡ call_writev) × ((wrapped_call c).0 ≡ call_write))
unfolding wrapped_call
wrapped_call_own call_read = inl refl
wrapped_call_own call_readv = inl refl
wrapped_call_own call_recv = inl refl
wrapped_call_own call_recvfrom = inl refl
wrapped_call_own call_recvmsg = inl refl
wrapped_call_own call_write = inl refl
wrapped_call_own call_writev = inr (refl, refl)
wrapped_call_own call_send = inl refl
wrapped_call_own call_sendto = inl refl
wrapped_call_own call_sendmsg = inl refl

-- `sleep` and `usleep` with the hook enabled: the timer resumes the coroutine, which yields.
abbrev pub hooked_sleep : ℕ → ℕ → ℕ → Wheel → Wheel
hooked_sleep now seconds co w = add_timer now (sleep_time seconds) co (count 1) w

abbrev pub hooked_usleep : ℕ → ℕ → ℕ → Wheel → Wheel
hooked_usleep now usec co w = add_timer now (usleep_time usec) co (count 1) w

-- On a wheel whose timers all run once, a coroutine that sleeps is resumed by the tick that follows as
-- many ticks as its time has whole units of the granularity, where the turns and the slot of its
-- timer fit.
pub hooked_sleep-RunsAfter :
    (fuel now seconds co : ℕ) (w : Wheel)
    → sleep_time seconds / w.granularity / w.slots < 2 ^ 31
    → w.current + sleep_time seconds / w.granularity < 2 ^ 64
    → IsTurning fuel (hooked_sleep now seconds co w)
    → RunsAfter fuel (sleep_time seconds / w.granularity) co (hooked_sleep now seconds co w)
hooked_sleep-RunsAfter fuel now seconds co w narrow low t =
    add_timer-RunsAfter fuel now (sleep_time seconds) co w narrow low t
