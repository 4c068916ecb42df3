-- ===== src/Epoll.antt =====
-- src/epoll.cc, src/include/epoll.hh and the part of src/coroutine.cc and src/hook.cc that use it:
-- the table of registered descriptors (`Events`), the interest list of the kernel (`Kernel`), what
-- the event loop runs (`Loop`), the system calls that are wrapped (`Hook`, `Blocked`), how long the
-- event loop waits for the timers (`Waiting`), and which calls the wrappers make (`Wrappers`).
pub mod Events
pub mod Kernel
pub mod Loop
pub mod Hook
pub mod Blocked
pub mod Waiting
pub mod Wrappers
mod Tests
