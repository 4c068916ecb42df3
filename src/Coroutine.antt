-- ===== src/Coroutine.antt =====
-- src/coroutine.cc and src/include/coroutine.hh: the scheduler of a thread (`Schedule`), what its
-- states have in common (`Reach`), how coroutines call one another (`Nested`), and the memory that
-- coroutines share for their stacks (`Shared`).
pub mod Schedule
pub mod Reach
pub mod Nested
pub mod Shared
mod Tests
