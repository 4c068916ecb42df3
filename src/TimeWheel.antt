-- ===== src/TimeWheel.antt =====
-- src/timewheel.cc and src/include/timewheel.hh: the time wheel (`Wheel`), what one slot does when
-- its time has come (`Slot`), a timer over many ticks (`Places`, `Turns`, `Once`), and the time
-- until the next visit is due (`Next`, `Soonest`, `Left`).
pub mod Wheel
pub mod Slot
pub mod Places
pub mod Turns
pub mod Once
pub mod Left
pub mod Next
pub mod Soonest
mod Tests
