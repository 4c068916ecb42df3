-- ===== src/Locks.antt =====
-- src/include/mutex.hh: a scope lock over any mutex (`Scope`), and threads that take the lock which is
-- made of an atomic flag (`Cas`).
pub mod Scope
pub mod Cas
mod Tests
