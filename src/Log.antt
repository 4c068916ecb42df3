-- ===== src/Log.antt =====
-- src/log.cc and src/include/log.hh: levels, the pattern of a formatter, what it prints, and the
-- loggers with the files that they write (`Files`).
pub mod Level
pub mod Formatter
pub mod Pattern
pub mod Total
pub mod Loggers
pub mod Update
pub mod Files
mod Tests
