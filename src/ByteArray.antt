-- ===== src/ByteArray.antt =====
-- src/bytearray.cc and src/include/bytearray.hh: a byte buffer kept in a linked list of blocks.
-- `Chain` is the list of blocks with its two cursors.
pub mod Chain
pub mod Content
pub mod Writing
pub mod Append
pub mod Reading
pub mod Ready
pub mod Fifo
pub mod Lost
pub mod Stream
pub mod Word
pub mod Varint
pub mod Fixed
pub mod ZigZag
pub mod Groups
pub mod Trip
mod Tests
