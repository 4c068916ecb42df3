-- ===== src/Socket.antt =====
-- src/socket.cc and src/include/socket.hh: sockets over the results of the system calls (`Calls`), and
-- which descriptors they own (`Owned`).
pub mod Calls
pub mod Owned
mod Tests
