-- ===== src/Address.antt =====
-- src/address.cc and src/include/address.hh: prefix masks (`Mask`), the parsing of a host and service
-- and the lookups (`Lookup`), and addresses with their ports and texts (`IpAddress`).
pub mod Mask
pub mod IpAddress
pub mod Lookup
pub mod Hosts
pub mod Ports
pub mod Found
mod Tests
