-- ===== src/Config.antt =====
-- src/config.cc and src/include/config.hh: the tree of a YAML file as a list of keys (`Yaml`), the
-- variables, their listeners and the table of variables (`Vars`), and what they are shown to do.
pub mod Yaml
pub mod Paths
pub mod Vars
pub mod Mirror
pub mod Names
pub mod Others
pub mod Cast
pub mod Ordered
pub mod Trips
pub mod Unordered
pub mod UnorderedMap
pub mod Confs
pub mod ConfTrips
pub mod SameConf
mod Codec
mod Tests
