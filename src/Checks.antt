-- ===== src/Checks.antt =====
-- The checks that are modelled from their options or their measurement to the exit.
pub mod Bonding
pub mod Clustat
pub mod Dummy
pub mod File
pub mod Memcached
pub mod Multipath
pub mod Nrped
pub mod Sockets
