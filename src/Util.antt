-- ===== src/Util.antt =====
-- src/util.rs: the counters that serve as nonces, hashcash minting, and bytes in a
-- log.
pub mod Counter
pub mod Hashcash
pub mod Display
