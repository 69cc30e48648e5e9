-- ===== src/Core.antt =====
-- src/core.rs and src/core/: the client-server and the client-client protocol.
pub mod Names
pub mod Code
pub mod Wordlist
pub mod Json
pub mod Messages
pub mod Rendezvous
pub mod Crypto
pub mod Key
pub mod Wormhole
pub mod Connect
