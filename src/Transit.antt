-- ===== src/Transit.antt =====
-- src/transit.rs: a connection between the two clients, directly or over a relay.
pub mod Hints
pub mod Dial
pub mod Init
pub mod Url
pub mod Stun
pub mod Socket
pub mod Record
pub mod Records
pub mod Replay
pub mod Handshake
pub mod Agreement
pub mod Connect
pub mod Choice
pub mod Attempts
