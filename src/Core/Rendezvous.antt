-- ===== src/Core/Rendezvous.antt =====
-- src/core/rendezvous.rs: the client's side of the rendezvous protocol.
pub mod Wire
pub mod Receive
pub mod Machine
pub mod Server
pub mod Setup
pub mod Fifo
pub mod Delivery
pub mod Waiting
pub mod Todo
pub mod Refinement
pub mod Protocol
pub mod Closing
pub mod Upcoming
