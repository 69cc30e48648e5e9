-- ===== src/Examples.antt =====
-- Runs of the models on concrete input. The stand-ins for the other crates are simple functions that
-- do what the crates document.
mod Crates
mod JsonText
mod Wire
mod Words
mod Utilities
mod Rendezvous
mod Handshake
mod Messages
mod Talk
mod Connections
mod Sockets
mod Files
mod Program
