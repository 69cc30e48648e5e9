-- ===== src/Transfer.antt =====
-- src/transfer.rs and src/transfer/messages.rs: sending a file or a folder over a
-- wormhole.
pub mod Messages
pub mod Hints
pub mod Records
pub mod Stream
pub mod Session
pub mod Send
pub mod Receive
pub mod Folder
