-- ===== src/Cli.antt =====
-- The command line program: src/bin/main.rs and src/bin/util.rs.
pub mod Terminal
pub mod Paths
pub mod Desk
pub mod Receive
pub mod Connect
pub mod Send
pub mod Main
