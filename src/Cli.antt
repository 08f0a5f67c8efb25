-- ===== src/Cli.antt =====
-- src/cli.rs, one module for each part of it.
pub mod LineEditor
pub mod Words
pub mod Listing
pub mod Commands
pub mod ChannelCommands
pub mod Loop
pub mod Language
