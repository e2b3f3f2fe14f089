-- ===== src/Cli.antt =====
-- cli/commanders: what the command line asks of the hub and prints.
pub mod Session
pub mod Flags
pub mod Setup
pub mod Commands
pub mod Main
pub mod Checkers
pub mod Upgrader
pub mod Preparer
pub mod Reporter
