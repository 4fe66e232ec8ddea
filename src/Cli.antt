-- ===== src/Cli.antt =====
-- src/bin/upc.rs: the command-line tool.
pub mod Hex
pub mod Devices
pub mod Select
pub mod Sender
pub mod Forward
pub mod Output
pub mod Scan
pub mod Commands
pub mod Texts
pub mod Print
pub mod Main
pub mod DeviceCmd
