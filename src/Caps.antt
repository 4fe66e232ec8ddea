-- ===== src/Caps.antt =====
-- src/lib.rs: the capabilities that the two sides exchange before a connection is opened.
pub mod Device
pub mod Host
pub mod DeviceLaws
pub mod Typed
pub mod HostLaws
