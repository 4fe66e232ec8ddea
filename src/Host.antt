-- ===== src/Host.antt =====
-- src/host/: the host side of a channel.
pub mod Errors
pub mod Receiver
pub mod Options
pub mod Sender
pub mod InTask
pub mod StatusTask
pub mod HalfClose
pub mod OutTask
pub mod Interfaces
pub mod Connect
