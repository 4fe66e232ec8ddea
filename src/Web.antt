-- ===== src/Web.antt =====
-- src/host/web.rs: the host side over WebUSB.
pub mod Errors
pub mod Interfaces
pub mod HalfClose
pub mod InTask
pub mod OutTask
pub mod StatusTask
pub mod Barrier
pub mod Connect
