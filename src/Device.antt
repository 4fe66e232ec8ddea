-- ===== src/Device.antt =====
-- src/device.rs: the device side of a channel.
pub mod Sender
pub mod Receiver
pub mod OutTask
pub mod InTask
pub mod Task
pub mod Function
