-- ===== src/Channel.antt =====
-- Both sides and the wire between them: the packets that one side sends are those that the other
-- side receives.
pub mod ToHost
pub mod Tools
pub mod Examples
pub mod Programs
pub mod ToDevice
pub mod Loss
