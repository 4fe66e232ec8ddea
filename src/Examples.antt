-- ===== src/Examples.antt =====
-- examples/: the two programs that send each other test packets.
pub mod TestData
pub mod Halves
pub mod Laws
pub mod Programs
