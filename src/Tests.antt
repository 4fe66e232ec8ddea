-- ===== src/Tests.antt =====
-- Runs of the model on concrete inputs.
mod Usb
mod Codec
mod Device
mod Task
mod Host
mod Channel
mod Examples
mod Web
mod Cli
mod Tools
mod Print
mod Programs
