-- ===== src/Examples.antt =====
-- The example programs (examples/): command-line clients of the public methods.
pub mod Device
pub mod Session
pub mod Trcnfg
pub mod Memory
pub mod Plugin
pub mod Lines
pub mod Uploads
pub mod Temperature
pub mod Requests
pub mod Received
pub mod Programmer
pub mod Programmed
