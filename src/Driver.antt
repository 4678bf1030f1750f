-- ===== src/Driver.antt =====
-- src/CDCImpl.cpp and src/CDCImpl_Lin.cpp, the driver: commands out, messages in.
pub mod State
pub mod Command
pub mod Receive
pub mod Send
pub mod Exchange
pub mod Api
pub mod Stream
pub mod Sending
pub mod Encoding
pub mod Thread
pub mod Cycle
pub mod Stale
pub mod Windows
pub mod Calls
