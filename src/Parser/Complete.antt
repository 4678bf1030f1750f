-- ===== src/Parser/Complete.antt =====
-- What the parser makes of the messages that the device sends.
mod Walk
pub mod Async
pub mod Replies
