-- ===== src/Parser.antt =====
-- src/CDCMessageParser.cpp, the automaton that splits the received bytes into messages.
pub mod Transitions
pub mod States
pub mod Special
pub mod Machine
pub mod Grammar
pub mod Extract
pub mod Sound
pub mod Complete
pub mod Readings
