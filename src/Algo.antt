-- ===== src/Algo.antt =====
-- crates/elanprint-algo: what the daemon and the login screen make of the chip's answers.
pub mod Strings
pub mod Policy
pub mod Session
