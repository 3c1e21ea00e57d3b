-- ===== src/Daemon/Worker.antt =====
-- crates/elanprintd/src/worker.rs: the operations of `Worker`.
pub mod Device
pub mod Terminal
pub mod Verify
pub mod EnrollOp
pub mod Erase
pub mod Kept
