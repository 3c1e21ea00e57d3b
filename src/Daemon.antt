-- ===== src/Daemon.antt =====
-- crates/elanprintd: the daemon. `Machine` is its state with what lies around it, `Exec` the chain of
-- its fallible steps, `Worker` the operations on the sensor, `Access` the permission check.
pub mod Access
pub mod Machine
pub mod Exec
pub mod Worker
pub mod Service
