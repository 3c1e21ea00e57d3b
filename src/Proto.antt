-- ===== src/Proto.antt =====
-- crates/elanprint-proto: the commands of the sensor, their replies and the enrollment machine.
pub mod Status
pub mod Command
pub mod Response
pub mod Enroll
