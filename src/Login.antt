-- ===== src/Login.antt =====
-- crates/elanprint-login: the window that enrolls and tests fingers, over the daemon's interface.
pub mod Copy
pub mod Client
pub mod KeyringTab
pub mod App
