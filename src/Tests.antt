-- ===== src/Tests.antt =====
-- The theorems at concrete inputs.
mod Proto
mod Algo
mod Store
mod Usb
mod Daemon
mod Service
mod Keyring
mod Login
mod Cli
