-- ===== src/Keyring.antt =====
-- crates/elanprint-keyring-setup and crates/pam-elanprint-keyring: the login keyring that a
-- fingerprint opens. `Stack` edits the PAM configuration, `Seal` keeps the secret, `Unlock` is the
-- module that hands it to the keyring at a login.
pub mod Stack
pub mod Seal
pub mod Preflight
pub mod Unlock
