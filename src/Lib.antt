-- ===== src/Lib.antt =====
-- elanprint: fingerprint login with the sensor 04f3:0c90, under Linux.
--
-- The chip holds the templates and answers commands of a few bytes. The daemon holds the one handle
-- to it, a file that says which finger of which user lies in which of the chip's slots, and the
-- D-Bus interface that login programs call; a login program turns the daemon's signals into a grant
-- or a refusal. A template in the chip has no user, so the file alone says whose a match is.
--
-- Parts, and where each stands:
--   Prelude         what the models share: Boolean tests and lists over native numbers, results, text
--                   as code points (trim, parse, decimal), and a sorted map in place of BTreeMap.
--   Proto           crates/elanprint-proto. Status: the status byte (src/status.rs). Command and
--                   Response: what goes over the wire (src/lib.rs). Enroll: the enrollment machine
--                   (src/enroll.rs); a method that takes `&mut self` returns the new machine.
--   Algo            crates/elanprint-algo. Strings: statuses to fprintd's strings (src/status.rs).
--                   Policy (src/policy.rs) and Session (src/session.rs): a login attempt.
--   Store           crates/elanprint-store/src/lib.rs: the map (Store), the slots that an enrollment
--                   may write (Slots), the file (File), the report against the device (Reconcile).
--   Usb             crates/elanprint-usb: opening the sensor and one exchange with it.
--   Daemon          crates/elanprintd. Machine: the worker, the sink of an operation's events, and the
--                   environment. Exec: chains of fallible steps over them. Worker: the operations of
--                   src/worker.rs, by function: Device (claim, release, suspend, resume, list, round),
--                   Verify, EnrollOp, Erase; Terminal says when an operation has ended. Access:
--                   src/access.rs. Service: the D-Bus interface of src/main.rs with its errors
--                   (src/status.rs), as the steps of one interleaving of calls, spawned operations and
--                   sleep signals, against an abstract machine.
--   Keyring         crates/elanprint-keyring-setup and crates/pam-elanprint-keyring. Stack: the edits of
--                   a PAM stack (src/pam.rs). Preflight: the readiness report (src/preflight.rs). Seal:
--                   the sealed secret (src/seal.rs) and what sets it up and rotates it (src/lib.rs,
--                   src/main.rs). Unlock: the PAM module.
--   Login           crates/elanprint-login. Client: the runs over the bus (src/client.rs). App: the
--                   window's state, its buttons and its polling (src/app.rs); a button acts only under
--                   the tests that draw it enabled. KeyringTab: src/keyring_tab.rs and its buttons.
--   Cli             crates/elanprint-cli/src/main.rs: a command is a job over the log of what was sent
--                   and answered. Triple: preconditions and postconditions of jobs. Session: the wipe.
--                   Enroll and Sync: the commands of these names.
--   Tests           the theorems at concrete inputs.
--
-- How the code's values are modelled. A byte is a natural number, and each place where the code
-- computes with a machine word writes its bound: `collected + 1` is taken modulo 256, the count of
-- failures modulo 2^32, and parsing a number takes the largest value of its type. Bytes are lists of
-- numbers. Errors are values of a result type with the source's constructors. Text of errors that
-- only a person reads is left out.
--
-- What is not under the crates is a parameter: the JSON library (it reads back what it prints), the
-- file system (a save may stop at each of its calls, and a write may leave any text in the temporary
-- file), the USB library and the timers (each wait ends in any of the ways that the code tells apart),
-- `getent`, and the environment variable for the stages. Of the worker's environment, what the n-th
-- call answers is an arbitrary function of n.
--
-- Loops. A loop over a list is recursion on it. The loops of `verify` and `enroll` wait for touches
-- without a bound: their fuel is the number of rounds that the sensor is given, and a run that uses
-- it up is reported as still waiting, which is no result of the code. The waits of the tool's
-- enrollment have the same fuel, and a run of the window's client goes over the list of the signals
-- that it meets. The loop of a USB read goes over the list of what each of its waits meets. The
-- decimal printer's fuel is 20, the digits of 64 bits.
--
-- Two programs meet through their interface only: the window's client takes what the bus answers to
-- its n-th call, and the signals that it meets, as a parameter, and the tool takes the sensor's answers
-- so. The window's receivers are lists of what has come and is unread; tasks and threads are recorded
-- where they are spawned, and what they send is any event at any time.
--
-- Not modelled: of the window the drawing, the effects and the look for the sensor under /sys; of the
-- tool the probe command and the parsing of arguments; of the keyring setup the commands enable and
-- disable, which print and ask around the modelled steps, the calls of the keyring's bus and the start
-- of pkexec; of the USB crate the calls that only probe endpoints, reset the device or print bytes;
-- and all logging.
pub mod Prelude
pub mod Proto
pub mod Algo
pub mod Store
pub mod Usb
pub mod Daemon
pub mod Keyring
pub mod Login
pub mod Cli
pub mod Tests
