-- ===== src/Keyring/Preflight.antt =====
-- crates/elanprint-keyring-setup/src/preflight.rs: what is in place before the keyring is set up. What
-- the machine answers to each question is a parameter; texts are lists of code points.
use elanprint_rs.Prelude.{
  ℕ, Bool, true, false, not, ◌==◌, List, [], ◌∷◌, ◌++◌, Option, none, some, Result, ok, err, any,
  if◌then◌else◌,
}
use elanprint_rs.Prelude.Text.{codes, trim}
use elanprint_rs.Prelude.Lines.{lines}
use elanprint_rs.Keyring.Stack.{is_our_line, is_keyring_auth, module_file}
use elanprint_rs.Keyring.Seal.Setup.{StackFile, fingerprint_stack, password_stack}

pub data Cred : Type 0 where
  present absent unreadable : Cred

-- `std::fs::metadata`: the file is there, it is not, or nobody may tell.
pub data Metadata : Type 0 where
  found not_found refused : Metadata

-- The machine: what `systemd-creds has-tpm2` and `dpkg-architecture` answer, none where they do not
-- start or do not succeed, the files that exist, and the texts that can be read.
pub record Site : Type 0 where
  pub has_tpm2 : Option Bool
  pub multiarch : Option (List ℕ)
  pub exists : List ℕ → Bool
  pub cred : Metadata
  pub stack_exists : StackFile → Bool
  pub stack_text : StackFile → Option (List ℕ)
  pub home : Option (List ℕ)

pub record Report : Type 0 where
  pub tpm : Bool
  pub pam_module : Option (List ℕ)
  pub cred : Cred
  pub fingerprint_wired : Bool
  pub password_wired : Bool
  pub keyring_present : Bool

-- The texts of `bail!`.
pub data NotReady : Type 0 where
  no_tpm no_module no_fingerprint_stack unreadable_stack no_keyring_line no_keyring : NotReady

unfoldable pub cred_state : Metadata → Cred
cred_state found = present
cred_state not_found = absent
cred_state refused = unreadable

tpm_usable : Option Bool → Bool
tpm_usable none = false
tpm_usable (some success) = success

-- The multiarch folder, "x86_64-linux-gnu" where the tool does not tell.
arch_of : Option (List ℕ) → List ℕ
arch_of none = codes "x86_64-linux-gnu"
arch_of (some out) = trim out

wired_text : Option (List ℕ) → Bool
wired_text none = false
wired_text (some text) = any is_our_line (lines text)

-- `Path::join` with a relative path.
join_path : List ℕ → List ℕ → List ℕ
join_path [] rest = rest
join_path (c ∷ []) rest = if c == b'/' then c ∷ rest else c ∷ b'/' ∷ rest
join_path (c ∷ d ∷ cs) rest = c ∷ join_path (d ∷ cs) rest

module _ (site : Site) where
  module_at : List ℕ → Option (List ℕ)
  module_at path = if site.exists path then some path else none

  unfoldable pub module_path : Option (List ℕ)
  unfolding module_at arch_of
  module_path =
      module_at
        (codes "/usr/lib/" ++ (arch_of site.multiarch ++ (codes "/security/" ++ module_file)))

  unfoldable pub wired : StackFile → Bool
  unfolding wired_text
  wired stack = wired_text (site.stack_text stack)

  -- `login_keyring`, where HOME is set.
  unfoldable pub login_keyring : Option (List ℕ)
  unfolding join_path
  login_keyring = elim site.home [
    | none ↦ none
    | some home ↦ some (join_path home (codes ".local/share/keyrings/login.keyring"))
  ]

  present_at : Option (List ℕ) → Bool
  present_at none = false
  present_at (some path) = site.exists path

  -- `report`.
  unfoldable pub report : Report
  unfolding tpm_usable present_at
  report = record {
    tpm = tpm_usable site.has_tpm2;
    pam_module = module_path;
    cred = cred_state site.cred;
    fingerprint_wired = wired fingerprint_stack;
    password_wired = wired password_stack;
    keyring_present = present_at login_keyring;
  }

  unfoldable pub keyring_line : StackFile → Result Bool NotReady
  keyring_line stack = elim (site.stack_text stack) [
    | none ↦ err unreadable_stack
    | some text ↦ ok (any is_keyring_auth (lines text))
  ]

  above_line : Result Bool NotReady → Bool → Result (Unit {0}) NotReady
  above_line (err e) has_keyring = err e
  above_line (ok false) has_keyring = err no_keyring_line
  above_line (ok true) has_keyring = if has_keyring then ok tt else err no_keyring

  has_module : Option (List ℕ) → Bool
  has_module none = false
  has_module (some path) = true

  -- `require_ready`.
  unfoldable pub require_ready : Report → Result (Unit {0}) NotReady
  unfolding above_line has_module
  require_ready r =
      if not r.tpm
      then err no_tpm
      else if not (has_module r.pam_module)
      then err no_module
      else if not (site.stack_exists fingerprint_stack)
      then err no_fingerprint_stack
      else above_line (keyring_line fingerprint_stack) r.keyring_present
