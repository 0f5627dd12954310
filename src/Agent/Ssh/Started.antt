-- ===== src/Agent/Ssh/Started.antt =====
-- What `ssh.manage` may start.
pub mod Keys
pub mod Sshd
pub mod Requests
use tenodera.Prelude.{
  ◌≡◌, refl, ◌⊎◌, Bool, true, false, not, ◌&&◌, Option, none, some, List, [], ◌∷◌, ◌++◌, Text,
  if◌then◌else◌, nat_eq, text_eq, ◌==◌, codes,
}
use tenodera.Agent.Commands.{
  Call, Reply, output, error, done, as_root, fed, M, pipeline, sudo_as_user,
  sudo_stdin_write_as_user,
}
use tenodera.Agent.Commands.Gate.{
  by_sudo, Keeps, sudo_as_user-Keeps, sudo_stdin_write_as_user-Keeps,
}
use tenodera.Agent.Ssh.{parse_key_line, key_of, SshKey, holds_key, with_key, without_key, with_edit}
use tenodera.Agent.Ssh.Manage.{
  Account, SshHost, Answer, error_of, unless, authkeys, sshd_config, staged, known, install_args,
  chown_args, chmod_args,
}
use tenodera.Agent.Ssh.Sshd.{normalized, which, after, sshd_bin}

-- The edits of a file of keys. A key that is put in has the form of a key and is not there yet.
pub data Edited (content : Text) : Text → Type 0 where
  added :
      (key : Text) (k : SshKey)
      → parse_key_line key ≡ key_of k
      → holds_key content key ≡ false
      → Edited content (with_key content key)
  removed : (key : Text) → Edited content (without_key content key)
  edited :
      (old key : Text) (k : SshKey)
      → parse_key_line key ≡ key_of k
      → holds_key content old ≡ true
      → (not (key == old) && holds_key content key) ≡ false
      → Edited content (with_edit content old key)

module _ (w : SshHost) (operator password : Text) where
  abbrev pub writing : List Text → Text → Call
  writing args content =
      by_sudo operator password (codes "sh" ∷ codes "-c" ∷ pipeline w.host args content ∷ [])

  abbrev pub IsFine : Reply → Type 0
  IsFine (output s cut) = Unit
  IsFine (error e) = ⊥
  IsFine done = Unit

  -- A content was staged, and sshd's check of it under the operator's sudo succeeded.
  abbrev pub Checked : Text → Type 0
  Checked content =
      (before log : List Call) × (found : Bool) × (w.stage before (normalized content) ≡ none)
      × IsFine
          (sudo_as_user w.host operator password
            ((if found then codes "sshd" else codes "/usr/sbin/sshd")
              ∷ codes "-t"
              ∷ codes "-f"
              ∷ staged
              ∷ [])
            log).0

  -- The names of sshd's unit.
  abbrev pub IsUnit : Text → Type 0
  IsUnit unit = (unit ≡ codes "sshd") ⊎ (unit ≡ codes "ssh")

  -- The processes of an operator who has an account.
  pub data Started (user content : Text) : Call → Type 0 where
    asked_keygen :
        (key : Text)
        → Started user content (
            fed
              (codes "ssh-keygen" ∷ codes "-l" ∷ codes "-f" ∷ codes "/dev/stdin" ∷ [])
              (key ++ b'\n' ∷ []))
    made_directory :
        (a : Account)
        → w.account user ≡ some a
        → Started user content (by_sudo operator password (install_args a))
    wrote_keys :
        (a : Account) (log : List Call) (edit : Text)
        → w.account user ≡ some a
        → Edited (w.read log (authkeys a)) edit
        → Started user content (writing (codes "tee" ∷ authkeys a ∷ []) edit)
    set_owner :
        (a : Account)
        → w.account user ≡ some a
        → Started user content (by_sudo operator password (chown_args a))
    set_mode :
        (a : Account)
        → w.account user ≡ some a
        → Started user content (by_sudo operator password (chmod_args a))
    looked_for_sshd : Started user content (as_root (codes "which" ∷ codes "sshd" ∷ []))
    checked_config :
        (log : List Call) (found : Bool)
        → w.stage log (normalized content) ≡ none
        → Started user content (
            by_sudo operator password (
              (if found then codes "sshd" else codes "/usr/sbin/sshd")
              ∷ codes "-t"
              ∷ codes "-f"
              ∷ staged
              ∷ []))
    kept_config :
        Checked content
        → Started user content (
            by_sudo operator password
              (codes "cp" ∷ sshd_config ∷ (sshd_config ++ codes ".tenodera.bak") ∷ []))
    wrote_config :
        Checked content
        → Started user content (writing (codes "tee" ∷ sshd_config ∷ []) (normalized content))
    asked_unit :
        (unit : Text)
        → Checked content
        → IsUnit unit
        → Started user content (as_root (codes "systemctl" ∷ codes "is-active" ∷ unit ∷ []))
    reloaded_unit :
        (unit : Text)
        → Checked content
        → IsUnit unit
        → Started user content
            (by_sudo operator password (codes "systemctl" ∷ codes "reload" ∷ unit ∷ []))

  module _ (user content : Text) where
    abbrev P : Call → Type 0
    P = Started user content

    pub unless-Keeps : (o : Option Text) (m : M (Option Text)) → Keeps P m → Keeps P (unless o m)
    unless-Keeps none m km log h = km log h
    unless-Keeps (some e) m km log h = h

    pub error_of-IsFine : (r : Reply) → error_of r ≡ none → IsFine r
    error_of-IsFine (output s cut) e = tt
    error_of-IsFine (error m) e = absurd (some≢none m e)
      where
        some≢none : (m : Text) → some m ≡ none → ⊥
        some≢none m e = cc
    error_of-IsFine done e = tt

    pub after-Keeps :
        (o : Option Text) (prefix : Text) (m : M Answer)
        → (o ≡ none → Keeps P m)
        → Keeps P (after o prefix m)
    after-Keeps none prefix m km log h = km refl log h
    after-Keeps (some e) prefix m km log h = h

    pub sudo-Keeps :
        (args : List Text)
        → P (by_sudo operator password args)
        → Keeps P (sudo_as_user w.host operator password args)
    sudo-Keeps args p = sudo_as_user-Keeps P w.host operator password args (λ known. p)

    pub tee-Keeps :
        (path edit : Text)
        → P (writing (codes "tee" ∷ path ∷ []) edit)
        → Keeps P (sudo_stdin_write_as_user w.host operator password (codes "tee" ∷ path ∷ []) edit)
    tee-Keeps path edit p =
        sudo_stdin_write_as_user-Keeps P w.host operator password (codes "tee" ∷ path ∷ []) edit
          (λ known. p)
