-- ===== src/Agent/Ssh/Manage.antt =====
-- Keys are added, removed and edited by `ssh.manage`, with the commands that it starts.
use tenodera.Prelude.{
  ℕ, Bool, false, not, ◌&&◌, Option, none, some, List, [], ◌∷◌, ◌++◌, string_eq, Text, nat_eq,
  text_eq, ◌==◌, codes, if◌then◌else◌,
}
use tenodera.Std.Str.{trim}
use tenodera.Std.Number.{decimal}
use tenodera.Agent.Commands
use tenodera.Agent.Commands.{
  Host, as_root, fed, broken, timed_out, ◌>>=◌, exited, M, pure, Reply, output, error, done,
  perform, run_cmd, sudo_as_user, sudo_stdin_write_as_user, utf8_length,
}
use tenodera.Agent.Ssh.{
  Parsed, no_key, key_of, panics, SshKey, parse_key_line, holds_key, with_key, without_key,
  with_edit,
}

pub record Account : Type 0 where
  pub uid : ℕ
  pub gid : ℕ
  pub home : Text

-- The host with its accounts and files; what a file holds depends on what was started before.
pub record SshHost : Type 0 where
  pub host : Host
  -- `lookup_user`
  pub account : Text → Option Account
  -- `read_to_string(path).unwrap_or_default()`
  pub read : List Commands.Call → Text → Text
  -- the error of the write that stages a configuration
  pub stage : List Commands.Call → Text → Option Text

pub record LoginUser : Type 0 where
  pub name : Text
  pub uid : ℕ
  pub home : Text

-- The JSON that `ssh.manage` answers.
pub data Answer : Type 0 where
  denied : Answer
  refused : Text → Answer
  ok : Answer
  reloaded : Text → Answer
  users : List LoginUser → Answer
  keys : Text → Text → List SshKey → Answer
  config : Text → Answer
  -- a panic of the task
  stopped : Answer

abbrev pub error_of : Reply → Option Text
error_of (output s cut) = none
error_of (error e) = some e
error_of done = none

-- The next command, unless the last one failed.
abbrev pub unless : Option Text → M (Option Text) → M (Option Text)
unless (some e) m = pure (some e)
unless none m = m

abbrev pub finish_key : Option Text → Answer
finish_key (some e) = refused e
finish_key none = ok

abbrev pub ssh_dir : Account → Text
ssh_dir a = a.home ++ codes "/.ssh"

abbrev pub authkeys : Account → Text
authkeys a = ssh_dir a ++ codes "/authorized_keys"

abbrev pub sshd_config : Text
sshd_config = codes "/etc/ssh/sshd_config"

abbrev pub staged : Text
staged = codes "/run/tenodera-sshd-check.conf"

abbrev pub install_args : Account → List Text
unfolding decimal
install_args a =
    codes "install"
    ∷ codes "-d"
    ∷ codes "-m"
    ∷ codes "700"
    ∷ codes "-o"
    ∷ decimal a.uid
    ∷ codes "-g"
    ∷ decimal a.gid
    ∷ ssh_dir a
    ∷ []

abbrev pub chown_args : Account → List Text
unfolding decimal
chown_args a = codes "chown" ∷ (decimal a.uid ++ b':' ∷ decimal a.gid) ∷ authkeys a ∷ []

abbrev pub chmod_args : Account → List Text
chmod_args a = codes "chmod" ∷ codes "600" ∷ authkeys a ∷ []

abbrev pub at_account : (Account → M Answer) → Option Account → M Answer
at_account m none = pure (refused (codes "unknown user"))
at_account m (some a) = m a

module _ (w : SshHost) where
  -- The owner and the mode are both set before either is looked at.
  unfoldable pub hand_over : Text → Text → Account → M (Option Text)
  unfolding sudo_as_user
  hand_over operator password a = do
    owned ← sudo_as_user w.host operator password (chown_args a)
    closed ← sudo_as_user w.host operator password (chmod_args a)
    pure (elim (error_of owned) as (λ _. Option Text) [ none ↦ error_of closed | some e ↦ some e ])

  unfoldable pub write_keys : Text → Text → Account → Text → M (Option Text)
  unfolding sudo_stdin_write_as_user hand_over
  write_keys operator password a content = do
    wrote ←
        sudo_stdin_write_as_user w.host operator password (codes "tee" ∷ authkeys a ∷ []) content
    unless (error_of wrote) (hand_over operator password a)

  unfoldable pub apply_authkeys : Text → Text → Account → Text → M (Option Text)
  unfolding sudo_as_user write_keys
  apply_authkeys operator password a content = do
    mk ← sudo_as_user w.host operator password (install_args a)
    unless (error_of mk) (write_keys operator password a content)

  -- Whether ssh-keygen took the key.
  unfoldable pub key_fingerprint : Text → M Bool
  unfolding perform
  key_fingerprint key = do
    ending ← perform w.host (
        fed (codes "ssh-keygen" ∷ codes "-l" ∷ codes "-f" ∷ codes "/dev/stdin" ∷ [])
          (key ++ b'\n' ∷ []))
    pure (elim ending as (λ _. Bool) [
      | broken e ↦ false
      | timed_out ↦ false
      | exited success stdout stderr cut ↦ success
    ])

  unfoldable pub apply : Text → Text → Account → Text → M Answer
  unfolding apply_authkeys
  apply operator password a content = do
    failed ← apply_authkeys operator password a content
    pure (finish_key failed)

  abbrev pub read_keys : Account → M Text
  read_keys a log = (w.read log (authkeys a), log)

  unfoldable pub checked_as : Text → M Answer → Parsed → M Answer
  unfolding key_fingerprint
  checked_as key m no_key = pure (refused (codes "not a recognised SSH public key"))
  checked_as key m panics = pure stopped
  checked_as key m (key_of k) = do
    good ← key_fingerprint key
    (if good then m else pure (refused (codes "invalid SSH public key (ssh-keygen rejected it)")))

  -- The checks of a key that is given: its form, and what ssh-keygen says.
  unfoldable pub checked : Text → M Answer → M Answer
  unfolding parse_key_line checked_as
  checked key m = checked_as key m (parse_key_line key)

  abbrev pub known : Text → (Account → M Answer) → M Answer
  known user m = at_account m (w.account user)

  unfoldable pub append_key : Text → Text → Text → Account → M Answer
  unfolding apply with_key holds_key
  append_key operator password key a = do
    existing ← read_keys a
    (if holds_key existing key
        then pure (refused (codes "key already present"))
        else apply operator password a (with_key existing key))

  unfoldable pub add_key : Text → Text → Text → Text → M Answer
  unfolding checked append_key trim
  add_key user given operator password =
      let key = trim given in known user (λ a. checked key (append_key operator password key a))

  unfoldable pub remove_key : Text → Text → Text → Text → M Answer
  unfolding apply without_key trim
  remove_key user given operator password =
      known user (λ a. do
        content ← read_keys a
        apply operator password a (without_key content (trim given)))

  unfoldable pub replace_key : Text → Text → Text → Text → Account → M Answer
  unfolding apply with_edit holds_key
  replace_key operator password old key a = do
    content ← read_keys a
    (if not (holds_key content old)
        then pure (refused (codes "original key not found (reload and retry)"))
        else if not (key == old) && holds_key content key
        then pure (refused (codes "key already present"))
        else apply operator password a (with_edit content old key))

  unfoldable pub edit_key : Text → Text → Text → Text → Text → M Answer
  unfolding checked replace_key trim
  edit_key user given_old given_new operator password =
      let key = trim given_new in
      known user (λ a. checked key (replace_key operator password (trim given_old) key a))
