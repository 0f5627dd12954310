-- ===== src/Agent/Ssh/Sshd.antt =====
-- The replacement of sshd_config by `ssh.manage`.
use tenodera.Prelude.{
  ◌*◌, Bool, false, Option, none, some, List, [], ◌∷◌, ◌++◌, string_eq, Text, nat_eq, text_eq, ◌==◌,
  ltb, is_empty, codes, if◌then◌else◌,
}
use tenodera.Std.Str.{trim, ends_with}
use tenodera.Agent.Cron.{text_or}
use tenodera.Agent.Commands
use tenodera.Agent.Commands.{
  Host, as_root, fed, broken, timed_out, ◌>>=◌, exited, M, pure, Reply, output, error, done,
  perform, run_cmd, sudo_as_user, sudo_stdin_write_as_user, utf8_length,
}
use tenodera.Agent.Ssh.Manage.{SshHost, Answer, refused, reloaded, error_of, sshd_config, staged}

abbrev pub normalized : Text → Text
unfolding ends_with
normalized content = if ends_with (b'\n' ∷ []) content then content else content ++ b'\n' ∷ []

abbrev pub succeeded : Commands.Ending → Bool
succeeded (broken e) = false
succeeded timed_out = false
succeeded (exited success stdout stderr cut) = success

abbrev pub after : Option Text → Text → M Answer → M Answer
after (some e) prefix m = pure (refused (prefix ++ e))
after none prefix m = m

abbrev pub sshd_bin : Bool → Text
sshd_bin found = if found then codes "sshd" else codes "/usr/sbin/sshd"

module _ (w : SshHost) where
  unfoldable pub which : Text → M Bool
  unfolding perform
  which program = do
    ending ← perform w.host (as_root (codes "which" ∷ program ∷ []))
    pure (succeeded ending)

  unfoldable pub active_unit : List Text → M (Option Text)
  unfolding run_cmd trim
  active_unit [] = pure none
  active_unit (unit ∷ units) =
      let later = active_unit units in
      (do
        state ← run_cmd w.host (codes "systemctl" ∷ codes "is-active" ∷ unit ∷ [])
        if trim state == codes "active" then pure (some unit) else later)

  unfoldable pub reload_unit : Text → Text → Text → M Answer
  unfolding sudo_as_user
  reload_unit operator password unit = do
    reload ← sudo_as_user w.host operator password (codes "systemctl" ∷ codes "reload" ∷ unit ∷ [])
    after (error_of reload) (codes "config written but reload failed: ") (pure (reloaded unit))

  unfoldable pub reload_sshd : Text → Text → M Answer
  unfolding active_unit reload_unit
  reload_sshd operator password = do
    active ← active_unit (codes "sshd" ∷ codes "ssh" ∷ [])
    reload_unit operator password (text_or (codes "sshd") active)

  -- Behind the validation: the copy of the old file, the write, and the reload.
  unfoldable pub replace_sshd : Text → Text → Text → M Answer
  unfolding sudo_as_user sudo_stdin_write_as_user reload_sshd
  replace_sshd content operator password = do
    copied ←
        sudo_as_user w.host operator password
          (codes "cp" ∷ sshd_config ∷ (sshd_config ++ codes ".tenodera.bak") ∷ [])
    wrote ←
        sudo_stdin_write_as_user w.host operator password (codes "tee" ∷ sshd_config ∷ []) content
    after (error_of wrote) (codes "failed to write sshd_config: ") (reload_sshd operator password)

  -- The staged copy is checked by `sshd -t` under the operator's sudo.
  unfoldable pub validated : Text → Text → M Answer → M Answer
  unfolding which sudo_as_user
  validated operator password m = do
    found ← which (codes "sshd")
    check ←
        sudo_as_user w.host operator password
          (sshd_bin found ∷ codes "-t" ∷ codes "-f" ∷ staged ∷ [])
    after (error_of check) (codes "sshd validation failed:\n") m

  abbrev pub staging : Text → M Answer → M Answer
  staging content m log = after (w.stage log content) (codes "failed to stage config: ") m log

  unfoldable pub set_sshd : Text → Text → Text → M Answer
  unfolding validated replace_sshd utf8_length normalized trim
  set_sshd content operator password =
      let write =
        staging (normalized content)
          (validated operator password (replace_sshd (normalized content) operator password)) in
      if is_empty (trim content)
      then pure (refused (codes "config is empty"))
      else if ltb (128 * 1024) (utf8_length content)
      then pure (refused (codes "config too large"))
      else write
