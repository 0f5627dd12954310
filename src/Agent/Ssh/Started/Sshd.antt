-- ===== src/Agent/Ssh/Started/Sshd.antt =====
-- The commands that replace sshd_config.
use tenodera.Prelude.{
  ◌≡◌, refl, All, ◌*◌, inl, inr, none, List, [], ◌∷◌, ◌++◌, Text, nat_eq, text_eq, ◌==◌, ltb,
  is_empty, codes, Bool-cases, both_branches,
}
use tenodera.Std.Str.{trim}
use tenodera.Agent.Cron.{text_or}
use tenodera.Agent.Commands.{
  Call, as_root, pure, utf8_length, run_cmd, sudo_as_user, sudo_stdin_write_as_user,
}
use tenodera.Agent.Commands.Gate.{Keeps, perform-Keeps, run_cmd-Keeps}
use tenodera.Agent.Ssh.Manage.{SshHost, reloaded, error_of, sshd_config, staged}
use tenodera.Agent.Ssh.Sshd.{
  normalized, which, active_unit, replace_sshd, reload_unit, reload_sshd, sshd_bin, validated,
  set_sshd,
}
use tenodera.Agent.Ssh.Started.{
  Checked, IsUnit, error_of-IsFine, Started, looked_for_sshd, checked_config, kept_config,
  wrote_config, asked_unit, reloaded_unit, after-Keeps, sudo-Keeps, tee-Keeps,
}

module _ (w : SshHost) (operator password user content : Text) where
  abbrev P : Call → Type 0
  P = Started w operator password user content

  abbrev Units : List Text → Type 0
  Units = All (IsUnit w operator password)

  active_unit-IsUnit :
      (default : Text) (units : List Text) (log : List Call)
      → IsUnit w operator password default
      → Units units
      → IsUnit w operator password (text_or default (active_unit w units log).0)
  unfolding active_unit
  active_unit-IsUnit default [] log d h = d
  active_unit-IsUnit default (unit ∷ units) log d (one, more) =
      let state = run_cmd w.host (codes "systemctl" ∷ codes "is-active" ∷ unit ∷ []) log in
      elim (Bool-cases (trim state.0 == codes "active")) [
        | inl active ↦ rw active one
        | inr off ↦ rw off (active_unit-IsUnit default units state.1 d more)
      ]

  active_unit-Keeps :
      (units : List Text)
      → Checked w operator password content
      → Units units
      → Keeps P (active_unit w units)
  unfolding active_unit
  active_unit-Keeps [] passed known log h = h
  active_unit-Keeps (unit ∷ units) passed (one, more) log h =
      let args = codes "is-active" ∷ unit ∷ [] in
      let state = run_cmd w.host (codes "systemctl" ∷ args) log in
      let asked =
        run_cmd-Keeps P w.host (codes "systemctl") args (asked_unit unit passed one) log h in
      elim (Bool-cases (trim state.0 == codes "active")) [
        | inl active ↦ rw active asked
        | inr off ↦ rw off (active_unit-Keeps units passed more state.1 asked)
      ]

  reload_unit-Keeps :
      (unit : Text)
      → Checked w operator password content
      → IsUnit w operator password unit
      → Keeps P (reload_unit w operator password unit)
  unfolding reload_unit
  reload_unit-Keeps unit passed known log h =
      let args = codes "systemctl" ∷ codes "reload" ∷ unit ∷ [] in
      let reload = sudo_as_user w.host operator password args log in
      after-Keeps w operator password user content (error_of reload.0)
        (codes "config written but reload failed: ") (pure (reloaded unit)) (λ e log h. h) reload.1
        (sudo-Keeps w operator password user content args (reloaded_unit unit passed known) log h)

  reload_sshd-Keeps :
      Checked w operator password content → Keeps P (reload_sshd w operator password)
  unfolding reload_sshd
  reload_sshd-Keeps passed log h =
      let units = codes "sshd" ∷ codes "ssh" ∷ [] in
      let known : Units units = (inl refl, (inr refl, tt)) in
      let active = active_unit w units log in
      reload_unit-Keeps (text_or (codes "sshd") active.0) passed
        (active_unit-IsUnit (codes "sshd") units log (inl refl) known) active.1
        (active_unit-Keeps units passed known log h)

  -- The configuration that is written has passed the check.
  replace_sshd-Keeps :
      Checked w operator password content
      → Keeps P (replace_sshd w (normalized content) operator password)
  unfolding replace_sshd
  replace_sshd-Keeps passed log h =
      let args = codes "cp" ∷ sshd_config ∷ (sshd_config ++ codes ".tenodera.bak") ∷ [] in
      let copied = sudo_as_user w.host operator password args log in
      let wrote =
        sudo_stdin_write_as_user w.host operator password (codes "tee" ∷ sshd_config ∷ [])
          (normalized content) copied.1 in
      after-Keeps w operator password user content (error_of wrote.0)
        (codes "failed to write sshd_config: ") (reload_sshd w operator password)
        (λ e. reload_sshd-Keeps passed) wrote.1
        (tee-Keeps w operator password user content sshd_config (normalized content)
          (wrote_config passed) copied.1
          (sudo-Keeps w operator password user content args (kept_config passed) log h))

  which-Keeps : Keeps P (which w (codes "sshd"))
  unfolding which
  which-Keeps log h =
      perform-Keeps P w.host (as_root (codes "which" ∷ codes "sshd" ∷ [])) looked_for_sshd log h

  validated-Keeps :
      (before : List Call)
      → w.stage before (normalized content) ≡ none
      → Keeps P
          (validated w operator password (replace_sshd w (normalized content) operator password))
  unfolding validated
  validated-Keeps before staged_well log h =
      let found = which w (codes "sshd") log in
      let args = sshd_bin found.0 ∷ codes "-t" ∷ codes "-f" ∷ staged ∷ [] in
      let check = sudo_as_user w.host operator password args found.1 in
      after-Keeps w operator password user content (error_of check.0)
        (codes "sshd validation failed:\n") (replace_sshd w (normalized content) operator password)
        (λ passed. replace_sshd-Keeps (
          before,
          found.1,
          found.0,
          staged_well,
          error_of-IsFine w operator password user content check.0 passed,
        ))
        check.1
        (sudo-Keeps w operator password user content args
          (checked_config before found.0 staged_well) found.1 (which-Keeps log h))

  pub set_sshd-Keeps : Keeps P (set_sshd w content operator password)
  unfolding set_sshd
  set_sshd-Keeps =
      both_branches (Keeps P) (is_empty (trim content)) (λ log h. h)
        (both_branches (Keeps P) (ltb (128 * 1024) (utf8_length content)) (λ log h. h)
          (λ log h.
            after-Keeps w operator password user content (w.stage log (normalized content))
              (codes "failed to stage config: ")
              (validated w operator password
                (replace_sshd w (normalized content) operator password))
              (λ staged_well. validated-Keeps log staged_well) log h))
