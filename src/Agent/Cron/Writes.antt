-- ===== src/Agent/Cron/Writes.antt =====
-- What the administration of crontabs may write.
use tenodera.Prelude.{
  ◌≡◌, ap, ◌∙◌, ◌⊎◌, inl, inr, true, some, List, [], ◌∷◌, ◌++◌, String, string_eq, Text, nat_eq,
  text_eq, ◌==◌, all, is_some, codes, arith, All, Bool-cases, Option-cases,
}
use tenodera.Std.FilePath.{
  normal, components, parent, file_name, same_path, same_path_sound, parent-file_name,
}
use tenodera.Protocol.Json.{Json}
use tenodera.Agent.Util.Roles.{unless_admin-none}
use tenodera.Agent.Util.{role_in, require_admin}
use tenodera.Agent.Commands.{Host, Call, pipeline}
use tenodera.Agent.Commands.Gate.{by_sudo, Keeps, sudo_stdin_write_as_user-Keeps}
use tenodera.Agent.Cron.{
  etc, safe_char, is_safe_username, is_safe_cron_path, text_at, text_or, set_user_crontab,
  write_system_file, act, manage,
}

-- The files that may be written: /etc/crontab, or one right below /etc/cron.d with a plain name.
abbrev pub IsCronFile : Text → Type 0
IsCronFile path =
    (components path ≡ etc (codes "crontab"))
    ⊎ ((name : Text) × (components path ≡ etc (codes "cron.d") ++ (normal name ∷ []))
        × (all safe_char name ≡ true))

is_safe_cron_path_sound : (path : Text) → is_safe_cron_path path ≡ true → IsCronFile path
unfolding is_safe_cron_path
is_safe_cron_path_sound path h =
    elim (Bool-cases (same_path (components path) (etc (codes "crontab")))) [
      | inl same ↦ inl (same_path_sound (components path) (etc (codes "crontab")) same)
      | inr other ↦ elim (Option-cases (parent (components path))) [
        | inl off ↦ absurd (ground (arith, off, other))
        | inr (dir, on) ↦
            let below : dir ≡ etc (codes "cron.d") =
              same_path_sound dir (etc (codes "cron.d")) (ground (arith, on, other)) in
            let split = parent-file_name (components path) dir on (ground (arith, on, other)) in
            inr (
              file_name (components path),
              split ∙ ap (λ d. d ++ (normal (file_name (components path)) ∷ [])) below,
              ground (arith, on, other),
            )
      ]
    ]

module _ (json : Json) (host : Host) (options : json.Fields) where
  abbrev pub said : String → Text
  said key = text_or [] (text_at json host key (json.object options))

  -- A command that writes the content of the request, run by the host's sudo as the user, who is
  -- an administrator and has an account.
  abbrev pub write_of : List Text → Call
  write_of args =
      by_sudo (said "_user") (said "password")
        (codes "sh" ∷ codes "-c" ∷ pipeline host args (said "content") ∷ [])

  -- The processes that a request may start.
  pub data Allowed : Call → Type 0 where
    crontab_of :
        (target : Text)
        → role_in json (json.object options) ≡ some "admin"
        → host.knows (said "_user") ≡ true
        → is_safe_username target ≡ true
        → Allowed (write_of (codes "crontab" ∷ codes "-u" ∷ target ∷ codes "-" ∷ []))
    cron_file :
        (path : Text)
        → role_in json (json.object options) ≡ some "admin"
        → host.knows (said "_user") ≡ true
        → IsCronFile path
        → Allowed (write_of (codes "tee" ∷ path ∷ []))

  set_user_crontab-Allowed :
      (target : Text)
      → role_in json (json.object options) ≡ some "admin"
      → Keeps Allowed
          (set_user_crontab json host (said "_user") (said "password") target (said "content"))
  unfolding set_user_crontab
  set_user_crontab-Allowed target admin log h = elim (Bool-cases (is_safe_username target)) [
    | inr off ↦ rw off h
    | inl safe ↦ rw safe (
        sudo_stdin_write_as_user-Keeps Allowed host (said "_user") (said "password")
          (codes "crontab" ∷ codes "-u" ∷ target ∷ codes "-" ∷ []) (said "content")
          (λ known. crontab_of target admin known safe) log h)
  ]

  write_system_file-Allowed :
      (path : Text)
      → role_in json (json.object options) ≡ some "admin"
      → Keeps Allowed
          (write_system_file json host (said "_user") (said "password") path (said "content"))
  unfolding write_system_file
  write_system_file-Allowed path admin log h = elim (Bool-cases (is_safe_cron_path path)) [
    | inr off ↦ rw off h
    | inl safe ↦ rw safe (
        sudo_stdin_write_as_user-Keeps Allowed host (said "_user") (said "password")
          (codes "tee" ∷ path ∷ []) (said "content")
          (λ known. cron_file path admin known (is_safe_cron_path_sound path safe)) log h)
  ]

  act-Allowed :
      (action : Text)
      → role_in json (json.object options) ≡ some "admin"
      → Keeps Allowed (act json host (json.object options) action)
  unfolding act
  act-Allowed action admin log h = elim (Bool-cases (action == codes "set_user_crontab")) [
    | inl set ↦ rw set (
        set_user_crontab-Allowed
          (text_or (said "_user") (text_at json host "target_user" (json.object options))) admin log
          h)
    | inr other ↦ elim (Bool-cases (action == codes "write_system_file")) [
      | inl write ↦ rw (other, write) (write_system_file-Allowed (said "path") admin log h)
      | inr none_of ↦ rw (other, none_of) h
    ]
  ]

  -- The administration of crontabs starts no process but for an administrator who has an account
  -- on the host, and then only one that sudo runs for them: the shell that pipes the content to
  -- `crontab` for a user with a plain name, or to `tee` for /etc/crontab or a file with a plain
  -- name right below /etc/cron.d.
  pub manage-Allowed : All Allowed (manage json host options []).1
  unfolding manage require_admin
  manage-Allowed = elim (Bool-cases (is_some (require_admin json (json.object options)))) [
    | inl off ↦ rw off tt
    | inr on ↦
        let admin = unless_admin-none json (role_in json (json.object options)) on in
        rw on (act-Allowed (said "action") admin [] tt)
  ]
