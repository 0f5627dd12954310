-- ===== src/Agent/Users/Changes/Guarded.antt =====
-- What the requests to `users.manage` start.
use tenodera.Prelude.{
  ◌≡◌, refl, true, ◌||◌, some, [], ◌∷◌, Text, nat_eq, ◌==◌, any, ltb, is_empty, is_some, codes, All,
  All-map, Bool-cases, inl, inr,
}
use tenodera.Protocol.Json.{Json}
use tenodera.Agent.Util.{role_in, require_admin}
use tenodera.Agent.Util.Roles.{unless_admin-none}
use tenodera.Agent.Commands.{Call, as_root, utf8_length}
use tenodera.Agent.Commands.Gate.{Keeps, run_cmd-Keeps}
use tenodera.Agent.Users.Accounts.{UsersHost, refused, unknown_action}
use tenodera.Agent.Users.Requests.{
  Action, check_exists, create, modify, delete, lock, unlock, password_for, group_new, group_gone,
  unknown, check_user_exists, perform, only_reads, handle_data,
}
use tenodera.Agent.Users.Changes.{Started, asked, nothing}
use tenodera.Agent.Users.Changes.Actions.{
  create_user-Keeps, modify_user-Keeps, delete_user-Keeps, lock_user-Keeps, unlock_user-Keeps,
  set_password-Keeps, create_group-Keeps, delete_group-Keeps,
}

module _ (w : UsersHost) (json : Json) (value : json.Value) (user password : Text) where
  abbrev Ours : Action → Call → Type 0
  Ours action = Started w user password action

  -- A question about an account, or a command of an administrator.
  pub data Permitted (action : Action) : Call → Type 0 where
    question :
        (name : Text)
        → action ≡ check_exists name
        → Permitted action (as_root (codes "getent" ∷ codes "passwd" ∷ name ∷ []))
    by_admin :
        (call : Call)
        → role_in json value ≡ some "admin"
        → Started w user password action call
        → Permitted action call

  asks-Keeps :
      (P : Call → Type 0) (name : Text)
      → P (as_root (codes "getent" ∷ codes "passwd" ∷ name ∷ []))
      → Keeps P (check_user_exists w name)
  unfolding check_user_exists
  asks-Keeps P name p log h =
      elim (Bool-cases (
        is_empty name
        || any (λ c. c == b':') name
        || any (λ c. c == b'\n') name
        || ltb 256 (utf8_length name))) [
          | inl off ↦ rw off h
          | inr ask ↦
              rw ask (run_cmd-Keeps P w.host (codes "getent") (codes "passwd" ∷ name ∷ []) p log h)
        ]

  perform-Keeps : (action : Action) → Keeps (Ours action) (perform w user password action)
  unfolding perform
  perform-Keeps (check_exists name) = asks-Keeps (Ours (check_exists name)) name (asked name refl)
  perform-Keeps (create u) = create_user-Keeps w user password (create u) u refl
  perform-Keeps (modify u) = modify_user-Keeps w user password (modify u) u refl
  perform-Keeps (delete name remove_home) =
      delete_user-Keeps w user password (delete name remove_home) name remove_home refl
  perform-Keeps (lock name) = lock_user-Keeps w user password (lock name) name refl
  perform-Keeps (unlock name) = unlock_user-Keeps w user password (unlock name) name refl
  perform-Keeps (password_for name new_pw force_change) =
      set_password-Keeps w user password (password_for name new_pw force_change) name new_pw
        force_change refl
  perform-Keeps (group_new name gid) =
      create_group-Keeps w user password (group_new name gid) name gid refl
  perform-Keeps (group_gone name) = delete_group-Keeps w user password (group_gone name) name refl
  perform-Keeps unknown = nothing w user password unknown (refused unknown_action)

  admin-Permitted :
      (action : Action)
      → role_in json value ≡ some "admin"
      → All (Permitted action) (perform w user password action []).1
  admin-Permitted action admin =
      All-map (Ours action) (Permitted action) (λ call ours. by_admin call admin ours)
        (perform w user password action []).1 (perform-Keeps action [] tt)

  reads-Permitted :
      (action : Action)
      → only_reads action ≡ true
      → All (Permitted action) (perform w user password action []).1
  unfolding perform
  reads-Permitted (check_exists name) h =
      asks-Keeps (Permitted (check_exists name)) name (question name refl) [] tt
  reads-Permitted (create u) h = cc
  reads-Permitted (modify u) h = cc
  reads-Permitted (delete name remove_home) h = cc
  reads-Permitted (lock name) h = cc
  reads-Permitted (unlock name) h = cc
  reads-Permitted (password_for name new_pw force_change) h = cc
  reads-Permitted (group_new name gid) h = cc
  reads-Permitted (group_gone name) h = cc
  reads-Permitted unknown h = cc

  -- A request to administer accounts and groups, other than the three lists, which are not
  -- modelled, starts, but for the question whether the account exists that it asks about, no
  -- process unless for an administrator, and then, run by sudo as them with their password, only
  -- the commands of its own action, with the data of the request: useradd and usermod with
  -- arguments that, read as getopt does, ask for just what was requested, whose account and group
  -- names, full name, home directory and shell pass their checks; chpasswd for the password and
  -- chage where a change is asked for, with a valid account name; userdel and locking, but for
  -- root, and unlocking; groupadd, with the id modulo 2^32, and groupdel but for the groups root,
  -- wheel, sudo and adm, with valid names.
  pub handle_data-Permitted :
      (action : Action)
      → All (Permitted action) (handle_data w json value user password action []).1
  unfolding handle_data require_admin
  handle_data-Permitted action = elim (Bool-cases (only_reads action)) [
    | inl reads ↦ rw reads (reads-Permitted action reads)
    | inr changes ↦ elim (Bool-cases (is_some (require_admin json value))) [
      | inl off ↦ rw (changes, off) tt
      | inr on ↦
          rw (changes, on) (admin-Permitted action (unless_admin-none json (role_in json value) on))
    ]
  ]
