-- ===== src/Agent/Users/Requests.antt =====
-- The requests to `users.manage`, other than `list`, `list_groups` and `list_shells`, which are open
-- to every user and start getent and lastlog.
use tenodera.Prelude.{
  ℕ, ◌%◌, ◌^◌, Bool, true, false, not, ◌&&◌, ◌||◌, Option, none, some, [], ◌∷◌, Text, nat_eq,
  text_eq, ◌==◌, ltb, any, is_empty, is_some, codes, if◌then◌else◌,
}
use tenodera.Std.Lines.{starts_with}
use tenodera.Protocol.Json.{Json}
use tenodera.Agent.Util.{require_admin}
use tenodera.Agent.Commands.{M, pure, ◌>>=◌, run_cmd, utf8_length}
use tenodera.Agent.Users.{NewUser, Changed}
use tenodera.Agent.Users.Accounts.{
  UsersHost, Answer, refused, exists_there, unknown_action, no_admin, create_user, modify_user,
  delete_user, lock_user, unlock_user, set_password, create_group, delete_group,
}

-- The actions, with what they take from the request.
pub data Action : Type 0 where
  check_exists : Text → Action
  create : NewUser → Action
  modify : Changed → Action
  delete : Text → Bool → Action
  lock : Text → Action
  unlock : Text → Action
  -- `set_password`, with whether it must be changed at the next login
  password_for : Text → Text → Bool → Action
  -- a group id is a u64
  group_new : Text → Option ℕ → Action
  group_gone : Text → Action
  unknown : Action

-- `v as u32`
abbrev pub as_u32 : Option ℕ → Option ℕ
as_u32 none = none
as_u32 (some n) = some (n % 2 ^ 32)

abbrev pub only_reads : Action → Bool
only_reads (check_exists username) = true
only_reads _ = false

module _ (w : UsersHost) where
  unfoldable pub check_user_exists : Text → M Answer
  unfolding run_cmd utf8_length starts_with
  check_user_exists username =
      let ask = (do
        out ← run_cmd w.host (codes "getent" ∷ codes "passwd" ∷ username ∷ [])
        pure (exists_there (not (is_empty out) && not (starts_with (codes "error:") out)))) in
      if is_empty username
        || any (λ c. c == b':') username
        || any (λ c. c == b'\n') username
        || ltb 256 (utf8_length username)
      then pure (exists_there false)
      else ask

  module _ (user password : Text) where
    unfoldable pub perform : Action → M Answer
    unfolding check_user_exists create_user modify_user delete_user lock_user unlock_user
        set_password create_group delete_group
    perform (check_exists username) = check_user_exists username
    perform (create u) = create_user w user password u
    perform (modify u) = modify_user w user password u
    perform (delete username remove_home) = delete_user w user password username remove_home
    perform (lock username) = lock_user w user password username
    perform (unlock username) = unlock_user w user password username
    perform (password_for username new_pw force_change) =
        set_password w user password username new_pw force_change
    perform (group_new name gid) = create_group w user password name (as_u32 gid)
    perform (group_gone name) = delete_group w user password name
    perform unknown = pure (refused unknown_action)

  unfoldable pub handle_data : (json : Json) → json.Value → Text → Text → Action → M Answer
  unfolding require_admin perform
  handle_data json value user password action =
      let act = perform user password action in
      if not (only_reads action) && is_some (require_admin json value)
      then pure (refused no_admin)
      else act
