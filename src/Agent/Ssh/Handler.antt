-- ===== src/Agent/Ssh/Handler.antt =====
-- The requests that `ssh.manage` answers.
use tenodera.Prelude.{
  ℕ, ◌^◌, ◌-◌, Bool, not, ◌&&◌, ◌||◌, leb, unwrap_or, nat_eq, ◌∷◌, List, none, some, [], ◌++◌,
  String, string_eq, Text, text_eq, ◌==◌, is_empty, is_some, codes, if◌then◌else◌,
}
use tenodera.Std.Str.{trim, ends_with}
use tenodera.Std.Lines.{lines, split_by}
use tenodera.Std.Number.{parse_unsigned}
use tenodera.Protocol.Json.{Json}
use tenodera.Agent.Util.{require_admin}
use tenodera.Agent.Cron.{text_or, text_at}
use tenodera.Agent.Commands.{◌>>=◌, M, pure, run_cmd}
use tenodera.Agent.Ssh.{file_keys}
use tenodera.Agent.Ssh.Manage.{
  LoginUser, users, Account, SshHost, Answer, denied, refused, keys, config, stopped, authkeys,
  sshd_config, known, read_keys, add_key, remove_key, edit_key,
}
use tenodera.Agent.Ssh.Sshd.{set_sshd}

-- Root, or an account from 1000 on that is not `nobody`, with a shell.
abbrev pub is_login : ℕ → Text → Bool
unfolding ends_with
is_login uid shell =
    (uid == 0 || (leb 1000 uid && not (uid == 65534)))
    && not (is_empty shell)
    && not (ends_with (codes "nologin") shell)
    && not (ends_with (codes "false") shell)

abbrev pub keep_login : Text → ℕ → Text → Text → List LoginUser → List LoginUser
unfolding is_login
keep_login name uid home shell others =
    if is_login uid shell then record { name = name; uid = uid; home = home } ∷ others else others

abbrev pub passwd_user : List Text → List LoginUser → List LoginUser
unfolding parse_unsigned keep_login
passwd_user (name ∷ password ∷ uid ∷ gid ∷ gecos ∷ home ∷ shell ∷ more) others =
    keep_login name (unwrap_or (parse_unsigned (2 ^ 32) uid) (2 ^ 32 - 1)) home shell others
passwd_user _ others = others

-- The loop over the lines of the database of users.
unfoldable pub passwd_users : List Text → List LoginUser
unfolding passwd_user split_by
passwd_users [] = []
passwd_users (line ∷ rest) = passwd_user (split_by (λ c. c == b':') line) (passwd_users rest)

module _ (w : SshHost) where
  unfoldable pub list_users : M Answer
  unfolding run_cmd passwd_users lines trim
  list_users = do
    told ← run_cmd w.host (codes "getent" ∷ codes "passwd" ∷ [])
    (λ log.
        let content = if is_empty (trim told) then w.read log (codes "/etc/passwd") else told in
        (users (passwd_users (lines content)), log))

  abbrev pub listing : Text → Account → Text → Answer
  unfolding file_keys lines
  listing user a content = elim (file_keys (lines content)) [
    | none ↦ stopped
    | some ks ↦ keys user (authkeys a) ks
  ]

  unfoldable pub list_keys : Text → M Answer
  unfolding listing
  list_keys user =
      let list = known w user (λ a. do content ← read_keys w a; pure (listing user a content)) in
      if is_empty user then pure (refused (codes "unknown user")) else list

  module _ (json : Json) where
    -- The actions that change something.
    unfoldable pub change : json.Value → Text → M Answer
    unfolding add_key remove_key edit_key set_sshd
    change value action =
        let get = λ (key : String). text_or [] (text_at json w.host key value) in
        let add = add_key w (get "user") (get "key") (get "_user") (get "password") in
        let remove = remove_key w (get "user") (get "key") (get "_user") (get "password") in
        let edit = edit_key w (get "user") (get "old") (get "key") (get "_user") (get "password") in
        let set = set_sshd w (get "content") (get "_user") (get "password") in
        if action == codes "add_key"
        then add
        else if action == codes "remove_key"
        then remove
        else if action == codes "edit_key"
        then edit
        else if action == codes "set_sshd"
        then set
        else pure (refused (codes "unknown action: " ++ action))

    unfoldable pub manage : json.Fields → M Answer
    unfolding require_admin change list_keys list_users
    manage options =
        let value = json.object options in
        let action = text_or [] (text_at json w.host "action" value) in
        let list = list_keys (text_or [] (text_at json w.host "user" value)) in
        let show : M Answer = λ log. (config (w.read log sshd_config), log) in
        let changed = change value action in
        if action == codes "list_users"
        then list_users
        else if action == codes "list_keys"
        then list
        else if action == codes "read_sshd"
        then show
        else if is_some (require_admin json value)
        then pure denied
        else changed
