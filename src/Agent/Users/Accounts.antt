-- ===== src/Agent/Users/Accounts.antt =====
-- The actions of `users.manage`, with the commands that they start.
use tenodera.Prelude.{
  ℕ, Bool, not, ◌&&◌, ◌||◌, Option, none, some, List, [], ◌∷◌, ◌++◌, Text, nat_eq, text_eq, ◌==◌,
  map, retain, is_some, unwrap_or, any, all, is_empty, codes, if◌then◌else◌,
}
use tenodera.Std.Lines.{lines, starts_with}
use tenodera.Std.Str.{trim}
use tenodera.Std.Number.{decimal}
use tenodera.Agent.Commands.{
  Host, M, pure, ◌>>=◌, Reply, output, error, done, sudo_as_user, sudo_stdin_write_as_user,
}
use tenodera.Agent.Users.{
  is_valid_username, is_valid_path, is_valid_gecos, NewUser, Changed, either_valid, useradd_args,
  usermod_args,
}

-- Why a request is refused; the texts are left out.
pub data Refusal : Type 0 where
  bad_username : Refusal
  bad_gecos : Refusal
  bad_home : Refusal
  bad_shell : Refusal
  bad_group : Refusal
  no_change : Refusal
  empty_password : Refusal
  protected : Refusal
  unknown_action : Refusal
  no_admin : Refusal

pub data Answer : Type 0 where
  refused : Refusal → Answer
  answered : Reply → Answer
  -- `check_exists`
  exists_there : Bool → Answer

-- The host, with /etc/shells and what exists.
pub record UsersHost : Type 0 where
  pub host : Host
  pub shells_file : Option Text
  pub exists : Text → Bool

-- The failure of the first command ends the action.
abbrev pub and_then : Reply → M Answer → M Answer
and_then (error e) m = pure (answered (error e))
and_then (output s cut) m = m
and_then done m = m

unfoldable pub gid_flag : Option ℕ → List Text
unfolding decimal
gid_flag none = []
gid_flag (some gid) = codes "-g" ∷ decimal gid ∷ []

abbrev pub system_group : Text → Bool
system_group name =
    name == codes "root" || name == codes "wheel" || name == codes "sudo" || name == codes "adm"

abbrev pub is_change : Changed → Bool
is_change u = is_some u.gecos || is_some u.shell || is_some u.home || is_some u.groups

module _ (w : UsersHost) where
  abbrev pub listed_shells : List Text
  unfolding lines trim starts_with
  listed_shells = elim w.shells_file as (λ _. List Text) [
    | none ↦ []
    | some content ↦
        retain (λ s. not (is_empty s || starts_with (codes "#") s) && w.exists s)
          (map trim (lines content))
  ]

  abbrev pub with_nologin : List Text → List Text → List Text
  with_nologin shells [] = shells
  with_nologin shells (s ∷ rest) =
      let longer = with_nologin (shells ++ s ∷ []) rest in
      let same = with_nologin shells rest in
      if not (any (λ t. t == s) shells) && w.exists s then longer else same

  unfoldable pub read_valid_shells : List Text
  unfolding listed_shells
  read_valid_shells =
      with_nologin listed_shells
        (codes "/usr/sbin/nologin" ∷ codes "/sbin/nologin" ∷ codes "/bin/false" ∷ [])

  unfoldable pub is_valid_shell : Text → Bool
  unfolding read_valid_shells
  is_valid_shell shell = any (λ s. s == shell) read_valid_shells

  module _ (user password : Text) where
    unfoldable pub sudo_action : List Text → M Answer
    unfolding sudo_as_user
    sudo_action args = do reply ← sudo_as_user w.host user password args; pure (answered reply)

    unfoldable pub expire : Text → Bool → M Answer
    unfolding sudo_as_user
    expire username force_change =
        let changed = (do
          reply ←
              sudo_as_user w.host user password
                (codes "chage" ∷ codes "-d" ∷ codes "0" ∷ codes "--" ∷ username ∷ [])
          and_then reply (pure (answered done))) in
        if force_change then changed else pure (answered done)

    unfoldable pub set_password_internal : Text → Text → Bool → M Answer
    unfolding sudo_stdin_write_as_user expire
    set_password_internal username new_pw force_change = do
      reply ←
          sudo_stdin_write_as_user w.host user password (codes "chpasswd" ∷ [])
            (username ++ b':' ∷ (new_pw ++ b'\n' ∷ []))
      and_then reply (expire username force_change)

    unfoldable pub set_password : Text → Text → Bool → M Answer
    unfolding set_password_internal
    set_password username new_pw force_change =
        let set = set_password_internal username new_pw force_change in
        if not (is_valid_username username)
        then pure (refused bad_username)
        else if is_empty new_pw
        then pure (refused empty_password)
        else set

    unfoldable pub first_password : NewUser → M Answer
    unfolding set_password_internal
    first_password u =
        let set = set_password_internal u.username u.new_password u.force_change in
        if is_empty u.new_password then pure (answered done) else set

    unfoldable pub run_useradd : NewUser → M Answer
    unfolding sudo_as_user useradd_args first_password
    run_useradd u = do
      reply ← sudo_as_user w.host user password (codes "useradd" ∷ useradd_args u)
      and_then reply (first_password u)

    unfoldable pub create_user : NewUser → M Answer
    unfolding run_useradd is_valid_gecos is_valid_path is_valid_username is_valid_shell
    create_user u =
        let create = run_useradd u in
        if not (is_valid_username u.username)
        then pure (refused bad_username)
        else if not (is_empty u.gecos) && not (is_valid_gecos u.gecos)
        then pure (refused bad_gecos)
        else if not (is_empty u.home) && not (is_valid_path u.home)
        then pure (refused bad_home)
        else if not (is_empty u.shell) && not (is_valid_shell u.shell)
        then pure (refused bad_shell)
        else if not (all is_valid_username u.groups)
        then pure (refused bad_group)
        else create

    unfoldable pub modify_user : Changed → M Answer
    unfolding sudo_action usermod_args is_valid_gecos is_valid_path is_valid_username is_valid_shell
    modify_user u =
        let modify = sudo_action (codes "usermod" ∷ usermod_args u) in
        if not (is_valid_username u.username)
        then pure (refused bad_username)
        else if not (either_valid is_valid_gecos u.gecos)
        then pure (refused bad_gecos)
        else if not (either_valid is_valid_shell u.shell)
        then pure (refused bad_shell)
        else if not (either_valid is_valid_path u.home)
        then pure (refused bad_home)
        else if not (all is_valid_username (unwrap_or u.groups []))
        then pure (refused bad_group)
        else if not (is_change u)
        then pure (refused no_change)
        else modify

    unfoldable pub delete_user : Text → Bool → M Answer
    unfolding sudo_action is_valid_username
    delete_user username remove_home =
        let delete = sudo_action (
          codes "userdel"
          ∷ ((if remove_home then codes "-r" ∷ [] else []) ++ (codes "--" ∷ username ∷ []))) in
        if not (is_valid_username username)
        then pure (refused bad_username)
        else if username == codes "root"
        then pure (refused protected)
        else delete

    unfoldable pub lock_user : Text → M Answer
    unfolding sudo_action is_valid_username
    lock_user username =
        let lock = sudo_action (codes "usermod" ∷ codes "-L" ∷ codes "--" ∷ username ∷ []) in
        if not (is_valid_username username)
        then pure (refused bad_username)
        else if username == codes "root"
        then pure (refused protected)
        else lock

    unfoldable pub unlock_user : Text → M Answer
    unfolding sudo_action is_valid_username
    unlock_user username =
        let unlock = sudo_action (codes "usermod" ∷ codes "-U" ∷ codes "--" ∷ username ∷ []) in
        if not (is_valid_username username) then pure (refused bad_username) else unlock

    unfoldable pub create_group : Text → Option ℕ → M Answer
    unfolding sudo_action is_valid_username gid_flag
    create_group name gid =
        let create = sudo_action (codes "groupadd" ∷ (gid_flag gid ++ (codes "--" ∷ name ∷ []))) in
        if not (is_valid_username name) then pure (refused bad_group) else create

    unfoldable pub delete_group : Text → M Answer
    unfolding sudo_action is_valid_username
    delete_group name =
        let delete = sudo_action (codes "groupdel" ∷ codes "--" ∷ name ∷ []) in
        if not (is_valid_username name)
        then pure (refused bad_group)
        else if system_group name
        then pure (refused protected)
        else delete
