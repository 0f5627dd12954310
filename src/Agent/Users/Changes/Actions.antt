-- ===== src/Agent/Users/Changes/Actions.antt =====
-- The actions of an administrator start checked commands only.
use tenodera.Prelude.{
  ◌≡◌, refl, ℕ, Bool, true, false, not, ◌&&◌, ◌||◌, Option, [], ◌∷◌, Text, nat_eq, text_eq, ◌==◌,
  all, is_empty, unwrap_or, codes, if◌then◌else◌,
}
use tenodera.Agent.Commands.{M, pure, done, sudo_as_user}
use tenodera.Agent.Commands.Gate.{Keeps}
use tenodera.Agent.Users.{
  NewUser, Changed, is_valid_username, is_valid_path, is_valid_gecos, either_valid, useradd_args,
  usermod_args,
}
use tenodera.Agent.Users.Accounts.{
  UsersHost, is_valid_shell, Answer, answered, refused, bad_username, bad_gecos, bad_home,
  bad_shell, bad_group, no_change, empty_password, protected, is_change, set_password,
  first_password, run_useradd, create_user, modify_user, delete_user, lock_user, unlock_user,
  create_group, system_group, delete_group,
}
use tenodera.Agent.Users.Requests.{
  Action, create, modify, delete, lock, unlock, password_for, group_new, group_gone, as_u32,
}
use tenodera.Agent.Users.Tools.{read_args-useradd_args, read_args-usermod_args}
use tenodera.Agent.Users.Changes.{
  IsNew, Started, created, modified, deleted, locked, unlocked, group_made, gid_flag_lem,
  group_removed, and_then-Keeps, run-Keeps, sudo_action-Keeps, set_password_internal-Keeps,
  refuse_or,
}

valid_of : (b : Bool) → not b ≡ false → b ≡ true
valid_of true h = refl
valid_of false h = cc

empty_or_valid : (e v : Bool) → (not e && not v) ≡ false → (e || v) ≡ true
empty_or_valid true v h = refl
empty_or_valid false true h = refl
empty_or_valid false false h = cc

module _ (w : UsersHost) (user password : Text) (action : Action) where
  abbrev Kept : {A : Type 0} → M A → Type 0
  Kept m = Keeps (Started w user password action) m

  or_refuse :
      (b : Bool) (a : Answer) (m : M Answer) → (b ≡ false → Kept m) → Kept (if b then pure a else m)
  or_refuse = refuse_or w user password action

  first_password-Keeps :
      (u : NewUser)
      → action ≡ create u
      → is_valid_username u.username ≡ true
      → Kept (first_password w user password u)
  unfolding first_password
  first_password-Keeps u same valid =
      or_refuse (is_empty u.new_password) (answered done) _ (λ given.
        set_password_internal-Keeps w user password action u.username u.new_password u.force_change
          (rw same (refl, refl)) (λ forced. rw same (refl, forced)) valid)

  run_useradd-Keeps :
      (u : NewUser) → action ≡ create u → IsNew w u → Kept (run_useradd w user password u)
  unfolding run_useradd
  run_useradd-Keeps u same ok log h =
      let args = codes "useradd" ∷ useradd_args u in
      let reply = sudo_as_user w.host user password args log in
      and_then-Keeps w user password action reply.0 (first_password w user password u)
        (first_password-Keeps u same ok.name) reply.1
        (run-Keeps w user password action args
          (created u (useradd_args u) same ok (read_args-useradd_args u)) log h)

  pub create_user-Keeps : (u : NewUser) → action ≡ create u → Kept (create_user w user password u)
  unfolding create_user
  create_user-Keeps u same =
      or_refuse (not (is_valid_username u.username)) (refused bad_username) _ (λ name.
        or_refuse (not (is_empty u.gecos) && not (is_valid_gecos u.gecos)) (refused bad_gecos) _
          (λ gecos.
            or_refuse (not (is_empty u.home) && not (is_valid_path u.home)) (refused bad_home) _
              (λ home.
                or_refuse (not (is_empty u.shell) && not (is_valid_shell w u.shell))
                  (refused bad_shell) _
                  (λ shell.
                    or_refuse (not (all is_valid_username u.groups)) (refused bad_group) _
                      (λ groups. run_useradd-Keeps u same (record {
                        name = valid_of (is_valid_username u.username) name;
                        gecos = empty_or_valid (is_empty u.gecos) (is_valid_gecos u.gecos) gecos;
                        home = empty_or_valid (is_empty u.home) (is_valid_path u.home) home;
                        shell = empty_or_valid (is_empty u.shell) (is_valid_shell w u.shell) shell;
                        groups = valid_of (all is_valid_username u.groups) groups;
                      }))))))

  pub modify_user-Keeps : (u : Changed) → action ≡ modify u → Kept (modify_user w user password u)
  unfolding modify_user
  modify_user-Keeps u same =
      or_refuse (not (is_valid_username u.username)) (refused bad_username) _ (λ name.
        or_refuse (not (either_valid is_valid_gecos u.gecos)) (refused bad_gecos) _ (λ gecos.
          or_refuse (not (either_valid (is_valid_shell w) u.shell)) (refused bad_shell) _ (λ shell.
            or_refuse (not (either_valid is_valid_path u.home)) (refused bad_home) _ (λ home.
              or_refuse (not (all is_valid_username (unwrap_or u.groups []))) (refused bad_group) _
                (λ groups. or_refuse (not (is_change u)) (refused no_change) _ (λ some_change.
                  sudo_action-Keeps w user password action (codes "usermod" ∷ usermod_args u) (
                    modified u (usermod_args u) same
                      (record {
                        name = valid_of (is_valid_username u.username) name;
                        gecos = valid_of (either_valid is_valid_gecos u.gecos) gecos;
                        shell = valid_of (either_valid (is_valid_shell w) u.shell) shell;
                        home = valid_of (either_valid is_valid_path u.home) home;
                        groups = valid_of (all is_valid_username (unwrap_or u.groups [])) groups;
                      })
                      (read_args-usermod_args u))))))))

  pub delete_user-Keeps :
      (name : Text) (remove_home : Bool)
      → action ≡ delete name remove_home
      → Kept (delete_user w user password name remove_home)
  unfolding delete_user
  delete_user-Keeps name remove_home same =
      or_refuse (not (is_valid_username name)) (refused bad_username) _ (λ bad.
        or_refuse (name == codes "root") (refused protected) _ (λ other.
          sudo_action-Keeps w user password action _
            (deleted name remove_home same (valid_of (is_valid_username name) bad) other)))

  pub lock_user-Keeps : (name : Text) → action ≡ lock name → Kept (lock_user w user password name)
  unfolding lock_user
  lock_user-Keeps name same =
      or_refuse (not (is_valid_username name)) (refused bad_username) _ (λ bad.
        or_refuse (name == codes "root") (refused protected) _ (λ other.
          sudo_action-Keeps w user password action _
            (locked name same (valid_of (is_valid_username name) bad) other)))

  pub unlock_user-Keeps :
      (name : Text) → action ≡ unlock name → Kept (unlock_user w user password name)
  unfolding unlock_user
  unlock_user-Keeps name same =
      or_refuse (not (is_valid_username name)) (refused bad_username) _ (λ bad.
        sudo_action-Keeps w user password action _
          (unlocked name same (valid_of (is_valid_username name) bad)))

  pub set_password-Keeps :
      (name new_pw : Text) (force_change : Bool)
      → action ≡ password_for name new_pw force_change
      → Kept (set_password w user password name new_pw force_change)
  unfolding set_password
  set_password-Keeps name new_pw force_change same =
      or_refuse (not (is_valid_username name)) (refused bad_username) _ (λ bad.
        or_refuse (is_empty new_pw) (refused empty_password) _ (λ given.
          set_password_internal-Keeps w user password action name new_pw force_change
            (rw same (refl, refl)) (λ forced. rw same (refl, forced))
            (valid_of (is_valid_username name) bad)))

  pub create_group-Keeps :
      (name : Text) (gid : Option ℕ)
      → action ≡ group_new name gid
      → Kept (create_group w user password name (as_u32 gid))
  unfolding create_group
  create_group-Keeps name gid same =
      or_refuse (not (is_valid_username name)) (refused bad_group) _ (λ bad.
        sudo_action-Keeps w user password action _ (
          rw (gid_flag_lem gid) (group_made name gid same (valid_of (is_valid_username name) bad))))

  pub delete_group-Keeps :
      (name : Text) → action ≡ group_gone name → Kept (delete_group w user password name)
  unfolding delete_group
  delete_group-Keeps name same =
      or_refuse (not (is_valid_username name)) (refused bad_group) _ (λ bad.
        or_refuse (system_group name) (refused protected) _ (λ other.
          sudo_action-Keeps w user password action _
            (group_removed name same (valid_of (is_valid_username name) bad) other)))
