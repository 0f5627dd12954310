-- ===== src/Agent/Users/Changes.antt =====
-- Which commands change accounts and groups.
pub mod Actions
pub mod Guarded
use tenodera.Prelude.{
  ◌≡◌, refl, ◌%◌, ◌^◌, none, some, ℕ, Bool, true, false, ◌&&◌, ◌||◌, Option, List, [], ◌∷◌, ◌++◌,
  Text, nat_eq, text_eq, ◌==◌, all, is_empty, unwrap_or, codes, each_branch, if◌then◌else◌,
}
use tenodera.Std.Number.{decimal}
use tenodera.Agent.Commands.{
  Call, as_root, M, pure, Reply, output, error, done, pipeline, sudo_as_user,
  sudo_stdin_write_as_user,
}
use tenodera.Agent.Commands.Gate.{
  by_sudo, Keeps, sudo_as_user-Keeps, sudo_stdin_write_as_user-Keeps,
}
use tenodera.Agent.Users.{
  NewUser, Changed, is_valid_username, is_valid_path, is_valid_gecos, either_valid,
}
use tenodera.Agent.Users.Accounts.{
  UsersHost, is_valid_shell, Answer, answered, and_then, sudo_action, expire, set_password_internal,
  gid_flag, system_group,
}
use tenodera.Agent.Users.Requests.{
  Action, check_exists, create, modify, delete, lock, unlock, password_for, group_new, group_gone,
  as_u32,
}
use tenodera.Agent.Users.Tools.{read_args, new_reading, change_reading}

-- The account whose password an action sets, with the password.
abbrev pub Sets : Action → Text → Text → Type 0
Sets (create u) name new_pw = (name ≡ u.username) × (new_pw ≡ u.new_password)
Sets (password_for username given force_change) name new_pw = (name ≡ username) × (new_pw ≡ given)
Sets _ name new_pw = ⊥

-- The account whose password an action lets expire.
abbrev pub Expires : Action → Text → Type 0
Expires (create u) name = (name ≡ u.username) × (u.force_change ≡ true)
Expires (password_for username given force_change) name = (name ≡ username) × (force_change ≡ true)
Expires _ name = ⊥

-- A group id, as an u32.
abbrev pub group_args : Option ℕ → List Text
group_args none = []
group_args (some gid) = codes "-g" ∷ decimal (gid % 2 ^ 32) ∷ []

pub gid_flag_lem : (gid : Option ℕ) → gid_flag (as_u32 gid) ≡ group_args gid
unfolding gid_flag
gid_flag_lem none = refl
gid_flag_lem (some gid) = refl

module _ (w : UsersHost) where
  pub record IsNew (u : NewUser) : Type 0 where
    pub name : is_valid_username u.username ≡ true
    pub gecos : (is_empty u.gecos || is_valid_gecos u.gecos) ≡ true
    pub home : (is_empty u.home || is_valid_path u.home) ≡ true
    pub shell : (is_empty u.shell || is_valid_shell w u.shell) ≡ true
    pub groups : all is_valid_username u.groups ≡ true

  pub record IsChange (u : Changed) : Type 0 where
    pub name : is_valid_username u.username ≡ true
    pub gecos : either_valid is_valid_gecos u.gecos ≡ true
    pub shell : either_valid (is_valid_shell w) u.shell ≡ true
    pub home : either_valid is_valid_path u.home ≡ true
    pub groups : all is_valid_username (unwrap_or u.groups []) ≡ true

  module _ (user password : Text) where
    abbrev pub sudo : List Text → Call
    sudo args = by_sudo user password args

    pub data Started (action : Action) : Call → Type 0 where
      asked :
          (name : Text)
          → action ≡ check_exists name
          → Started action (as_root (codes "getent" ∷ codes "passwd" ∷ name ∷ []))
      created :
          (u : NewUser) (args : List Text)
          → action ≡ create u
          → IsNew u
          → read_args args ≡ new_reading u
          → Started action (sudo (codes "useradd" ∷ args))
      modified :
          (u : Changed) (args : List Text)
          → action ≡ modify u
          → IsChange u
          → read_args args ≡ change_reading u
          → Started action (sudo (codes "usermod" ∷ args))
      deleted :
          (name : Text) (remove_home : Bool)
          → action ≡ delete name remove_home
          → is_valid_username name ≡ true
          → (name == codes "root") ≡ false
          → Started action (
              sudo (
                codes "userdel"
                ∷ ((if remove_home then codes "-r" ∷ [] else []) ++ (codes "--" ∷ name ∷ []))))
      locked :
          (name : Text)
          → action ≡ lock name
          → is_valid_username name ≡ true
          → (name == codes "root") ≡ false
          → Started action (sudo (codes "usermod" ∷ codes "-L" ∷ codes "--" ∷ name ∷ []))
      unlocked :
          (name : Text)
          → action ≡ unlock name
          → is_valid_username name ≡ true
          → Started action (sudo (codes "usermod" ∷ codes "-U" ∷ codes "--" ∷ name ∷ []))
      password_set :
          (name new_pw : Text)
          → Sets action name new_pw
          → is_valid_username name ≡ true
          → Started action (
              sudo (
                codes "sh"
                ∷ codes "-c"
                ∷ pipeline w.host (codes "chpasswd" ∷ []) (name ++ b':' ∷ (new_pw ++ b'\n' ∷ []))
                ∷ []))
      expired :
          (name : Text)
          → Expires action name
          → is_valid_username name ≡ true
          → Started action (sudo (codes "chage" ∷ codes "-d" ∷ codes "0" ∷ codes "--" ∷ name ∷ []))
      group_made :
          (name : Text) (gid : Option ℕ)
          → action ≡ group_new name gid
          → is_valid_username name ≡ true
          → Started action (sudo (codes "groupadd" ∷ (group_args gid ++ (codes "--" ∷ name ∷ []))))
      group_removed :
          (name : Text)
          → action ≡ group_gone name
          → is_valid_username name ≡ true
          → (name == codes "root"
              || name == codes "wheel"
              || name == codes "sudo"
              || name == codes "adm")
            ≡ false
          → Started action (sudo (codes "groupdel" ∷ codes "--" ∷ name ∷ []))

    module _ (action : Action) where
      abbrev Ours : Call → Type 0
      Ours = Started action

      abbrev Kept : {A : Type 0} → M A → Type 0
      Kept m = Keeps Ours m

      pub nothing : {A : Type 0} (a : A) → Kept (pure a)
      nothing a log h = h

      pub and_then-Keeps : (r : Reply) (m : M Answer) → Kept m → Kept (and_then r m)
      and_then-Keeps (error e) m km log h = h
      and_then-Keeps (output s cut) m km log h = km log h
      and_then-Keeps done m km log h = km log h

      pub run-Keeps :
          (args : List Text) → Ours (sudo args) → Kept (sudo_as_user w.host user password args)
      run-Keeps args p = sudo_as_user-Keeps Ours w.host user password args (λ known. p)

      pub sudo_action-Keeps :
          (args : List Text) → Ours (sudo args) → Kept (sudo_action w user password args)
      unfolding sudo_action
      sudo_action-Keeps args p log h = run-Keeps args p log h

      pub expire-Keeps :
          (name : Text) (force_change : Bool)
          → (force_change ≡ true → Expires action name)
          → is_valid_username name ≡ true
          → Kept (expire w user password name force_change)
      unfolding expire
      expire-Keeps name false forced valid log h = h
      expire-Keeps name true forced valid log h =
          let args = codes "chage" ∷ codes "-d" ∷ codes "0" ∷ codes "--" ∷ name ∷ [] in
          let reply = sudo_as_user w.host user password args log in
          and_then-Keeps reply.0 (pure (answered done)) (nothing (answered done)) reply.1
            (run-Keeps args (expired name (forced refl) valid) log h)

      pub set_password_internal-Keeps :
          (name new_pw : Text) (force_change : Bool)
          → Sets action name new_pw
          → (force_change ≡ true → Expires action name)
          → is_valid_username name ≡ true
          → Kept (set_password_internal w user password name new_pw force_change)
      unfolding set_password_internal
      set_password_internal-Keeps name new_pw force_change sets forced valid log h =
          let input = name ++ b':' ∷ (new_pw ++ b'\n' ∷ []) in
          let reply =
            sudo_stdin_write_as_user w.host user password (codes "chpasswd" ∷ []) input log in
          and_then-Keeps reply.0 (expire w user password name force_change)
            (expire-Keeps name force_change forced valid) reply.1
            (sudo_stdin_write_as_user-Keeps Ours w.host user password (codes "chpasswd" ∷ []) input
              (λ known. password_set name new_pw sets valid) log h)

      pub refuse_or :
          (b : Bool) (a : Answer) (m : M Answer)
          → (b ≡ false → Kept m)
          → Kept (if b then pure a else m)
      refuse_or b a m km = each_branch Kept b (λ on. nothing a) km
