-- ===== src/Agent/Users.antt =====
-- The handler `users.manage` of agent/src/handlers/users.rs: what it checks, and the commands that
-- change accounts and groups. The request is taken apart by the caller; the
-- actions `list`, `list_groups` and `list_shells` are not modelled.
pub mod Accounts
pub mod Requests
pub mod Tools
pub mod Changes
mod Tests
use tenodera.Prelude.{
  ℕ, ◌-◌, Bool, true, false, not, ◌&&◌, ◌||◌, Option, none, some, List, [], ◌∷◌, ◌++◌, Text, nat_eq,
  text_eq, ◌==◌, leb, any, all, is_empty, length, take, codes, if◌then◌else◌,
}
use tenodera.Std.Lines.{join, starts_with, contains_text}
use tenodera.Std.Str.{ends_with}
use tenodera.Agent.Commands
use tenodera.Agent.Commands.{◌>>=◌, utf8_length}

abbrev pub lower : ℕ → Bool
lower c = leb b'a' c && leb c b'z'

abbrev pub name_char : ℕ → Bool
name_char c = lower c || (leb b'0' c && leb c b'9') || c == b'_' || c == b'-'

-- `&bytes[1..]`, without a dollar at the end.
abbrev pub body_of : Text → Text
unfolding ends_with
body_of rest = if ends_with (codes "$") rest then take (length rest - 1) rest else rest

unfoldable pub is_valid_username : Text → Bool
unfolding utf8_length body_of
is_valid_username [] = false
is_valid_username (c ∷ rest) =
    leb (utf8_length (c ∷ rest)) 32 && (lower c || c == b'_') && all name_char (body_of rest)

unfoldable pub is_valid_path : Text → Bool
unfolding starts_with contains_text utf8_length
is_valid_path path =
    starts_with (codes "/") path
    && not (contains_text (codes "..") path)
    && not (any (λ c. c == 0) path)
    && leb (utf8_length path) 4096

unfoldable pub is_valid_gecos : Text → Bool
unfolding utf8_length
is_valid_gecos gecos =
    leb (utf8_length gecos) 256
    && not (any (λ c. c == b':') gecos)
    && not (any (λ c. c == b'\n') gecos)
    && not (any (λ c. c == b'\r') gecos)
    && not (any (λ c. c == 0) gecos)

-- What `create_user` takes from the request.
pub record NewUser : Type 0 where
  pub username : Text
  pub gecos : Text
  pub home : Text
  pub shell : Text
  pub create_home : Bool
  pub new_password : Text
  pub force_change : Bool
  pub groups : List Text

-- What `modify_user` takes from the request: what is there is changed.
pub record Changed : Type 0 where
  pub username : Text
  pub gecos : Option Text
  pub shell : Option Text
  pub home : Option Text
  pub move_home : Bool
  pub groups : Option (List Text)

-- An option with its value, if there is one.
abbrev pub flag : Text → Text → List Text
flag name value = if is_empty value then [] else name ∷ value ∷ []

abbrev pub optional : Text → Option Text → List Text
optional name none = []
optional name (some value) = name ∷ value ∷ []

abbrev pub either_valid : (Text → Bool) → Option Text → Bool
either_valid p none = true
either_valid p (some s) = p s

abbrev pub flag_list : List Text → List Text
unfolding join
flag_list groups = if is_empty groups then [] else codes "-G" ∷ join (codes ",") groups ∷ []

-- The arguments behind `useradd`.
unfoldable pub useradd_args : NewUser → List Text
unfolding flag_list
useradd_args u =
    (if u.create_home then codes "-m" ∷ [] else [])
    ++ (flag (codes "-c") u.gecos
        ++ (flag (codes "-d") u.home
            ++ (flag (codes "-s") u.shell
                ++ (flag_list u.groups ++ (codes "--" ∷ u.username ∷ [])))))

abbrev pub joined : Option (List Text) → Option Text
unfolding join
joined none = none
joined (some groups) = some (join (codes ",") groups)

abbrev pub moved : Option Text → Bool → List Text
moved none move_home = []
moved (some home) move_home = if move_home then codes "-m" ∷ [] else []

-- The arguments behind `usermod`.
unfoldable pub usermod_args : Changed → List Text
unfolding joined
usermod_args u =
    optional (codes "-c") u.gecos
    ++ (optional (codes "-s") u.shell
        ++ (optional (codes "-d") u.home
            ++ (moved u.home u.move_home
                ++ (optional (codes "-G") (joined u.groups) ++ (codes "--" ∷ u.username ∷ [])))))
