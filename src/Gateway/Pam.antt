-- ===== src/Gateway/Pam.antt =====
-- PAM in a process of its own: `authenticate` of panel/crates/gateway/src/pam.rs, and the helper
-- that it runs, panel/crates/pam-helper/src/main.rs. The PAM library is a parameter.
pub mod Helper
mod Tests
use tenodera.Prelude.{
  ℕ, Bool, true, false, not, ◌&&◌, ◌||◌, Option, none, some, List, [], ◌∷◌, ◌++◌, String, Text,
  nat_eq, ◌==◌, any, if◌then◌else◌, is_empty,
}
use tenodera.Std.Str.{until}
use tenodera.Std.Lines.{strip_cr}

-- The text behind the first occurrence of a character.
unfoldable pub after : ℕ → Text → Text
after c [] = []
after c (d ∷ s) = let rest = after c s in if d == c then s else rest

abbrev pub contains : ℕ → Text → Bool
contains c s = any (λ d. d == c) s

-- `BufRead::lines`, one call of `next`: the line without its line feed or its carriage return and
-- line feed, and what is left to read.
unfoldable pub next_line : Text → Option (Text × Text)
unfolding until after strip_cr
next_line [] = none
next_line (c ∷ s) =
    let line = until b'\n' (c ∷ s) in
    some (if contains b'\n' (c ∷ s) then strip_cr line else line, after b'\n' (c ∷ s))

-- `Context::new`, `authenticate` and `acct_mgmt`, with the user and the password.
pub record PamLibrary : Type 0 where
  pub start : Text → Text → Bool
  pub check_password : Text → Text → Bool
  pub check_account : Text → Text → Bool

abbrev pub context_code : PamLibrary → Text → Text → ℕ
context_code pam user password =
    if not (pam.start user password)
    then 4
    else if not (pam.check_password user password)
    then 1
    else if not (pam.check_account user password)
    then 2
    else 0

abbrev pub password_code : PamLibrary → Text → Option (Text × Text) → ℕ
password_code pam user none = 3
password_code pam user (some (password, rest)) = context_code pam user password

abbrev pub user_code : PamLibrary → Option (Text × Text) → ℕ
unfolding next_line
user_code pam none = 3
user_code pam (some (user, rest)) =
    let code = password_code pam user (next_line rest) in if is_empty user then 3 else code

-- The exit code of the helper for what is on its stdin.
unfoldable pub pam_auth_mode : PamLibrary → Text → ℕ
unfolding user_code next_line
pam_auth_mode pam stdin = user_code pam (next_line stdin)

-- How running the helper ends. An exit by a signal has no code.
pub data Ending : Type 0 where
  exited : Option ℕ → Ending
  unavailable : Ending
  timed_out : Ending

pub record PamResult : Type 0 where
  pub success : Bool
  pub error : Option String

abbrev pub failure : String → PamResult
failure why = record { success = false; error = some why }

abbrev pub of_code : Option ℕ → PamResult
of_code none = failure "authentication failed"
of_code (some code) =
    if code == 0 then record { success = true; error = none } else failure "authentication failed"

abbrev pub of_ending : Ending → PamResult
of_ending (exited code) = of_code code
of_ending unavailable = failure "authentication service unavailable"
of_ending timed_out = failure "authentication timed out"

-- `run` is a run of the helper with what is written to its stdin.
unfoldable pub authenticate : (Text → Ending) → Text → Text → PamResult
authenticate run user password =
    if is_empty user || contains 0 user || contains b'\n' user
    then failure "invalid username"
    else if contains 0 password || contains b'\n' password
    then failure "invalid password"
    else of_ending (run (user ++ b'\n' ∷ (password ++ b'\n' ∷ [])))
