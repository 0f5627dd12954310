-- ===== src/Agent/Files.antt =====
-- The handlers `file.read`, `file.write`, `file.mkdir`, `file.delete` and `file.list` of
-- agent/src/handlers/file_ops.rs and file_list.rs. The file system's answers are parameters, taken
-- once for a request. A request is what the handlers read from the options of an open request.
pub mod Listing
pub mod Reading
pub mod Changes
pub mod Handlers
pub mod Access
mod Tests
use tenodera.Prelude.{
  ℕ, ◌+◌, ◌-◌, ◌*◌, ◌^◌, Bool, true, false, not, ◌&&◌, ◌||◌, Option, none, some, List, [], ◌∷◌,
  ◌++◌, Text, nat_eq, text_eq, ◌==◌, ltb, leb, any, is_empty, codes, if◌then◌else◌,
}
use tenodera.Std.Str.{trim, ends_with}
use tenodera.Std.Lines.{words, contains_text, starts_with, trim_start_text, join}
use tenodera.Std.Number.{parse_unsigned, decimal}
use tenodera.Std.FilePath.{
  Component, root_dir, normal, FilePath, components, join_path, starts_with_path, parent, file_name,
  path_text,
}
use tenodera.Agent.Util.{shell_escape}
use tenodera.Agent.Commands.{
  Host, M, ◌>>=◌, pure, run_cmd, Reply, sudo_as_user, sudo_output_as_user, sudo_stdin_write_as_user,
  is_valid_username, spawn_as, sudo_n,
}
use tenodera.Agent.Files.Listing.{Entry, parse_ls_output}

pub record FileSystem : Type 0 where
  -- `Path::new(path).canonicalize()`, and that of the path's parent
  pub canonicalize : Text → Option FilePath
  pub canonicalize_dir : FilePath → Option FilePath
  pub is_dir : Text → Bool
  pub is_dir_path : FilePath → Bool

pub record Request : Type 0 where
  pub path : Text
  pub password : Text
  pub user : Text
  pub content : Text
  pub offset : ℕ

-- The JSON that a handler answers.
pub data FileReply : Type 0 where
  failed : Text → FileReply
  -- the type and the resolved path
  binary : Text → Text → FileReply
  -- the resolved path, the content, the number of lines and the offset
  page : Text → Text → ℕ → ℕ → FileReply
  -- the resolved path
  listing : Text → List Entry → FileReply
  command : Reply → FileReply

abbrev pub page_lines : ℕ
page_lines = 200

abbrev pub text_mimes : List Text
text_mimes =
    codes "application/json"
    ∷ codes "application/xml"
    ∷ codes "application/javascript"
    ∷ codes "application/x-sh"
    ∷ codes "application/x-shellscript"
    ∷ codes "application/toml"
    ∷ codes "application/x-yaml"
    ∷ codes "application/x-httpd-php"
    ∷ codes "application/x-perl"
    ∷ codes "application/x-ruby"
    ∷ codes "application/x-python"
    ∷ []

unfoldable pub is_text_mime : Text → Bool
unfolding starts_with ends_with
is_text_mime mime =
    (starts_with (codes "text/") mime || mime == codes "inode/x-empty")
    || any (λ m. m == mime) text_mimes
    || ends_with (codes "+xml") mime
    || ends_with (codes "+json") mime

-- `Path::new("/home").join(user)`
unfoldable pub home_of : Text → FilePath
unfolding join_path
home_of user = join_path (root_dir ∷ normal (codes "home") ∷ []) user

unfoldable pub in_home : Text → FilePath → Bool
unfolding home_of starts_with_path
in_home user target = starts_with_path target (home_of user)

abbrev pub restricted : FileReply
restricted = failed (codes "Limited access: restricted to your home directory")

abbrev pub no_context : FileReply
no_context = failed (codes "invalid user context")

-- An output that reports a failure.
abbrev pub is_failure : Text → Bool
unfolding starts_with contains_text
is_failure out = starts_with (codes "error:") out || contains_text (codes "Permission denied") out

abbrev pub failure : Text → FileReply
unfolding trim trim_start_text
failure out = failed (trim (trim_start_text (codes "error:") out))

abbrev pub first_number : List Text → ℕ
first_number [] = 0
first_number (w ∷ ws) = elim (parse_unsigned (2 ^ 64) w) as (λ _. ℕ) [ none ↦ 0 | some n ↦ n ]

-- `sed`'s range for a page
abbrev pub page_range : ℕ → Text
page_range offset =
    decimal (offset + 1) ++ (b',' ∷ (decimal (offset + 1 + page_lines - 1) ++ b'p' ∷ []))

abbrev pub mime_command : Text → List Text
mime_command resolved = codes "-b" ∷ codes "--mime-type" ∷ codes "--" ∷ resolved ∷ []

pub data Operation : Type 0 where
  read write mkdir delete list : Operation

abbrev pub needs_path : Operation → Bool
needs_path list = false
needs_path _ = true

abbrev pub rm_command : Bool → Text → List Text
rm_command recursive path =
    if recursive
    then codes "rm" ∷ codes "-r" ∷ codes "--" ∷ path ∷ []
    else codes "rm" ∷ codes "--" ∷ path ∷ []

abbrev pub ls_command : Text → List Text
ls_command resolved =
    codes "ls" ∷ codes "-laH" ∷ codes "--time-style=long-iso" ∷ codes "--" ∷ resolved ∷ []

abbrev pub listed : Text → Bool → Text → FileReply
unfolding parse_ls_output
listed resolved denied out =
    if denied then failed (codes "Permission denied") else listing resolved (parse_ls_output out)

-- The error of the operating system stands behind it.
abbrev pub unresolved : FileReply
unresolved = failed (codes "cannot resolve path")

abbrev pub brokered : M Reply → M FileReply
brokered m = do reply ← m; pure (command reply)
