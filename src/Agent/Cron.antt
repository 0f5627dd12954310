-- ===== src/Agent/Cron.antt =====
-- The handlers `cron.list` and `cron.manage` of agent/src/handlers/cron.rs: the parsers of crontabs,
-- the checks of paths and names, and who may write. The listing of directories is not modelled.
pub mod Printed
pub mod Entries
pub mod Writes
mod Tests
use tenodera.Prelude.{
  ℕ, Bool, true, false, not, ◌&&◌, ◌||◌, Option, none, some, List, [], ◌∷◌, ◌++◌, String, string_eq,
  Text, nat_eq, text_eq, ◌==◌, ltb, leb, all, any, map, length, take, drop, is_empty, is_some,
  is_none, codes, ◌>>=◌, if◌then◌else◌,
}
use tenodera.Std.Str.{trim, trim_start, until}
use tenodera.Std.Lines.{lines, words, join, starts_with, trim_start_char}
use tenodera.Std.FilePath.{
  Component, root_dir, normal, FilePath, components, parent, file_name, same_path, has_name,
}
use tenodera.Protocol.Json.{Json}
use tenodera.Agent.Util.{require_admin}
use tenodera.Agent.Commands
use tenodera.Agent.Commands.{Host, M, pure, Reply, sudo_stdin_write_as_user}

pub record CronEntry : Type 0 where
  pub schedule : Text
  pub user : Text
  pub command : Text
  pub comment : Text

abbrev pub is_alphanumeric : ℕ → Bool
is_alphanumeric c =
    (leb b'a' c && leb c b'z') || (leb b'A' c && leb c b'Z') || (leb b'0' c && leb c b'9')

-- `A=..`: nothing but letters, digits and underscores before the first `=`.
abbrev pub is_assignment : Text → Bool
unfolding until
is_assignment line =
    any (λ c. c == b'=') line && all (λ c. is_alphanumeric c || c == b'_') (until b'=' line)

-- A user's crontab has no column for the user.
pub data Kind : Type 0 where
  system : Kind
  of_user : Text → Kind

-- `tokens.len() < n`, with the words before the command.
abbrev pub special_entry : Kind → Text → List Text → Option CronEntry
unfolding join
special_entry system comment (schedule ∷ user ∷ word ∷ command) = some (record {
  schedule = schedule;
  user = user;
  command = join (codes " ") (word ∷ command);
  comment = comment;
})
special_entry (of_user username) comment (schedule ∷ word ∷ command) = some (record {
  schedule = schedule;
  user = username;
  command = join (codes " ") (word ∷ command);
  comment = comment;
})
special_entry _ comment _ = none

abbrev pub timed_entry : Kind → Text → List Text → Option CronEntry
unfolding join
timed_entry system comment (m ∷ h ∷ dom ∷ month ∷ dow ∷ user ∷ word ∷ command) = some (record {
  schedule = join (codes " ") (m ∷ h ∷ dom ∷ month ∷ dow ∷ []);
  user = user;
  command = join (codes " ") (word ∷ command);
  comment = comment;
})
timed_entry (of_user username) comment (m ∷ h ∷ dom ∷ month ∷ dow ∷ word ∷ command) = some (record {
  schedule = join (codes " ") (m ∷ h ∷ dom ∷ month ∷ dow ∷ []);
  user = username;
  command = join (codes " ") (word ∷ command);
  comment = comment;
})
timed_entry _ comment _ = none

abbrev pub entry_of : Kind → Text → List Text → Option CronEntry
unfolding starts_with
entry_of kind comment [] = none
entry_of kind comment (token ∷ tokens) =
    if starts_with (codes "@") token
    then special_entry kind comment (token ∷ tokens)
    else timed_entry kind comment (token ∷ tokens)

-- `parse_system_line` and `parse_user_line`
unfoldable pub parse_line : Kind → Text → Text → Option CronEntry
unfolding words
parse_line kind line comment = entry_of kind comment (words line)

-- A comment, joined to the one that waits.
abbrev pub joined : Text → Text → Text
joined pending c =
    if is_empty c then pending else if is_empty pending then c else pending ++ (codes " " ++ c)

abbrev pub keep : Option CronEntry → List CronEntry → List CronEntry
keep none entries = entries
keep (some e) entries = e ∷ entries

-- The loop over the trimmed lines, with the comment that waits for its entry.
unfoldable pub parse_lines : Kind → Text → List Text → List CronEntry
parse_lines kind pending [] = []
parse_lines kind pending (line ∷ rest) =
    let trimmed = trim line in
    let commented = parse_lines kind (joined pending (trim (trim_start_char b'#' trimmed))) rest in
    let cleared = parse_lines kind [] rest in
    if starts_with (codes "#") trimmed
    then commented
    else if is_empty trimmed || is_assignment trimmed
    then cleared
    else keep (parse_line kind trimmed pending) cleared

-- `parse_system_crontab` and `parse_user_crontab`
unfoldable pub parse_crontab : Kind → Text → List CronEntry
unfolding parse_lines lines
parse_crontab kind content = parse_lines kind [] (lines content)

abbrev pub safe_char : ℕ → Bool
safe_char c = is_alphanumeric c || c == b'-' || c == b'_' || c == b'.'

unfoldable pub is_safe_username : Text → Bool
is_safe_username name = not (is_empty name) && all safe_char name

abbrev pub etc : Text → FilePath
etc name = root_dir ∷ normal (codes "etc") ∷ normal name ∷ []

unfoldable pub is_safe_cron_path : Text → Bool
unfolding components parent file_name same_path has_name
is_safe_cron_path path =
    let p = components path in
    let in_cron_d : Bool = elim (parent p) as (λ _. Bool) [
      | none ↦ false
      | some dir ↦ same_path dir (etc (codes "cron.d"))
    ] in
    same_path p (etc (codes "crontab")) || (in_cron_d && has_name p && all safe_char (file_name p))

-- The JSON that `cron.manage` answers.
pub data Answer : Type 0 where
  denied : Answer
  refused : Text → Answer
  written : Reply → Answer

abbrev pub answer_of : M Reply → M Answer
answer_of m log = (written (m log).0, (m log).1)

abbrev pub text_or : Text → Option Text → Text
text_or other none = other
text_or other (some s) = s

module _ (json : Json) (host : Host) where
  abbrev pub text_at : String → json.Value → Option Text
  text_at key value =
      json.as_object value >>= λ m. json.get key m >>= λ v. json.as_str v >>= λ s. some (codes s)

  abbrev pub set_user_crontab : Text → Text → Text → Text → M Answer
  unfolding sudo_stdin_write_as_user is_safe_username
  set_user_crontab user password target content =
      let write = answer_of (
        sudo_stdin_write_as_user host user password
          (codes "crontab" ∷ codes "-u" ∷ target ∷ codes "-" ∷ []) content) in
      if not (is_safe_username target) then pure (refused (codes "invalid username")) else write

  abbrev pub write_system_file : Text → Text → Text → Text → M Answer
  unfolding sudo_stdin_write_as_user is_safe_cron_path
  write_system_file user password path content =
      let write =
        answer_of (sudo_stdin_write_as_user host user password (codes "tee" ∷ path ∷ []) content) in
      if not (is_safe_cron_path path) then pure (refused (codes "invalid path")) else write

  -- The actions of `cron.manage`.
  unfoldable pub act : json.Value → Text → M Answer
  act value action =
      let user = text_or [] (text_at "_user" value) in
      let password = text_or [] (text_at "password" value) in
      let content = text_or [] (text_at "content" value) in
      let set =
        set_user_crontab user password (text_or user (text_at "target_user" value)) content in
      let write = write_system_file user password (text_or [] (text_at "path" value)) content in
      if action == codes "set_user_crontab"
      then set
      else if action == codes "write_system_file"
      then write
      else pure (refused (codes "unknown action: " ++ action))

  unfoldable pub manage : json.Fields → M Answer
  unfolding require_admin act
  manage options =
      let value = json.object options in
      let acted = act value (text_or [] (text_at "action" value)) in
      if is_some (require_admin json value) then pure denied else acted
