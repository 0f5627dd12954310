-- ===== src/Agent/Commands.antt =====
-- The commands of agent/src/util.rs: who runs them, and what becomes of how they end. The processes
-- that are started are kept in a log; the host says how each ends, by what was started before.
-- Output is text: the lossy decoding of bytes is done.
pub mod Gate
pub mod Quoting
mod Tests
use tenodera.Prelude.{
  ℕ, Bool, true, false, not, ◌&&◌, ◌||◌, Option, none, some, List, [], ◌∷◌, ◌++◌, Text, nat_eq,
  ◌==◌, leb, map, retain, any, all, is_empty, codes, length, ◌+◌, if◌then◌else◌,
}
use tenodera.Std.Str.{trim}
use tenodera.Std.Lines.{lines, join, contains_text, starts_with}
use tenodera.Agent.Util.{shell_escape}

-- A process: the agent's own, as root, or one that has dropped to a user before its start.
pub data Call : Type 0 where
  as_root : List Text → Call
  -- as root, with what is written to its stdin
  fed : List Text → Text → Call
  -- the user, the program with its arguments, and what is written to its stdin
  as_person : Text → List Text → Text → Call

-- How a process ends under the limits.
pub data Ending : Type 0 where
  -- it could not be started or waited for
  broken : Text → Ending
  timed_out : Ending
  -- success, stdout, stderr, and whether output was cut
  exited : Bool → Text → Text → Bool → Ending

pub record Host : Type 0 where
  -- how a process ends, after those that were started before, the newest first
  pub run : List Call → Call → Ending
  -- `lookup_user`
  pub knows : Text → Bool
  -- `timeout_error()`
  pub timeout_error : Text
  -- `char::is_alphanumeric`, a table of Unicode
  pub is_alphanumeric : ℕ → Bool
  -- base64's STANDARD engine
  pub encode : Text → Text

-- What a piece of code answers and starts.
abbrev pub M : Type 0 → Type 0
M A = List Call → A × List Call

infixl 5 ◌>>=◌
abbrev pub ◌>>=◌ : {A B : Type 0} → M A → (A → M B) → M B
◌>>=◌ m f log = let r = m log in f r.0 r.1

abbrev pub pure : {A : Type 0} → A → M A
pure a log = (a, log)

-- The number of bytes of a text in UTF-8.
abbrev pub utf8_size : ℕ → ℕ
utf8_size c = if leb c 0x7f then 1 else if leb c 0x7ff then 2 else if leb c 0xffff then 3 else 4

unfoldable pub utf8_length : Text → ℕ
utf8_length [] = 0
utf8_length (c ∷ s) = utf8_size c + utf8_length s

-- `line.contains("[sudo]") || line.contains("password for")`
abbrev pub is_noise : Text → Bool
unfolding contains_text
is_noise line = contains_text (codes "[sudo]") line || contains_text (codes "password for") line

unfoldable pub clean_sudo_stderr : Text → Text
unfolding lines join is_noise trim
clean_sudo_stderr stderr =
    let clean = trim (join (b'\n' ∷ []) (retain (λ l. not (is_noise l)) (lines stderr))) in
    if is_empty clean then codes "command failed" else clean

-- The JSON that `sudo_as_user` answers: `ok` with the output, or an error.
pub data Reply : Type 0 where
  -- the output, and whether it was cut
  output : Text → Bool → Reply
  error : Text → Reply
  -- `{ "ok": true }` alone
  done : Reply

-- `UserReadOutcome`
pub data UserReadOutcome : Type 0 where
  no_account : UserReadOutcome
  -- success, stdout and stderr
  ran : Bool → Text → Text → UserReadOutcome
  spawn_failed : Text → UserReadOutcome

abbrev pub error_prefix : Text → Text
error_prefix s = codes "error: " ++ s

abbrev pub not_present : Text → Text
not_present user = codes "user '" ++ (user ++ codes "' is not present on this host")

-- The command line behind `Command::new("sudo")`.
abbrev pub sudo_n : Text → List Text → List Text
sudo_n user args = codes "sudo" ∷ codes "-n" ∷ codes "-u" ∷ user ∷ codes "--" ∷ args

module _ (host : Host) where
  unfoldable pub perform : Call → M Ending
  perform call log = (host.run log call, call ∷ log)

  abbrev pub of_run : Ending → Text
  of_run (broken e) = error_prefix e
  of_run timed_out = error_prefix host.timeout_error
  of_run (exited success stdout stderr cut) = if is_empty stdout then stderr else stdout

  unfoldable pub run_cmd : List Text → M Text
  unfolding perform
  run_cmd [] = pure []
  run_cmd (program ∷ args) = do ending ← perform (as_root (program ∷ args)); pure (of_run ending)

  abbrev pub of_sudo : Ending → Reply
  unfolding clean_sudo_stderr trim
  of_sudo (broken e) = error e
  of_sudo timed_out = error host.timeout_error
  of_sudo (exited true stdout stderr cut) = output (trim stdout) cut
  of_sudo (exited false stdout stderr cut) = error (clean_sudo_stderr stderr)

  unfoldable pub sudo_as_user : Text → Text → List Text → M Reply
  unfolding perform
  sudo_as_user user password args =
      let stdin = password ++ b'\n' ∷ [] in
      let program = codes "sudo" ∷ codes "-S" ∷ codes "-k" ∷ args in
      let start : M Reply = (do
        ending ← perform (as_person user program stdin)
        pure (of_sudo ending)) in
      if not (host.knows user) then pure (error (not_present user)) else start

  abbrev pub of_read : Ending → UserReadOutcome
  of_read (broken e) = spawn_failed e
  of_read timed_out = spawn_failed host.timeout_error
  of_read (exited success stdout stderr cut) = ran success stdout stderr

  unfoldable pub run_cmd_as_user : Text → List Text → M UserReadOutcome
  unfolding perform
  run_cmd_as_user user args =
      let start : M UserReadOutcome = (do
        ending ← perform (as_person user args [])
        pure (of_read ending)) in
      if not (host.knows user)
      then pure no_account
      else if is_empty args
      then pure (spawn_failed (codes "no command"))
      else start

  -- `res.get("output")`, or the error
  abbrev pub text_of : Reply → Text
  text_of (output s cut) = s
  text_of (error e) = error_prefix e
  text_of done = error_prefix (codes "command failed")

  unfoldable pub sudo_output_as_user : Text → Text → List Text → M Text
  unfolding sudo_as_user
  sudo_output_as_user user password args = do
    reply ← sudo_as_user user password args
    pure (text_of reply)

  -- The pipeline that writes a content to a command.
  unfoldable pub pipeline : List Text → Text → Text
  unfolding join
  pipeline args content =
      codes "printf '"
      ++ (host.encode content
          ++ (codes "' | base64 -d | " ++ join (b' ' ∷ []) (map shell_escape args)))

  abbrev pub of_write : Reply → Reply
  of_write (output s cut) = done
  of_write (error e) = error e
  of_write done = done

  unfoldable pub sudo_stdin_write_as_user : Text → Text → List Text → Text → M Reply
  unfolding pipeline sudo_as_user
  sudo_stdin_write_as_user user password args content = do
    reply ← sudo_as_user user password (codes "sh" ∷ codes "-c" ∷ pipeline args content ∷ [])
    pure (of_write reply)

  unfoldable pub is_valid_username : Text → Bool
  unfolding utf8_length
  is_valid_username user =
      not (is_empty user)
      && leb (utf8_length user) 64
      && not (starts_with (b'-' ∷ []) user)
      && all (λ c. host.is_alphanumeric c || c == b'_' || c == b'-' || c == b'.') user

  -- `Command::new("sudo").args(["-n", "-u", user, "--", ..]).output()`, with what the callers make
  -- of how it ends. No limits are set there, so `timed_out` does not come.
  abbrev pub of_spawn : Ending → Reply
  unfolding trim
  of_spawn (broken e) = error e
  of_spawn timed_out = error []
  of_spawn (exited true stdout stderr cut) = done
  of_spawn (exited false stdout stderr cut) =
      let msg = trim stderr in if is_empty msg then error (codes "Permission denied") else error msg

  unfoldable pub spawn_as : Text → List Text → M Reply
  unfolding perform
  spawn_as user args = do ending ← perform (as_root (sudo_n user args)); pure (of_spawn ending)
