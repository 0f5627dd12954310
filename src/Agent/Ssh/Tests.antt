-- ===== src/Agent/Ssh/Tests.antt =====
-- A file with two keys, and requests to change it.
use tenodera.Prelude.{
  ◌≡◌, refl, true, false, not, none, some, [], ◌∷◌, ◌++◌, Text, text_eq, text_beq, ◌==◌, codes,
  retain, if◌then◌else◌,
}
use tenodera.Std.Str.{trim, trim_start, trim_end, strip_prefix}
use tenodera.Std.Lines.{words, starts_with, split_by, join}
use tenodera.Std.Lines.Edits.{trimmed_lines}
use tenodera.Std.Lines.Trim.{no_feed}
use tenodera.Protocol.JsonTree.{Branches, entry, nil, leaf}
use tenodera.Agent.Commands.{exited, utf8_length}
use tenodera.Agent.Ssh.{
  panics, parse_key_line, from_type, preview_of, before_byte, from_byte, holds_key, with_key,
  without_key, with_edit,
}
use tenodera.Agent.Ssh.Keys.{replace_first, keys_edited}
use tenodera.Agent.Ssh.Manage.{SshHost}

abbrev file : Text
file = codes "ssh-rsa AAAA bob\r\n# comment\n  ssh-rsa BBBB eve"

abbrev given : Text
given = codes " ssh-ed25519 CCCC bob\n"

one_line : no_feed (trim given) ≡ true
unfolding trim trim_start trim_end text_beq
one_line = refl

keys_edited_example :
    (trimmed_lines (with_key file (trim given)) ≡ trimmed_lines file ++ trim given ∷ [])
    × (trimmed_lines (without_key file (trim given))
        ≡ retain (λ l. not (l == trim given)) (trimmed_lines file))
    × (trimmed_lines (
          if holds_key file (codes "ssh-rsa BBBB eve")
          then with_edit file (codes "ssh-rsa BBBB eve") (trim given)
          else file)
        ≡ replace_first (codes "ssh-rsa BBBB eve") (trim given) (trimmed_lines file))
keys_edited_example = keys_edited file given (codes "ssh-rsa BBBB eve") one_line

-- A blob of more than twenty bytes that is cut inside a character.
cut_panics : parse_key_line (codes "ssh-rsa aéééééééééééé") ≡ panics
unfolding parse_key_line trim trim_start trim_end text_beq words split_by starts_with strip_prefix
    from_type preview_of before_byte from_byte utf8_length join
cut_panics = refl

abbrev ssh_host : SshHost
ssh_host = record {
  host = record {
    run = λ log call. exited true [] [] false;
    knows = λ user. true;
    timeout_error = [];
    is_alphanumeric = λ c. false;
    encode = λ s. codes "aGk=";
  };
  account = λ user. some (record { uid = 1000; gid = 1000; home = codes "/home/bob" });
  read = λ log path. file;
  stage = λ log content. none;
}

abbrev options : Branches
options = entry "_role" (leaf "admin") (
    entry "_user" (leaf "bob") (
      entry "password" (leaf "pw") (
        entry "action" (leaf "remove_key")
          (entry "user" (leaf "bob") (entry "key" (leaf "ssh-rsa BBBB eve") nil)))))
