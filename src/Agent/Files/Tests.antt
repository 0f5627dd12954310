-- ===== src/Agent/Files/Tests.antt =====
-- Requests of a user with and without a password.
use tenodera.Prelude.{
  ◌≡◌, refl, true, false, some, [], ◌∷◌, ◌&&◌, leb, arith, text_eq, text_beq, codes,
}
use tenodera.Std.FilePath.{
  root_dir, normal, components, join_path, parent, file_name, starts_with_path, same_component,
}
use tenodera.Std.Number.{decimal}
use tenodera.Std.Str.{trim, trim_start, strip_prefix}
use tenodera.Std.Lines.{strip_cr, contains_text, starts_with}
use tenodera.Std.Lines.Laws.{print_lines, blanks}
use tenodera.Agent.Files.Listing.{parse_ls_output}
use tenodera.Agent.Files.Listing.Printed.{
  Row, IsRow, row_text, row_entry, parse_ls_output-print_lines,
}
use tenodera.Agent.Commands.{Host, exited, done, is_valid_username, spawn_as, utf8_length}
use tenodera.Agent.Files.{FileSystem, Request, command, failed, write, in_home, home_of}
use tenodera.Agent.Files.Changes.{write_as_user, limited, target_of}
use tenodera.Agent.Files.Handlers.{open_file, unelevated}

abbrev host : Host
host = record {
  run = λ log call. exited true (codes "text/plain") [] false;
  knows = λ user. true;
  timeout_error = [];
  is_alphanumeric = λ c. leb b'a' c && leb c b'z';
  encode = λ s. codes "aGk=";
}

-- A tree without links.
abbrev files : FileSystem
files = record {
  canonicalize = λ path. some (root_dir ∷ normal (codes "etc") ∷ []);
  canonicalize_dir = λ dir. some dir;
  is_dir = λ path. false;
  is_dir_path = λ path. false;
}

abbrev request : Request
request = record {
  path = codes "/home/bob/notes";
  password = [];
  user = codes "bob";
  content = codes "hi";
  offset = 0;
}

-- The write of the user's own file is done, and that of another's is refused.
write_own : (open_file host files write request []).0 ≡ command done
unfolding open_file unelevated write_as_user limited is_valid_username in_home home_of spawn_as
    target_of utf8_length text_beq components join_path parent file_name starts_with_path
    same_component trim
write_own = refl

write_other :
    (open_file host files write (record request { path = codes "/home/eve/notes" }) [])
    ≡ (failed (codes "Limited access: restricted to your home directory"), [])
unfolding open_file unelevated write_as_user limited is_valid_username in_home home_of spawn_as
    target_of utf8_length text_beq components join_path parent file_name starts_with_path
    same_component
write_other = refl

abbrev row : Row
row = record {
  perms = (codes "-rw-r--r--", 0);
  links = (codes "1", 0);
  user = (codes "bob", 2);
  group = (codes "staff", 0);
  size = 4096;
  size_gap = 5;
  date = (codes "2026-01-01", 0);
  time = (codes "12:00", 0);
  name = codes "my notes.txt";
}

-- The directory itself.
abbrev own_row : Row
own_row = record row { perms = (codes "drwxr-xr-x", 0); name = codes "." }

own_row-IsRow : IsRow own_row
unfolding decimal row_text blanks strip_cr text_beq trim_start contains_text starts_with
    strip_prefix
own_row-IsRow = record {
  perms_ok = refl;
  links_ok = refl;
  user_ok = refl;
  group_ok = refl;
  size_ok = omega arith;
  date_ok = refl;
  time_ok = refl;
  name_ok = refl;
  line_ok = refl;
}

row-IsRow : IsRow row
unfolding decimal row_text blanks strip_cr text_beq trim_start contains_text starts_with
    strip_prefix
row-IsRow = record {
  perms_ok = refl;
  links_ok = refl;
  user_ok = refl;
  group_ok = refl;
  size_ok = omega arith;
  date_ok = refl;
  time_ok = refl;
  name_ok = refl;
  line_ok = refl;
}

parse_ls_output-print_lines_example :
    parse_ls_output (print_lines (codes "total 8" ∷ row_text own_row ∷ row_text row ∷ []))
    ≡ row_entry row ∷ []
unfolding strip_cr text_beq
parse_ls_output-print_lines_example =
    parse_ls_output-print_lines (codes "total 8") (own_row ∷ row ∷ []) refl
      (own_row-IsRow, (row-IsRow, tt))
