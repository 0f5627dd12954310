-- ===== src/Agent/Users/Tests.antt =====
-- Requests to create accounts.
use tenodera.Prelude.{◌≡◌, refl, true, false, some, [], ◌∷◌, ◌++◌, text_eq, text_beq, codes, All}
use tenodera.Std.Str.{ends_with, strip_prefix}
use tenodera.Std.Lines.{lines, split_by, ended_lines, strip_cr, join, starts_with}
use tenodera.Protocol.JsonTree.{Tree, entry, nil, node, leaf, tree_json}
use tenodera.Agent.Commands.{exited, utf8_length}
use tenodera.Agent.Users.{NewUser, is_valid_username, useradd_args}
use tenodera.Agent.Users.Accounts.{UsersHost}
use tenodera.Agent.Users.Requests.{create, handle_data}
use tenodera.Agent.Users.Tools.{read_args}
use tenodera.Agent.Users.Changes.Guarded.{Permitted, handle_data-Permitted}

abbrev users_host : UsersHost
users_host = record {
  host = record {
    run = λ log call. exited true [] [] false;
    knows = λ user. true;
    timeout_error = [];
    is_alphanumeric = λ c. false;
    encode = λ s. codes "aGk=";
  };
  shells_file = some (codes "/bin/sh\n");
  exists = λ path. true;
}

abbrev eve : NewUser
eve = record {
  username = codes "eve";
  gecos = codes "-G wheel";
  home = [];
  shell = codes "/bin/sh";
  create_home = true;
  new_password = codes "pw";
  force_change = true;
  groups = [];
}

abbrev request : Tree
request = node (entry "_role" (leaf "admin") (entry "_user" (leaf "bob") nil))

handle_data-Permitted_example :
    All
      (Permitted users_host tree_json request (codes "bob") (codes "pw") (create eve))
      (handle_data users_host tree_json request (codes "bob") (codes "pw") (create eve) []).1
handle_data-Permitted_example =
    handle_data-Permitted users_host tree_json request (codes "bob") (codes "pw") (create eve)

-- A full name that looks like an option is none.
eve_read : read_args (useradd_args eve) ≡ (
  (codes "-m", []) ∷ (codes "-c", codes "-G wheel") ∷ (codes "-s", codes "/bin/sh") ∷ [],
  codes "eve" ∷ [],
)
unfolding read_args useradd_args text_beq starts_with strip_prefix join
eve_read = refl

option_refused : is_valid_username (codes "-r") ≡ false
unfolding is_valid_username utf8_length ends_with text_beq
option_refused = refl

-- A line feed in a password gives chpasswd a second line.
second_account :
    lines (codes "eve" ++ b':' ∷ (codes "x\nroot:y" ++ b'\n' ∷ []))
    ≡ codes "eve:x" ∷ codes "root:y" ∷ []
unfolding lines split_by ended_lines strip_cr
second_account = refl
