-- ===== src/Agent/Cron/Tests.antt =====
-- A crontab with comments, and requests to write.
use tenodera.Prelude.{◌≡◌, refl, true, false, [], ◌∷◌, string_eq, text_eq, text_beq, codes, All}
use tenodera.Std.Lines.{split_by}
use tenodera.Std.FilePath.{components, parent, file_name, has_name, same_path, same_component}
use tenodera.Protocol.JsonTree.{Branches, entry, nil, leaf, tree_json}
use tenodera.Agent.Commands.{Host, exited}
use tenodera.Agent.Cron.{is_safe_cron_path, manage}
use tenodera.Agent.Cron.Printed.{Job, timed}
use tenodera.Agent.Cron.Writes.{Allowed, manage-Allowed}

abbrev backup : Job
backup = record {
  comment = codes "nightly backup";
  schedule = timed (codes "30") (codes "2") (codes "*") (codes "*") (codes "*");
  user = codes "root";
  program = codes "/usr/bin/backup";
  args = codes "--all" ∷ [];
}

-- No way out of the directory.
dots : is_safe_cron_path (codes "/etc/cron.d/../shadow") ≡ false
unfolding is_safe_cron_path components split_by parent file_name has_name same_path same_component
    text_beq
dots = refl

abbrev host : Host
host = record {
  run = λ log call. exited true [] [] false;
  knows = λ user. true;
  timeout_error = [];
  is_alphanumeric = λ c. false;
  encode = λ s. codes "aGk=";
}

abbrev options : Branches
options = entry "_role" (leaf "admin") (
    entry "_user" (leaf "bob") (
      entry "password" (leaf "pw") (
        entry "action" (leaf "write_system_file")
          (entry "path" (leaf "/etc/cron.d/backup") (entry "content" (leaf "hi") nil)))))

manage-Allowed_example : All (Allowed tree_json host options) (manage tree_json host options []).1
manage-Allowed_example = manage-Allowed tree_json host options
