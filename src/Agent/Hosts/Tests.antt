-- ===== src/Agent/Hosts/Tests.antt =====
-- A list with one host, and requests to change it.
use tenodera.Prelude.{
  ◌≡◌, refl, true, false, some, [], ◌∷◌, is_some, codes, text_beq, if◌then◌else◌,
}
use tenodera.Std.Str.{trim, trim_start, trim_end, strip_prefix}
use tenodera.Std.Lines.{lines, split_by, ended_lines, strip_cr, starts_with, contains_text}
use tenodera.Protocol.JsonTree.{Tree, entry, nil, node, leaf, tree_json}
use tenodera.Agent.Util.{require_admin}
use tenodera.Agent.Commands.{Host, exited, perform}
use tenodera.Agent.Hosts.{HostEntry, Given, Disk, edit, written, handle_data}
use tenodera.Agent.Hosts.Scan.{action_keyscan, scanned, key_of, find_preferred, fingerprint, found}
use tenodera.Agent.Hosts.View.{after, view_after, handle_data-view_after}

abbrev web : HostEntry
web = record {
  id = codes "1";
  name = codes "web";
  address = codes "10.0.0.1";
  user = [];
  ssh_port = 22;
  added_at = "2026";
  host_key = codes "k";
}

abbrev renamed : Given
renamed = record {
  name = codes "www";
  address = codes "10.0.0.2";
  user = codes "bob";
  ssh_port = 65558;
  host_key = [];
}

abbrev disk : Disk
disk = some (web ∷ [])

abbrev request : Tree
request = node (entry "_role" (leaf "admin") nil)

handle_data-view_after_example :
    after (handle_data tree_json request disk (edit (codes "1") renamed) written).1 (codes "1") ≡ (
      if is_some (require_admin tree_json request)
      then after disk (codes "1")
      else view_after (edit (codes "1") renamed) (codes "1") (after disk (codes "1")))
handle_data-view_after_example =
    handle_data-view_after tree_json request disk (edit (codes "1") renamed) (codes "1")

abbrev host : Host
host = record {
  run = λ log call. exited true (codes "# web\nweb ssh-rsa A\nweb ssh-ed25519 B\n") [] false;
  knows = λ user. true;
  timeout_error = [];
  is_alphanumeric = λ c. true;
  encode = λ s. s;
}

-- The key with the preferred algorithm is taken.
ed25519_taken :
    (action_keyscan host (codes "web") 22 []).0
    ≡ found (codes "web ssh-ed25519 B") (codes "# web\nweb ssh-rsa A\nweb ssh-ed25519 B")
unfolding action_keyscan perform scanned key_of find_preferred fingerprint trim trim_start trim_end
    text_beq lines split_by ended_lines strip_cr starts_with strip_prefix contains_text
ed25519_taken = refl
