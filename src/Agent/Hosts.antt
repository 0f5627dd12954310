-- ===== src/Agent/Hosts.antt =====
-- The handler `hosts.manage` of agent/src/handlers/hosts.rs: the agent's own list of hosts in
-- /etc/tenodera/hosts.json, and the scan of host keys. The file is what it parses to, or `none`.
pub mod Lookup
pub mod View
pub mod Scan
mod Tests
use tenodera.Prelude.{
  ℕ, ◌%◌, ◌^◌, Bool, true, false, not, ◌&&◌, ◌||◌, Option, some, List, [], ◌∷◌, ◌++◌, String, Text,
  nat_eq, text_eq, ◌==◌, any, retain, length, is_empty, is_some, unwrap_or, if◌then◌else◌,
}
use tenodera.Protocol.Json.{Json}
use tenodera.Agent.Util.{require_admin}
use tenodera.Agent.Commands.{◌>>=◌}

pub record HostEntry : Type 0 where
  pub id : Text
  pub name : Text
  pub address : Text
  pub user : Text
  pub ssh_port : ℕ
  pub added_at : String
  pub host_key : Text

-- What a request says of a host; the port is a u64.
pub record Given : Type 0 where
  pub name : Text
  pub address : Text
  pub user : Text
  pub ssh_port : ℕ
  pub host_key : Text

-- The list in the file.
abbrev pub Disk : Type 0
Disk = Option (List HostEntry)

-- How a save ends: with the file written, or with an error and some content.
pub data Outcome : Type 0 where
  written : Outcome
  failed : Disk → Outcome

pub data Answer : Type 0 where
  denied : Answer
  missing_fields : Answer
  not_found : Answer
  not_saved : Answer
  saved : Answer
  listed : List HostEntry → Answer
  unknown_action : Answer

unfoldable pub load_config : Disk → List HostEntry
load_config disk = unwrap_or disk []

abbrev pub save_config : List HostEntry → Outcome → Answer × Disk
save_config hosts written = (saved, some hosts)
save_config hosts (failed left) = (not_saved, left)

abbrev pub has_id : Text → HostEntry → Bool
has_id id h = h.id == id

-- `v as u16`
abbrev pub as_u16 : ℕ → ℕ
as_u16 n = n % 2 ^ 16

abbrev pub new_entry : Text → String → Given → HostEntry
new_entry id added_at g = record {
  id = id;
  name = g.name;
  address = g.address;
  user = g.user;
  ssh_port = as_u16 g.ssh_port;
  added_at = added_at;
  host_key = g.host_key;
}

-- A host key is only replaced by one.
abbrev pub edited : Given → HostEntry → HostEntry
edited g h = record h {
  name = g.name;
  address = g.address;
  user = g.user;
  ssh_port = as_u16 g.ssh_port;
  host_key = if is_empty g.host_key then h.host_key else g.host_key;
}

-- `iter_mut().find(..)`, and the writes through it.
unfoldable pub edit_first : Text → Given → List HostEntry → List HostEntry
edit_first id g [] = []
edit_first id g (h ∷ hs) =
    let later = edit_first id g hs in if has_id id h then edited g h ∷ hs else h ∷ later

unfoldable pub action_add : Disk → Text → String → Given → Outcome → Answer × Disk
unfolding load_config
action_add disk id added_at g outcome =
    if is_empty g.name || is_empty g.address
    then (missing_fields, disk)
    else save_config (load_config disk ++ new_entry id added_at g ∷ []) outcome

unfoldable pub action_edit : Disk → Text → Given → Outcome → Answer × Disk
unfolding load_config edit_first
action_edit disk id g outcome =
    if is_empty id || is_empty g.name || is_empty g.address
    then (missing_fields, disk)
    else if any (has_id id) (load_config disk)
    then save_config (edit_first id g (load_config disk)) outcome
    else (not_found, disk)

unfoldable pub action_remove : Disk → Text → Outcome → Answer × Disk
unfolding load_config
action_remove disk id outcome =
    let kept = retain (λ h. not (has_id id h)) (load_config disk) in
    if length kept == length (load_config disk) then (not_found, disk) else save_config kept outcome

-- The actions on the list, with what they take; a new host has a fresh id and the time.
pub data Action : Type 0 where
  list : Action
  add : Text → String → Given → Action
  edit : Text → Given → Action
  remove : Text → Action
  unknown : Action

unfoldable pub act : Disk → Action → Outcome → Answer × Disk
unfolding action_add action_edit action_remove load_config
act disk list outcome = (listed (load_config disk), disk)
act disk (add id added_at g) outcome = action_add disk id added_at g outcome
act disk (edit id g) outcome = action_edit disk id g outcome
act disk (remove id) outcome = action_remove disk id outcome
act disk unknown outcome = (unknown_action, disk)

abbrev pub only_reads : Action → Bool
only_reads list = true
only_reads _ = false

unfoldable pub handle_data : (json : Json) → json.Value → Disk → Action → Outcome → Answer × Disk
unfolding require_admin act
handle_data json value disk action outcome =
    if not (only_reads action) && is_some (require_admin json value)
    then (denied, disk)
    else act disk action outcome
