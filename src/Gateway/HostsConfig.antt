-- ===== src/Gateway/HostsConfig.antt =====
-- panel/crates/gateway/src/hosts_config.rs: the registered hosts, kept in a JSON file. The file is
-- what it parses to, or `none` where it is missing or does not parse; a save that fails may leave
-- anything behind, which is its outcome.
pub mod Laws
mod Tests
use tenodera.Prelude.{
  Bool, true, false, Option, none, some, List, [], ◌∷◌, ◌++◌, String, string_eq, Text, text_eq,
  ◌==◌, if◌then◌else◌, find, is_none, is_some, unwrap_or,
}

pub record HostEntry : Type 0 where
  pub id : String
  pub name : Text
  pub hostname : Text
  pub public_key : Option String
  pub added_at : String
  pub is_local : Bool
  pub display_name : Option Text
  pub last_seen : Option String
  pub os_id : Option String

pub record HostsConfig : Type 0 where
  pub hosts : List HostEntry

-- The content of /var/lib/tenodera-gw/hosts.json.
abbrev pub Disk : Type 0
Disk = Option HostsConfig

-- How a save ends: with the file written, or with an error and some content.
pub data Outcome : Type 0 where
  written : Outcome
  failed : Disk → Outcome

unfoldable pub load : Disk → HostsConfig
load disk = unwrap_or disk (record { hosts = [] })

unfoldable pub save : HostsConfig → Outcome → Bool × Disk
save config written = (true, some config)
save config (failed left) = (false, left)

-- `iter_mut().find(p)`, and a write through the reference that it returns.
unfoldable pub update_first :
    (HostEntry → Bool) → (HostEntry → HostEntry) → List HostEntry → List HostEntry
update_first p f [] = []
update_first p f (h ∷ hs) = if p h then f h ∷ hs else h ∷ update_first p f hs

abbrev pub has_id : String → HostEntry → Bool
has_id host_id h = h.id == host_id

abbrev pub has_key : String → HostEntry → Bool
has_key pubkey_b64 h = elim h.public_key as (λ _. Bool) [
  | none ↦ false
  | some key ↦ key == pubkey_b64
]

abbrev pub has_hostname : Text → HostEntry → Bool
has_hostname hostname h = h.hostname == hostname

unfoldable pub update_last_seen : Disk → String → String → Outcome → Disk
unfolding load save update_first
update_last_seen disk host_id now outcome =
    let hosts = (load disk).hosts in
    if is_some (find (has_id host_id) hosts)
    then (save
        (record {
          hosts = update_first (has_id host_id) (λ h. record h { last_seen = some now }) hosts;
        })
        outcome).1
    else disk

unfoldable pub find_by_pubkey : Disk → String → Option HostEntry
unfolding load
find_by_pubkey disk pubkey_b64 = find (has_key pubkey_b64) (load disk).hosts

unfoldable pub find_by_hostname : Disk → Text → Option HostEntry
unfolding load
find_by_hostname disk hostname = find (has_hostname hostname) (load disk).hosts

-- The entry that `register_host` makes, with the id and the time that it draws.
abbrev pub new_host :
    String → String → Text → String → Bool → Option Text → Option String → HostEntry
new_host id added_at hostname pubkey_b64 is_local display_name os_id = record {
  id = id;
  name = hostname;
  hostname = hostname;
  public_key = some pubkey_b64;
  added_at = added_at;
  is_local = is_local;
  display_name = display_name;
  last_seen = none;
  os_id = os_id;
}

-- `save(&config).await?` and then `Ok(entry)`
abbrev pub saved : HostEntry → Bool × Disk → Option HostEntry × Disk
saved entry (true, disk) = (some entry, disk)
saved entry (false, disk) = (none, disk)

unfoldable pub register_host : Disk → HostEntry → Outcome → Option HostEntry × Disk
unfolding load save
register_host disk entry outcome =
    saved entry (save (record { hosts = (load disk).hosts ++ entry ∷ [] }) outcome)

unfoldable pub update_os_id : Disk → String → String → Outcome → Disk
unfolding load save update_first
update_os_id disk host_id os_id outcome = elim (find (has_id host_id) (load disk).hosts) [
  | none ↦ disk
  | some h ↦
      if is_none h.os_id
      then (save
          (record {
            hosts =
                update_first (has_id host_id) (λ h. record h { os_id = some os_id })
                  (load disk).hosts;
          })
          outcome).1
      else disk
]

abbrev pub with_key : String → HostEntry → HostEntry
with_key key h = record h { public_key = some key }

unfoldable pub replace_pubkey : Disk → String → String → Outcome → Option HostEntry × Disk
unfolding load save update_first
replace_pubkey disk host_id new_pubkey_b64 outcome =
    elim (find (has_id host_id) (load disk).hosts) [
      | none ↦ (none, disk)
      | some host ↦ saved (with_key new_pubkey_b64 host) (
          save
            (record {
              hosts = update_first (has_id host_id) (with_key new_pubkey_b64) (load disk).hosts;
            })
            outcome)
    ]
