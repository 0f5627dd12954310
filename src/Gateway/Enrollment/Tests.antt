-- ===== src/Gateway/Enrollment/Tests.antt =====
-- Agents that come back, enrol and are refused, and the theorems about them.
use tenodera.Prelude.{
  ◌≡◌, refl, true, false, none, some, [], ◌∷◌, string_eq, text_eq, text_beq, codes,
}
use tenodera.Gateway.HostsConfig.{
  HostEntry, written, new_host, register_host, find_by_pubkey, find_by_hostname,
}
use tenodera.Gateway.Registry.Agents.{new}
use tenodera.Gateway.Enrollment.{
  World, Draws, Candidate, AuthenticatedAgent, resolve_auth_path, by_key, unknown_key, new_hostname,
}
use tenodera.Gateway.Enrollment.Paths.{authenticated_owns_key}
use tenodera.Gateway.Enrollment.Entry.{is_authenticated, may_enter, granted, enters_exactly}
use tenodera.Gateway.Enrollment.Refusal.{IsRefused, resolve_auth_path-IsRefused}

abbrev web : HostEntry
web = new_host "h1" "2026-01-01" (codes "web") "key1" false none none

abbrev world : World
unfolding new
world = record { disk = some (record { hosts = web ∷ [] }); tokens = []; agents = new }

abbrev draws : Draws
draws = record { now = 5; id = "h2"; added_at = "2026-01-02"; outcome = written }

-- An agent on the gateway's own host.
abbrev local : Candidate
local = record {
  hostname = codes "panel";
  pubkey_b64 = "key2";
  bootstrap_token = none;
  is_local = true;
  remote_ip = codes "127.0.0.1";
  os_id = some "debian";
}

-- A stranger that gives a registered host's name.
abbrev stranger : Candidate
stranger = record {
  hostname = codes "web";
  pubkey_b64 = "key3";
  bootstrap_token = some "guess";
  is_local = false;
  remote_ip = codes "203.0.113.7";
  os_id = none;
}

abbrev panel : AuthenticatedAgent
panel = record {
  host = new_host "h2" "2026-01-02" (codes "panel") "key2" true none (some "debian");
  remote_ip = codes "127.0.0.1";
}

authenticated_owns_key_example : panel.host.public_key ≡ some "key2"
unfolding resolve_auth_path by_key unknown_key new_hostname find_by_pubkey find_by_hostname
    register_host world text_beq
authenticated_owns_key_example = authenticated_owns_key codes world draws local panel refl

enters_exactly_example :
    is_authenticated ((resolve_auth_path codes world draws local).0)
    ≡ may_enter codes world draws local
enters_exactly_example = enters_exactly codes world draws local refl

resolve_auth_path-IsRefused_example : IsRefused world (resolve_auth_path codes world draws stranger)
unfolding may_enter granted find_by_pubkey find_by_hostname world text_beq
resolve_auth_path-IsRefused_example = resolve_auth_path-IsRefused codes world draws stranger refl
