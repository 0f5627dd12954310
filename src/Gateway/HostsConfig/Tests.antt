-- ===== src/Gateway/HostsConfig/Tests.antt =====
-- A host that is registered and gets a new key, and the theorems about it.
use tenodera.Prelude.{false, none, some, [], ◌∷◌, string_eq, codes}
use tenodera.Gateway.HostsConfig.{HostEntry, Disk, new_host}

abbrev web : HostEntry
web = new_host "h1" "2026-01-01" (codes "web") "key1" false none none

abbrev db : HostEntry
db = new_host "h2" "2026-01-02" (codes "db") "key2" false none none

abbrev disk : Disk
disk = some (record { hosts = web ∷ [] })
