-- ===== src/Gateway/AgentAuth/Pending.antt =====
-- The agents that wait for an administrator, of panel/crates/gateway/src/agent_auth.rs. The two
-- fingerprints of a key, hexadecimal and for display, are parameters (SHA-256 and base64). The
-- sender half of a oneshot channel is the channel's number.
pub mod Caps
use tenodera.Prelude.{
  ℕ, Bool, true, false, not, ◌&&◌, Option, none, some, List, [], ◌∷◌, String, string_eq, Text,
  text_eq, nat_eq, ◌==◌, leb, if◌then◌else◌, length, find, retain, map, ◌>>=◌,
}
use tenodera.Dict.{Dict, get, contains_key, insert, remove, values}
use tenodera.Std.Time.{Instant}
use tenodera.Gateway.HostsConfig.{HostEntry}

abbrev pub max_pending : ℕ
max_pending = 100

abbrev pub max_pending_per_ip : ℕ
max_pending_per_ip = 5

pub record PendingEntry : Type 0 where
  pub hostname : Text
  pub pubkey_b64 : String
  pub fingerprint_hex : String
  pub fingerprint_display : String
  pub remote_ip : Text
  pub connected_at : Instant
  pub os_id : Option String
  pub approve_tx : Option ℕ

abbrev pub PendingRegistry : Type 0
PendingRegistry = Dict String PendingEntry

abbrev pub new : PendingRegistry
new = []

-- `guard.values().filter(|e| e.remote_ip == remote_ip).count()`
unfoldable pub waiting_from : Text → PendingRegistry → ℕ
unfolding values
waiting_from remote_ip self = length (retain (λ e. e.remote_ip == remote_ip) (values self))

module _ (fingerprint_hex fingerprint_display : String → String) where
  abbrev pub entry_of : Instant → String → Text → Text → Option String → ℕ → PendingEntry
  entry_of now pubkey_b64 hostname remote_ip os_id approve_tx = record {
    hostname = hostname;
    pubkey_b64 = pubkey_b64;
    fingerprint_hex = fingerprint_hex pubkey_b64;
    fingerprint_display = fingerprint_display pubkey_b64;
    remote_ip = remote_ip;
    connected_at = now;
    os_id = os_id;
    approve_tx = some approve_tx;
  }

  unfoldable pub enqueue :
      PendingRegistry → Instant → String → Text → Text → Option String → ℕ → Bool × PendingRegistry
  unfolding contains_key insert waiting_from
  enqueue self now pubkey_b64 hostname remote_ip os_id approve_tx =
      let is_new = not (contains_key pubkey_b64 self) in
      if leb max_pending (length self) && is_new
      then (false, self)
      else if is_new && leb max_pending_per_ip (waiting_from remote_ip self)
      then (false, self)
      else (
        true,
        insert pubkey_b64 (entry_of now pubkey_b64 hostname remote_ip os_id approve_tx) self,
      )

unfoldable pub remove_pending : PendingRegistry → String → PendingRegistry
unfolding remove
remove_pending self pubkey_b64 = remove pubkey_b64 self

abbrev pub has_fingerprint : String → PendingEntry → Bool
has_fingerprint fingerprint_hex e = e.fingerprint_hex == fingerprint_hex

-- `tx.send(host).is_ok()`: the host goes out if the receiver still stands.
abbrev pub send_host : (ℕ → Bool) → HostEntry → Option PendingEntry → Option (ℕ × HostEntry)
send_host receiving host entry =
    entry >>= λ e. e.approve_tx >>= λ tx. if receiving tx then some (tx, host) else none

-- The result is what is sent; `approve` returns whether it is.
unfoldable pub approve :
    PendingRegistry → (ℕ → Bool) → String → HostEntry → Option (ℕ × HostEntry) × PendingRegistry
unfolding values get remove
approve self receiving fingerprint_hex host =
    elim (find (has_fingerprint fingerprint_hex) (values self)) [
      | none ↦ (none, self)
      | some e ↦ (send_host receiving host (get e.pubkey_b64 self), remove e.pubkey_b64 self)
    ]

unfoldable pub entry_for_fingerprint :
    PendingRegistry → String → Option (String × Text × Text × Option String)
unfolding values
entry_for_fingerprint self fingerprint_hex =
    find (has_fingerprint fingerprint_hex) (values self) >>= λ e.
    some (e.pubkey_b64, e.hostname, e.remote_ip, e.os_id)

unfoldable pub hostname_for_fingerprint : PendingRegistry → String → Option Text
unfolding values
hostname_for_fingerprint self fingerprint_hex =
    find (has_fingerprint fingerprint_hex) (values self) >>= λ e. some e.hostname

unfoldable pub pubkey_for_fingerprint : PendingRegistry → String → Option String
unfolding values
pubkey_for_fingerprint self fingerprint_hex =
    find (has_fingerprint fingerprint_hex) (values self) >>= λ e. some e.pubkey_b64
