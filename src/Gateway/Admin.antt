-- ===== src/Gateway/Admin.antt =====
-- The administrators' endpoints of panel/crates/gateway/src/main.rs: bootstrap tokens, pending agents
-- and hosts. The clock, fresh ids and how saves end are drawn.
pub mod Guard
pub mod Approval
mod Tests
use tenodera.Prelude.{
  ℕ, ◌*◌, Bool, true, false, not, Option, none, some, List, String, string_eq, Text, nat_eq, ◌==◌,
  ltb, if◌then◌else◌, find, retain, length, is_empty, is_some,
}
use tenodera.Std.Time.{Instant, from_secs}
use tenodera.Std.Str.{trim}
use tenodera.Gateway.Session.{Session, SessionStore}
use tenodera.Gateway.Auth.{HeaderMap, Extracted, session_of, rejected, admin_auth}
use tenodera.Gateway.AgentAuth.Tokens.{BootstrapRegistry, Request, create, revoke}
use tenodera.Gateway.AgentAuth.Pending.{PendingRegistry, approve, entry_for_fingerprint}
use tenodera.Gateway.HostsConfig.{
  HostEntry, HostsConfig, Disk, Outcome, load, save, update_first, has_id, find_by_hostname,
  replace_pubkey, register_host, new_host,
}
use tenodera.Gateway.Enrollment.{is_loopback_text}

-- What the endpoints change.
pub record Books : Type 0 where
  pub disk : Disk
  pub tokens : BootstrapRegistry
  pub pending : PendingRegistry

pub data Answer : Type 0 where
  done not_found bad_request failed : Answer
  denied : Answer

-- What one call draws.
pub record Draws : Type 0 where
  pub now : Instant
  pub id : String
  pub value : String
  pub added_at : String
  pub outcome : Outcome
  pub name_outcome : Outcome
  -- the oneshot channels whose receivers still stand
  pub receiving : ℕ → Bool

-- An answer, the books, and the host that is sent to a waiting agent.
abbrev pub Result : Type 0
Result = Answer × Books × Option (ℕ × HostEntry)

-- `ttl_secs.clamp(60, 86_400 * 30)`
unfoldable pub clamp_ttl : ℕ → ℕ
clamp_ttl secs = if ltb secs 60 then 60 else if ltb (86400 * 30) secs then 86400 * 30 else secs

unfoldable pub token_create : (String → Text) → Books → Draws → ℕ → Request → Result
unfolding create clamp_ttl
token_create digest b draws ttl_secs body = (
  done,
  record b {
    tokens =
        create digest b.tokens draws.now draws.id draws.value
          (record body { ttl = from_secs (clamp_ttl ttl_secs) });
  },
  none,
)

unfoldable pub token_revoke : Books → String → Result
unfolding revoke
token_revoke b id =
    let r = revoke b.tokens id in (if r.0 then done else not_found, record b { tokens = r.1 }, none)

-- `save_display_name`, whose failure is only logged.
unfoldable pub save_display_name : Disk → String → Option Text → Outcome → Disk
unfolding load save update_first
save_display_name disk host_id display_name outcome =
    if is_some (find (has_id host_id) (load disk).hosts)
    then (save
        (record {
          hosts =
              update_first (has_id host_id) (λ h. record h { display_name = display_name })
                (load disk).hosts;
        })
        outcome).1
    else disk

-- A new display name for a host whose key was replaced.
abbrev pub renamed : Disk → Draws → Option Text → HostEntry → Option HostEntry × Disk
unfolding save_display_name
renamed disk draws none host = (some host, disk)
renamed disk draws (some name) host = (
  some (record host { display_name = some name }),
  save_display_name disk host.id (some name) draws.name_outcome,
)

abbrev pub replaced : Draws → Option Text → Option HostEntry × Disk → Option HostEntry × Disk
unfolding renamed
replaced draws display_name (none, disk) = (none, disk)
replaced draws display_name (some host, disk) = renamed disk draws display_name host

-- The host of an approved agent: the registered one of its host name, with its key, or a new one.
unfoldable pub approved_host :
    Disk
    → Draws
    → Option Text
    → String × Text × Text × Option String
    → Option HostEntry
    → Option HostEntry × Disk
unfolding replaced replace_pubkey register_host
approved_host disk draws display_name (pubkey_b64, hostname, remote_ip, os_id) (some existing) =
    replaced draws display_name (replace_pubkey disk existing.id pubkey_b64 draws.outcome)
approved_host disk draws display_name (pubkey_b64, hostname, remote_ip, os_id) none =
    register_host disk
      (new_host draws.id draws.added_at hostname pubkey_b64 (is_loopback_text remote_ip)
        display_name os_id)
      draws.outcome

-- Sending the host to the agent.
unfoldable pub deliver_host : Books → Draws → String → Option HostEntry × Disk → Result
unfolding approve
deliver_host b draws fingerprint_hex (none, disk) = (failed, record b { disk = disk }, none)
deliver_host b draws fingerprint_hex (some host, disk) =
    let r = approve b.pending draws.receiving fingerprint_hex host in
    (if is_some r.0 then done else not_found, record b { disk = disk; pending = r.1 }, r.0)

abbrev pub approve_entry :
    Books → Draws → String → Option Text → Option (String × Text × Text × Option String) → Result
unfolding deliver_host approved_host find_by_hostname
approve_entry b draws fingerprint_hex display_name none = (not_found, b, none)
approve_entry b draws fingerprint_hex display_name (some e) =
    deliver_host b draws fingerprint_hex
      (approved_host b.disk draws display_name e (find_by_hostname b.disk e.1))

unfoldable pub pending_approve : Books → Draws → String → Option Text → Result
unfolding approve_entry entry_for_fingerprint
pending_approve b draws fingerprint_hex display_name =
    approve_entry b draws fingerprint_hex display_name
      (entry_for_fingerprint b.pending fingerprint_hex)

-- `match hosts_config::save(..)`
abbrev pub saved_books : Books → Bool × Disk → Result
saved_books b (true, disk) = (done, record b { disk = disk }, none)
saved_books b (false, disk) = (failed, record b { disk = disk }, none)

unfoldable pub hosts_remove : Books → Draws → String → Result
unfolding load save
hosts_remove b draws id =
    let hosts = (load b.disk).hosts in
    let kept = retain (λ h. not (h.id == id)) hosts in
    let saved = saved_books b (save (record { hosts = kept }) draws.outcome) in
    if length kept == length hosts then (not_found, b, none) else saved

abbrev pub max_display_name_len : ℕ
max_display_name_len = 128

unfoldable pub hosts_patch : Books → Draws → String → Option Text → Result
unfolding load save update_first trim
hosts_patch b draws id name =
    let t = elim name as (λ _. Option Text) [ none ↦ none | some n ↦ some (trim n) ] in
    let long = elim t as (λ _. Bool) [
      | none ↦ false
      | some n ↦ ltb max_display_name_len (length n)
    ] in
    let display_name = elim t as (λ _. Option Text) [
      | none ↦ none
      | some n ↦ if is_empty n then none else some n
    ] in
    let hosts = (load b.disk).hosts in
    let saved = saved_books b (
      save
        (record {
          hosts = update_first (has_id id) (λ h. record h { display_name = display_name }) hosts;
        })
        draws.outcome) in
    if long
    then (bad_request, b, none)
    else if not (is_some (find (has_id id) hosts))
    then (not_found, b, none)
    else saved

pub data Call : Type 0 where
  create_token : ℕ → Request → Call
  revoke_token : String → Call
  approve_agent : String → Option Text → Call
  remove_host : String → Call
  patch_host : String → Option Text → Call

unfoldable pub perform : (String → Text) → Books → Draws → Call → Result
unfolding token_create token_revoke pending_approve hosts_remove hosts_patch
perform digest b draws (create_token ttl_secs body) = token_create digest b draws ttl_secs body
perform digest b draws (revoke_token id) = token_revoke b id
perform digest b draws (approve_agent fingerprint_hex name) =
    pending_approve b draws fingerprint_hex name
perform digest b draws (remove_host id) = hosts_remove b draws id
perform digest b draws (patch_host id name) = hosts_patch b draws id name

-- All of them ask for a valid session of an administrator first.
abbrev pub guarded : Books → Result → Extracted → Result
guarded b r (rejected status) = (denied, b, none)
guarded b r (session_of session) = r

unfoldable pub endpoint :
    (String → Text) → SessionStore → Books → Draws → HeaderMap → Call → Result × SessionStore
unfolding perform admin_auth
endpoint digest store b draws headers call =
    let who = admin_auth store draws.now headers in
    (guarded b (perform digest b draws call) who.0, who.1)
