-- ===== src/Gateway/Enrollment.antt =====
-- `resolve_auth_path` of panel/crates/gateway/src/agent_ws.rs: what becomes of an agent whose
-- signature has been verified. The hosts' file, the tokens and the connected agents are passed on;
-- the clock, the fresh id and the outcome of the save are what the call draws. Fingerprints only
-- go to the log.
pub mod Paths
pub mod Entry
pub mod Refusal
mod Tests
use tenodera.Prelude.{
  Bool, true, false, ◌||◌, Option, none, some, String, Text, text_eq, ◌==◌, codes, if◌then◌else◌,
}
use tenodera.Std.Time.{Instant}
use tenodera.Gateway.AgentAuth.Tokens.{BootstrapRegistry, validate_and_consume}
use tenodera.Gateway.HostsConfig.{
  HostEntry, Disk, Outcome, find_by_pubkey, find_by_hostname, register_host, replace_pubkey,
  new_host,
}
use tenodera.Gateway.Registry.Agents.{AgentRegistry, unregister}

pub record AuthenticatedAgent : Type 0 where
  pub host : HostEntry
  pub remote_ip : Text

pub data AuthPath : Type 0 where
  authenticated : AuthenticatedAgent → AuthPath
  pending : String → AuthPath
  reject : AuthPath

pub record World : Type 0 where
  pub disk : Disk
  pub tokens : BootstrapRegistry
  pub agents : AgentRegistry

pub record Draws : Type 0 where
  pub now : Instant
  pub id : String
  pub added_at : String
  pub outcome : Outcome

-- What the agent presents.
pub record Candidate : Type 0 where
  pub hostname : Text
  pub pubkey_b64 : String
  pub bootstrap_token : Option String
  pub is_local : Bool
  pub remote_ip : Text
  pub os_id : Option String

abbrev pub is_loopback_text : Text → Bool
is_loopback_text remote_ip = remote_ip == codes "127.0.0.1" || remote_ip == codes "::1"

-- `Ok(host)` of `register_host` or of `replace_pubkey`, and its `Err`.
abbrev pub admit : Text → Option HostEntry → AuthPath
admit remote_ip none = reject
admit remote_ip (some host) = authenticated (record { host = host; remote_ip = remote_ip })

-- Registering a host, in paths 3 and 3b.
abbrev pub enrol : World → Draws → Candidate → Bool → AuthPath × World
unfolding register_host
enrol w draws c is_local =
    let entry = new_host draws.id draws.added_at c.hostname c.pubkey_b64 is_local none c.os_id in
    let registered = register_host w.disk entry draws.outcome in
    (admit c.remote_ip registered.0, record w { disk = registered.1 })

-- `agent_registry.unregister(&existing.id)` after a key was replaced.
abbrev pub kick : AgentRegistry → String → Option HostEntry → AgentRegistry
unfolding unregister
kick agents host_id none = agents
kick agents host_id (some updated) = unregister agents host_id

-- Path 2 with the token's flag.
unfoldable pub re_enrol : World → Draws → Candidate → HostEntry → Option Bool → AuthPath × World
unfolding replace_pubkey
re_enrol w draws c existing (some true) =
    let replaced = replace_pubkey w.disk existing.id c.pubkey_b64 draws.outcome in
    (
      admit c.remote_ip replaced.0,
      record w { disk = replaced.1; agents = kick w.agents existing.id replaced.0 },
    )
re_enrol w draws c existing (some false) = (reject, w)
re_enrol w draws c existing none = (reject, w)

-- Path 3 with the token's flag.
unfoldable pub by_token : World → Draws → Candidate → Option Bool → AuthPath × World
unfolding enrol
by_token w draws c (some re_enroll) = enrol w draws c c.is_local
by_token w draws c none = (pending "token_invalid", w)

module _ (digest : String → Text) where
  -- A look at the token, and the tokens after it.
  abbrev pub checked : World → Draws → Candidate → String → Option Bool × BootstrapRegistry
  unfolding validate_and_consume
  checked w draws c token_val = validate_and_consume digest w.tokens draws.now token_val c.hostname

  -- Path 2: a known host name with another key.
  unfoldable pub known_hostname :
      World → Draws → Candidate → HostEntry → Option String → AuthPath × World
  unfolding re_enrol checked
  known_hostname w draws c existing none = (reject, w)
  known_hostname w draws c existing (some token_val) =
      let r = checked w draws c token_val in
      re_enrol (record w { tokens = r.1 }) draws c existing r.0

  -- Paths 3, 3b and 4: a new host.
  unfoldable pub new_hostname : World → Draws → Candidate → Option String → AuthPath × World
  unfolding by_token checked enrol
  new_hostname w draws c (some token_val) =
      let r = checked w draws c token_val in by_token (record w { tokens = r.1 }) draws c r.0
  new_hostname w draws c none =
      let loopback = enrol w draws c true in
      if is_loopback_text c.remote_ip then loopback else (pending "enrollment_required", w)

  unfoldable pub unknown_key : World → Draws → Candidate → Option HostEntry → AuthPath × World
  unfolding known_hostname new_hostname
  unknown_key w draws c (some existing) = known_hostname w draws c existing c.bootstrap_token
  unknown_key w draws c none = new_hostname w draws c c.bootstrap_token

  -- Path 1: the key is known.
  unfoldable pub by_key : World → Draws → Candidate → Option HostEntry → AuthPath × World
  unfolding unknown_key find_by_hostname
  by_key w draws c (some host) =
      (authenticated (record { host = host; remote_ip = c.remote_ip }), w)
  by_key w draws c none = unknown_key w draws c (find_by_hostname w.disk c.hostname)

  unfoldable pub resolve_auth_path : World → Draws → Candidate → AuthPath × World
  unfolding by_key find_by_pubkey
  resolve_auth_path w draws c = by_key w draws c (find_by_pubkey w.disk c.pubkey_b64)
