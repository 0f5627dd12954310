-- ===== src/Gateway/Registry/Agents.antt =====
-- `AgentRegistry` of panel/crates/gateway/src/agent_registry.rs, and the reader loop of
-- panel/crates/gateway/src/agent_ws.rs that hands an agent's messages to the sessions. An
-- `Arc<AgentConn>` is a number under which `conns` holds the connection, so a task that kept the
-- `Arc` still reaches it after the registry has let it go. A sender is the number of its channel.
pub mod Events
pub mod Relay
use tenodera.Prelude.{
  ℕ, ◌+◌, Bool, Option, none, some, [], map, String, string_eq, Text, text_eq, nat_eq, ◌==◌, any,
  ◌>>=◌, List, if◌then◌else◌,
}
use mathlib.Core.Option
use tenodera.Dict.{Dict, get, contains_key, insert, remove, modify}
use tenodera.Protocol.Message.{Message}
use tenodera.Gateway.Registry.{session_prefix, strip_prefix_from_message}

pub record AgentConn : Type 0 where
  pub to_agent : ℕ
  pub subscribers : Dict Text ℕ
  pub remote_ip : Option Text

pub record AgentRegistry : Type 0 where
  pub inner : Dict String ℕ
  pub conns : Dict ℕ AgentConn
  pub next : ℕ

unfoldable pub new : AgentRegistry
new = record { inner = []; conns = []; next = 0 }

-- The new connection replaces that of the same host. The result names the connection's
-- subscribers, which the reader loop goes by.
unfoldable pub register : AgentRegistry → String → Text → ℕ → ℕ × AgentRegistry
unfolding insert
register self host_id remote_ip to_agent =
    let conn : AgentConn = record {
      to_agent = to_agent;
      subscribers = [];
      remote_ip = some remote_ip;
    } in
    (
      self.next,
      record {
        inner = insert host_id self.next self.inner;
        conns = insert self.next conn self.conns;
        next = self.next + 1;
      },
    )

unfoldable pub lookup_conn : AgentRegistry → String → Option AgentConn
unfolding get
lookup_conn self host_id = get host_id self.inner >>= λ id. get id self.conns

unfoldable pub get_remote_ip : AgentRegistry → String → Option Text
unfolding lookup_conn
get_remote_ip self host_id = lookup_conn self host_id >>= λ conn. conn.remote_ip

unfoldable pub unregister : AgentRegistry → String → AgentRegistry
unfolding remove
unregister self host_id = record self { inner = remove host_id self.inner }

unfoldable pub is_online : AgentRegistry → String → Bool
unfolding contains_key
is_online self host_id = contains_key host_id self.inner

unfoldable pub online_host_ids : AgentRegistry → List String
online_host_ids self = map (λ e. e.0) self.inner

-- `Weak::upgrade` of a connection's token, while no task holds the `Arc` for the length of a call.
unfoldable pub is_alive : AgentRegistry → ℕ → Bool
is_alive self id = any (λ (e : String × ℕ). e.1 == id) self.inner

abbrev pub subscribe : Text → ℕ → AgentConn → AgentConn
subscribe prefix sub_tx conn = record conn { subscribers = insert prefix sub_tx conn.subscribers }

-- `sub_tx` is the sender that the call creates. The result is the connection, whose sender the
-- proxy task writes to and whose token the caller keeps.
unfoldable pub connect_session : AgentRegistry → String → Text → ℕ → Option ℕ × AgentRegistry
unfolding get insert modify
connect_session self host_id session_id sub_tx = elim (get host_id self.inner) [
  | none ↦ (none, self)
  | some id ↦ (
    some id,
    record self { conns = modify id (subscribe (session_prefix session_id) sub_tx) self.conns },
  )
]

module _ {Value Fields : Type 0} where
  -- One round of the reader loop: the session's sender and what it is sent.
  unfoldable pub deliver :
      AgentRegistry → ℕ → Message Value Fields → Option (ℕ × Message Value Fields)
  unfolding get
  deliver self id msg = strip_prefix_from_message msg >>= λ r.
      get id self.conns >>= λ conn. get r.1 conn.subscribers >>= λ sub_tx. some (sub_tx, r.0)
