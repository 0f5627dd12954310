-- ===== src/Gateway/Client.antt =====
-- The browser's WebSocket, panel/crates/gateway/src/ws.rs: what the loop of `handle_socket` does
-- with each message. A sender is the number of the agent's connection, whose proxy task prefixes
-- the channel ids. What is sent is the result.
pub mod Loop
pub mod Identity
pub mod Limits
mod Tests
use tenodera.Prelude.{
  ℕ, ◌-◌, ◌+◌, Bool, true, false, Option, none, some, List, [], ◌∷◌, String, string_eq, Text,
  text_eq, nat_eq, ◌==◌, leb, ltb, if◌then◌else◌, length, ◌>>=◌,
}
use tenodera.Dict.{Dict, get, contains_key, insert, remove}
use tenodera.Protocol.Channel.{ChannelId, ChannelOpenOptions, max_channel_id_len}
use tenodera.Protocol.Json.{Json}
use tenodera.Protocol.Message.{Message, open_channel, payload, control, close, ping, pong}
use tenodera.Gateway.Session.{Role, admin, readonly}
use tenodera.Gateway.Registry.{session_prefix_len}
use tenodera.Gateway.Registry.Agents.{AgentRegistry, connect_session, is_alive}

abbrev pub max_channels_per_session : ℕ
max_channels_per_session = 512

abbrev pub max_remote_agents : ℕ
max_remote_agents = 50

abbrev pub as_str : Role → String
as_str admin = "admin"
as_str readonly = "readonly"

-- What the loop keeps.
pub record Conn : Type 0 where
  pub session_id : Text
  pub user : String
  pub role : Role
  pub s_prefix : Text
  pub channel_routes : Dict ChannelId ℕ
  pub remote_senders : Dict String ℕ

-- What a round draws: the number of the channel that `connect_session` makes for the answers, and
-- whether the proxy task takes what is sent to it.
pub record Round : Type 0 where
  pub sub_tx : ℕ
  pub taken : Bool

-- The sender for a host, or the problem that the client is told.
pub data Target : Type 0 where
  sender : ℕ → Target
  problem : String → Target

unfoldable pub valid_cached : Conn → AgentRegistry → String → Option ℕ
unfolding get is_alive
valid_cached s agents hid =
    get hid s.remote_senders >>= λ id. if is_alive agents id then some id else none

-- `agent_registry.connect_session(hid, &s_prefix)` and the match on its result.
abbrev pub connected : Conn → String → Option ℕ × AgentRegistry → Target × Conn × AgentRegistry
unfolding insert
connected s hid (some id, agents) =
    (sender id, record s { remote_senders = insert hid id s.remote_senders }, agents)
connected s hid (none, agents) = (problem "host-offline", s, agents)

unfoldable pub reconnect : Conn → AgentRegistry → Round → String → Target × Conn × AgentRegistry
unfolding remove connect_session connected
reconnect s agents round hid =
    let fresh : Conn = record s { remote_senders = remove hid s.remote_senders } in
    let r = connected fresh hid (connect_session agents hid s.s_prefix round.sub_tx) in
    if leb max_remote_agents (length fresh.remote_senders)
    then (problem "remote-agent-limit-exceeded", fresh, agents)
    else r

unfoldable pub target_sender :
    Conn → AgentRegistry → Round → Option String → Target × Conn × AgentRegistry
unfolding valid_cached reconnect
target_sender s agents round none = (problem "host-required", s, agents)
target_sender s agents round (some hid) = elim (valid_cached s agents hid) [
  | some id ↦ (sender id, s, agents)
  | none ↦ reconnect s agents round hid
]

-- `channel_routes.remove(..)` and `remote_senders.remove(..)`
abbrev pub drop_route : ChannelId → Conn → Conn
unfolding remove
drop_route channel s = record s { channel_routes = remove channel s.channel_routes }

abbrev pub drop_sender : Option String → Conn → Conn
unfolding remove
drop_sender none s = s
drop_sender (some hid) s = record s { remote_senders = remove hid s.remote_senders }

module _ (json : Json) where
  abbrev pub Msg : Type 0
  Msg = Message json.Value json.Fields

  -- What goes to the client, and what goes to the agents by their senders.
  pub record Sent : Type 0 where
    pub to_client : List Msg
    pub to_agent : List (ℕ × Msg)

  abbrev pub refuse : ChannelId → String → Sent
  refuse channel why = record { to_client = close channel (some why) ∷ []; to_agent = [] }

  unfoldable pub host_of : ChannelOpenOptions json.Fields → Option String
  host_of options = json.get "host" options.extra >>= λ v. json.as_str v

  -- The user and the role are injected, the host is stripped.
  unfoldable pub clean : Conn → ChannelOpenOptions json.Fields → ChannelOpenOptions json.Fields
  clean s options = record options {
    extra =
        json.insert "_role" (json.string (as_str s.role))
          (json.insert "_user" (json.string s.user) (json.remove "host" options.extra));
  }

  -- An open request with its target.
  unfoldable pub forward_open :
      Round
      → ChannelId
      → ChannelOpenOptions json.Fields
      → Target × Conn × AgentRegistry
      → Sent × Conn × AgentRegistry
  unfolding insert clean host_of drop_route drop_sender
  forward_open round channel options (problem why, s, agents) = (refuse channel why, s, agents)
  forward_open round channel options (sender id, s, agents) =
      let routed : Conn = record s { channel_routes = insert channel id s.channel_routes } in
      if round.taken
      then (
        record { to_client = []; to_agent = (id, open_channel channel (clean s options)) ∷ [] },
        routed,
        agents,
      )
      else (
        refuse channel "host-offline",
        drop_sender (host_of options) (drop_route channel routed),
        agents,
      )

  unfoldable pub handle_open :
      Conn
      → AgentRegistry
      → Round
      → ChannelId
      → ChannelOpenOptions json.Fields
      → Sent × Conn × AgentRegistry
  unfolding contains_key forward_open target_sender host_of
  handle_open s agents round channel options =
      let opened =
        forward_open round channel options (target_sender s agents round (host_of options)) in
      if leb max_channels_per_session (length s.channel_routes)
      then (refuse channel "channel-limit-exceeded", s, agents)
      else if ltb (max_channel_id_len - (session_prefix_len + 1)) (length channel)
      then (refuse channel "channel-id-too-long", s, agents)
      else if contains_key channel s.channel_routes
      then (refuse channel "duplicate-channel-id", s, agents)
      else opened

  abbrev pub routed_channel : Msg → Option ChannelId
  routed_channel (payload channel _) = some channel
  routed_channel (close channel _) = some channel
  routed_channel (control channel _ _) = some channel
  routed_channel _ = none

  abbrev pub is_close : Msg → Bool
  is_close (close _ _) = true
  is_close _ = false

  abbrev pub nothing : Sent
  nothing = record { to_client = []; to_agent = [] }

  -- A message on a channel, with the channel's sender.
  unfoldable pub relay : Conn → Round → Msg → ChannelId → Option ℕ → Sent × Conn
  unfolding drop_route
  relay s round parsed ch none = (nothing, if is_close parsed then drop_route ch s else s)
  relay s round parsed ch (some id) =
      if round.taken
      then (
        record { to_client = []; to_agent = (id, parsed) ∷ [] },
        if is_close parsed then drop_route ch s else s,
      )
      else (nothing, drop_route ch s)

  unfoldable pub handle_other : Conn → Round → Msg → Option ChannelId → Sent × Conn
  unfolding relay get
  handle_other s round parsed none = (nothing, s)
  handle_other s round parsed (some ch) = relay s round parsed ch (get ch s.channel_routes)

  unfoldable pub handle : Conn → AgentRegistry → Round → Msg → Sent × Conn × AgentRegistry
  unfolding handle_open handle_other
  handle s agents round ping = (record { to_client = pong ∷ []; to_agent = [] }, s, agents)
  handle s agents round (open_channel channel options) = handle_open s agents round channel options
  handle s agents round parsed =
      let r = handle_other s round parsed (routed_channel parsed) in (r.0, r.1, agents)
