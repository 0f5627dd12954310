-- ===== src/Gateway/Registry.antt =====
-- panel/crates/gateway/src/agent_registry.rs: the connected agents, and the prefixes by which the
-- sessions of several users share the connection of one agent. Channel ids are the bytes of an
-- identifier, so that a slice at a byte never splits a character.
pub mod Prefix
pub mod Agents
mod Tests
use tenodera.Prelude.{
  ◌≡◌, ℕ, ◌+◌, Bool, false, not, Option, none, some, List, [], ◌∷◌, ◌++◌, map, String, string_eq,
  Text, text_eq, nat_eq, ◌==◌, leb, if◌then◌else◌, length, take, drop, retain, get_elem?, is_empty,
  is_some, any, ◌>>=◌,
}
use tenodera.Dict.{Dict, get, contains_key, insert, remove, modify}
use tenodera.Protocol.Channel.{ChannelId}
use tenodera.Protocol.Message.{Message, open_channel, ready, payload, control, close}

abbrev pub session_prefix_len : ℕ
session_prefix_len = 8

unfoldable pub session_prefix : Text → Text
session_prefix session_id = take session_prefix_len (retain (λ c. not (c == b'-')) session_id)

-- format!("{prefix}-{channel}")
unfoldable pub prefixed : Text → ChannelId → ChannelId
prefixed prefix channel = prefix ++ b'-' ∷ channel

-- `as_bytes().get(SESSION_PREFIX_LEN) != Some(&b'-')`, the other way round.
abbrev pub is_separator : Option ℕ → Bool
is_separator none = false
is_separator (some b) = b == b'-'

module _ {Value Fields : Type 0} where
  unfoldable pub prefix_message : Message Value Fields → Text → Message Value Fields
  unfolding prefixed
  prefix_message (open_channel channel options) prefix =
      open_channel (prefixed prefix channel) options
  prefix_message (payload channel value) prefix = payload (prefixed prefix channel) value
  prefix_message (control channel command extra) prefix =
      control (prefixed prefix channel) command extra
  prefix_message (close channel problem) prefix = close (prefixed prefix channel) problem
  prefix_message other prefix = other

  -- The channel of the messages that an agent sends to a session.
  abbrev pub agent_channel : Message Value Fields → Option ChannelId
  agent_channel (payload channel _) = some channel
  agent_channel (control channel _ _) = some channel
  agent_channel (close channel _) = some channel
  agent_channel (ready channel) = some channel
  agent_channel _ = none

  abbrev pub on_channel : ChannelId → Message Value Fields → Message Value Fields
  on_channel original (payload _ value) = payload original value
  on_channel original (control _ command extra) = control original command extra
  on_channel original (close _ problem) = close original problem
  on_channel original (ready _) = ready original
  on_channel original other = other

  unfoldable pub strip_prefix_from_message :
      Message Value Fields → Option (Message Value Fields × Text)
  strip_prefix_from_message msg = agent_channel msg >>= λ channel.
      let original = drop (session_prefix_len + 1) channel in
      if leb (length channel) (session_prefix_len + 1)
      then none
      else if not (is_separator (get_elem? channel session_prefix_len))
      then none
      else if is_empty original
      then none
      else some (on_channel original msg, take session_prefix_len channel)
