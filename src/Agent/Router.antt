-- ===== src/Agent/Router.antt =====
-- agent/src/router.rs: which handler gets a message, and on whose behalf. A handler is what the
-- trait `ChannelHandler` of agent/src/handler.rs offers, with its effects left out; a stream is the
-- task that the router starts.
pub mod Context
mod Tests
use tenodera.Prelude.{
  Bool, true, false, Option, none, some, List, [], ◌∷◌, String, string_eq, Text, text_eq, ◌==◌, any,
  if◌then◌else◌, ◌>>=◌, is_some,
}
use tenodera.Dict.{Dict, get, insert, remove}
use tenodera.Protocol.Channel.{ChannelId, ChannelOpenOptions}
use tenodera.Protocol.Json.{Json}
use tenodera.Protocol.Message.{Message, open_channel, payload, close, ping, pong}

module _ (json : Json) where
  abbrev pub Msg : Type 0
  Msg = Message json.Value json.Fields

  abbrev pub Options : Type 0
  Options = ChannelOpenOptions json.Fields

  -- What a handler may answer.
  pub record ChannelHandler : Type 0 where
    pub payload_type : String
    pub is_streaming : Bool
    pub open_in : ChannelId → Options → List Msg
    pub data_in : ChannelId → json.Value → List Msg

  pub record Router : Type 0 where
    pub handlers : Dict String ChannelHandler
    pub active_channels : Dict ChannelId ChannelHandler
    pub channel_handlers : Dict ChannelId ChannelHandler
    pub channel_options : Dict ChannelId Options

  abbrev pub new : Router
  new = record { handlers = []; active_channels = []; channel_handlers = []; channel_options = [] }

  unfoldable pub register : Router → ChannelHandler → Router
  unfolding insert
  register self handler = record self {
    handlers = insert handler.payload_type handler self.handlers;
  }

  -- The answers, the stream that is started and whether one is stopped.
  pub record Handled : Type 0 where
    pub msgs : List Msg
    pub started : Option (ChannelHandler × Options)
    pub stopped : Bool

  abbrev pub answers : List Msg → Handled
  answers msgs = record { msgs = msgs; started = none; stopped = false }

  -- `matches!(m, Message::Close { channel: c, .. } if *c == channel)`
  abbrev pub closes : ChannelId → Msg → Bool
  closes channel (close c _) = c == channel
  closes channel _ = false

  unfoldable pub forget : ChannelId → Router → Router
  unfolding remove
  forget channel self = record self {
    channel_handlers = remove channel self.channel_handlers;
    channel_options = remove channel self.channel_options;
  }

  -- An open request with the handler of its payload type.
  unfoldable pub open_with :
      Router → ChannelId → Options → Option ChannelHandler → String → Handled × Router
  unfolding insert forget
  open_with self channel options none unknown = (answers (close channel (some unknown) ∷ []), self)
  open_with self channel options (some handler) unknown =
      let msgs = handler.open_in channel options in
      let streaming : Router = record self {
        active_channels = insert channel handler self.active_channels;
        channel_options = insert channel options self.channel_options;
      } in
      let tracked : Router = record self {
        channel_handlers = insert channel handler self.channel_handlers;
        channel_options = insert channel options self.channel_options;
      } in
      let settled = if any (closes channel) msgs then forget channel tracked else tracked in
      if handler.is_streaming
      then (record { msgs = []; started = some (handler, options); stopped = false }, streaming)
      else (answers msgs, settled)

  -- The value of a field is passed on, where the channel's options have it.
  abbrev pub inject : String → Option json.Value → json.Fields → json.Fields
  inject name none obj = obj
  inject name (some v) obj = json.insert name v obj

  -- A Data message's value with the user and the role of its channel.
  abbrev pub enriched_object : Options → Option json.Fields → json.Value → json.Value
  enriched_object opts none value = value
  enriched_object opts (some obj) value = json.object (
      inject "_role" (json.get "_role" opts.extra)
        (inject "_user" (json.get "_user" opts.extra) obj))

  unfoldable pub enrich : Option Options → json.Value → json.Value
  enrich none value = value
  enrich (some opts) value = enriched_object opts (json.as_object value) value

  abbrev pub or_else : Option ChannelHandler → Option ChannelHandler → Option ChannelHandler
  or_else (some h) _ = some h
  or_else none o = o

  unfoldable pub handler_of : Router → ChannelId → Option ChannelHandler
  unfolding get
  handler_of self channel =
      or_else (get channel self.active_channels) (get channel self.channel_handlers)

  -- The handler that a Data message goes to, and the value that it is given.
  unfoldable pub dispatch : Router → ChannelId → json.Value → Option (ChannelHandler × json.Value)
  unfolding handler_of enrich get
  dispatch self channel value =
      handler_of self channel >>= λ h. some (h, enrich (get channel self.channel_options) value)

  abbrev pub data_answers : ChannelId → Option (ChannelHandler × json.Value) → List Msg
  data_answers channel none = []
  data_answers channel (some (handler, value)) = handler.data_in channel value

  -- `unknown` is the text "unknown-payload: " with the payload type.
  unfoldable pub handle : Router → Msg → (String → String) → Handled × Router
  unfolding open_with get dispatch forget remove
  handle self (open_channel channel options) unknown =
      open_with self channel options (get options.payload self.handlers) (unknown options.payload)
  handle self (payload channel value) unknown =
      (answers (data_answers channel (dispatch self channel value)), self)
  handle self (close channel _) unknown = (
    record { msgs = []; started = none; stopped = is_some (get channel self.active_channels) },
    forget channel (record self { active_channels = remove channel self.active_channels }),
  )
  handle self ping unknown = (answers (pong ∷ []), self)
  handle self _ unknown = (answers [], self)
