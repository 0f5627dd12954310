-- ===== src/Protocol/Message.antt =====
-- protocol/src/message.rs: one constructor for each variant of `Message`, over the types of JSON
-- values and of JSON maps.
use tenodera.Prelude.{ℕ, Bool, Option, String, Text}
use tenodera.Protocol.Channel.{ChannelId, ChannelOpenOptions}

abbrev pub protocol_version : ℕ
protocol_version = 2

pub data AuthCredentials : Type 0 where
  basic : Text → Text → AuthCredentials
  token : Text → AuthCredentials

pub record Hello : Type 0 where
  pub version : ℕ
  pub hostname : Text
  pub agent_version : String
  pub is_local : Bool
  pub public_key : Option String
  pub bootstrap_token : Option String
  pub os_id : Option String

pub record AuthResult : Type 0 where
  pub success : Bool
  pub problem : Option String
  pub user : Option String

pub data Message (Value Fields : Type 0) : Type 0 where
  hello : Hello → Message Value Fields
  -- nonce (base64), gateway id
  challenge : String → Text → Message Value Fields
  challenge_response : String → Message Value Fields
  pending : String → Message Value Fields
  hello_ack : ℕ → Option String → Message Value Fields
  open_channel : ChannelId → ChannelOpenOptions Fields → Message Value Fields
  ready : ChannelId → Message Value Fields
  payload : ChannelId → Value → Message Value Fields
  control : ChannelId → String → Fields → Message Value Fields
  close : ChannelId → Option String → Message Value Fields
  auth : AuthCredentials → Message Value Fields
  auth_result : AuthResult → Message Value Fields
  ping pong : Message Value Fields
