-- ===== src/Agent/Session.antt =====
-- `run_session` and `wait_for_approval` of agent/src/main.rs with the identity of
-- agent/src/identity.rs: one connection of an agent to its gateway, as a machine that takes what its
-- awaits yield. A frame's text is the message it parses to, if any. What the router does with the
-- messages of a running session is Router's. Base64 and the signing key are parameters.
pub mod Pinning
mod Tests
use tenodera.Prelude.{
  ℕ, ◌*◌, ◌+◌, ◌%◌, Bool, true, false, not, ◌&&◌, Option, none, some, List, [], ◌∷◌, ◌++◌, String,
  Text, nat_eq, text_eq, ◌==◌, ltb, length, is_empty, is_some, if◌then◌else◌,
}
use tenodera.Std.Str.{trim}
use tenodera.Protocol.Message.{
  Message, Hello, hello, challenge, challenge_response, pending, hello_ack, ping, pong,
  protocol_version,
}
use tenodera.Protocol.Message
use tenodera.Protocol.Challenge.{build_challenge_payload}

pub record Signer : Type 1 where
  pub SigningKey : Type 0
  -- base64's STANDARD engine
  pub encode : Text → String
  pub decode : String → Option Text
  -- `verifying_key().as_bytes()` and `sign(payload).to_bytes()`
  pub verifying_key : SigningKey → Text
  pub sign : SigningKey → Text → Text

-- The file of the pinned gateway id.
pub data PinFile : Type 0 where
  missing : PinFile
  contents : Text → PinFile
  unreadable : PinFile

pub data Loaded : Type 0 where
  pinned : Option Text → Loaded
  failed : Loaded

abbrev pub some_text : Text → Option Text
some_text s = if is_empty s then none else some s

unfoldable pub load_gateway_id : PinFile → Loaded
unfolding trim
load_gateway_id missing = pinned none
load_gateway_id (contents s) = pinned (some_text (trim s))
load_gateway_id unreadable = failed

pub record AgentConfig : Type 0 where
  pub is_local : Bool
  pub bootstrap_token : Option String
  pub expected_gateway_id : Option Text

-- The agent's disk: the pin, and whether the configuration still holds the bootstrap token.
pub record AgentDisk : Type 0 where
  pub pin : PinFile
  pub token_kept : Bool

pub data Phase : Type 0 where
  await_challenge : Phase
  await_ack : Phase
  wait_approval : Phase
  -- the gateway's version
  running : ℕ → Phase
  ended : Phase

pub data Input (Value Fields : Type 0) : Type 0 where
  text : Option (Message Value Fields) → Input Value Fields
  ping_frame : Input Value Fields
  other_frame : Input Value Fields
  -- a Close frame, the end of the stream or an error
  stream_ended : Input Value Fields
  -- the interval of the keep-alive
  tick : Input Value Fields

-- Whether the sends and the write of one round succeed.
pub record Round : Type 0 where
  pub sent : Bool
  pub saved : Bool

-- Whether the first id that answers may be trusted.
abbrev pub expected : AgentConfig → Text → Bool
expected config gateway_id = elim config.expected_gateway_id [
  | none ↦ true
  | some e ↦ e == gateway_id
]

-- The pin after the check of a gateway id, or `none` where the connection is refused.
-- A save that fails leaves the file as it was here; fs::write may also leave a part of the id.
unfoldable pub check_pin : AgentConfig → Round → PinFile → Loaded → Text → Option PinFile
check_pin config round pin (pinned (some known)) gateway_id =
    if known == gateway_id then some pin else none
check_pin config round pin (pinned none) gateway_id =
    if not (expected config gateway_id)
    then none
    else if round.saved
    then some (contents gateway_id)
    else none
check_pin config round pin failed gateway_id = none

-- `config::scrub_bootstrap_token`, once the gateway has taken the agent.
abbrev pub accepted : AgentConfig → AgentDisk → AgentDisk
accepted config disk =
    if is_some config.bootstrap_token then record disk { token_kept = false } else disk

-- What is sent: a `ChallengeResponse` with its signature, or a `Pong` of a running session.
pub data Sent : Type 0 where
  response : String → Sent
  pong_message : Sent

-- What a round does: the next phase, the disk and what is sent.
abbrev pub Effect : Type 0
Effect = Phase × AgentDisk × List Sent

module _ {Value Fields : Type 0} where
  unfoldable pub at_ack : AgentConfig → AgentDisk → Input Value Fields → Effect
  at_ack config disk (text (some (hello_ack version warning))) =
      (running version, accepted config disk, [])
  at_ack config disk (text (some (Message.pending reason))) = (wait_approval, disk, [])
  at_ack config disk (text _) = (ended, disk, [])
  at_ack config disk stream_ended = (ended, disk, [])
  at_ack config disk _ = (await_ack, disk, [])

  -- `wait_for_approval`; its answers to pings are sent on a best effort.
  unfoldable pub at_approval : AgentConfig → AgentDisk → Round → Input Value Fields → Effect
  at_approval config disk round (text (some (hello_ack version warning))) =
      (running version, accepted config disk, [])
  at_approval config disk round (text _) = (wait_approval, disk, [])
  at_approval config disk round stream_ended = (ended, disk, [])
  at_approval config disk round tick = (if round.sent then wait_approval else ended, disk, [])
  at_approval config disk round _ = (wait_approval, disk, [])

  -- The loop of a running session; a ping is answered by a message.
  unfoldable pub at_running : AgentDisk → ℕ → Input Value Fields → Effect
  at_running disk version ping_frame = (running version, disk, pong_message ∷ [])
  at_running disk version stream_ended = (ended, disk, [])
  at_running disk version _ = (running version, disk, [])

module _ (signer : Signer) where
  -- The response to the bytes of a nonce, once the gateway id has been checked.
  abbrev pub signed : signer.SigningKey → Text → Text → AgentDisk → Round → Option Text → Effect
  signed key hostname gateway_id disk round none = (ended, disk, [])
  signed key hostname gateway_id disk round (some nonce) =
      let payload = build_challenge_payload nonce hostname gateway_id in
      let sig_b64 = signer.encode (signer.sign key payload) in
      if not (length nonce == 32)
      then (ended, disk, [])
      else if round.sent
      then (await_ack, disk, response sig_b64 ∷ [])
      else (ended, disk, [])

  abbrev pub after_check :
      signer.SigningKey → Text → String → Text → AgentDisk → Round → Option PinFile → Effect
  after_check key hostname nonce_b64 gateway_id disk round none = (ended, disk, [])
  after_check key hostname nonce_b64 gateway_id disk round (some pin) =
      signed key hostname gateway_id (record disk { pin = pin }) round (signer.decode nonce_b64)

  module _ (config : AgentConfig) (hostname : Text) (key : signer.SigningKey) where
    -- The message that opens the handshake.
    abbrev pub greeting : String → Option String → Hello
    greeting agent_version os_id = record {
      version = protocol_version;
      hostname = hostname;
      agent_version = agent_version;
      is_local = config.is_local;
      public_key = some (signer.encode (signer.verifying_key key));
      bootstrap_token = config.bootstrap_token;
      os_id = os_id;
    }

    module _ {Value Fields : Type 0} where
      unfoldable pub at_challenge : AgentDisk → Round → Input Value Fields → Effect
      unfolding check_pin load_gateway_id
      at_challenge disk round (text (some (challenge nonce_b64 gateway_id))) =
          after_check key hostname nonce_b64 gateway_id disk round
            (check_pin config round disk.pin (load_gateway_id disk.pin) gateway_id)
      at_challenge disk round (text _) = (ended, disk, [])
      at_challenge disk round stream_ended = (ended, disk, [])
      at_challenge disk round _ = (await_challenge, disk, [])

      unfoldable pub step : Phase → AgentDisk → Round → Input Value Fields → Effect
      unfolding at_challenge at_ack at_approval at_running
      step await_challenge disk round i = at_challenge disk round i
      step await_ack disk round i = at_ack config disk i
      step wait_approval disk round i = at_approval config disk round i
      step (running version) disk round i = at_running disk version i
      step ended disk round i = (ended, disk, [])

      unfoldable pub run :
          Phase → AgentDisk → List (Round × Input Value Fields) → AgentDisk × List Sent
      unfolding step
      run p disk [] = (disk, [])
      run p disk ((round, i) ∷ is) =
          let e = step p disk round i in
          let (disk', later) = run e.0 e.1 is in (disk', e.2 ++ later)

      -- The sessions of the agent's loop, one after the other; the last may be cut off.
      unfoldable pub sessions :
          AgentDisk → List (List (Round × Input Value Fields)) → AgentDisk × List Sent
      unfolding run
      sessions disk [] = (disk, [])
      sessions disk (is ∷ ss) =
          let r = run await_challenge disk is in
          let (disk', later) = sessions r.0 ss in (disk', r.1 ++ later)

-- The loop of `main`: the seconds of back-off after a session that ended well or not, and the
-- milliseconds that the agent sleeps, by the clock's nanoseconds.
unfoldable pub backoff_after : Bool → ℕ → ℕ
backoff_after closed_well backoff_secs =
    let base : ℕ = if closed_well then 1 else backoff_secs in
    if ltb (base * 2) 30 then base * 2 else 30

unfoldable pub jitter_ms : Bool → ℕ → ℕ → ℕ
jitter_ms closed_well backoff_secs subsec_nanos =
    let base : ℕ = if closed_well then 1 else backoff_secs in subsec_nanos % (base * 1000 + 1)
