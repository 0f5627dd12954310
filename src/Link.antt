-- ===== src/Link.antt =====
-- The two ends of a connection: the agent's side of the handshake, agent/src/main.rs, runs against
-- the gateway's, panel/crates/gateway/src/agent_ws.rs, over a link that loses nothing.
pub mod Complete
mod Tests
use tenodera.Prelude.{ℕ, Option, none, some, List, [], ◌∷◌, String, Text}
use tenodera.Protocol.Message.{
  Message, hello, challenge, challenge_response, hello_ack, protocol_version,
}
use tenodera.Gateway.AgentAuth.Signature.{Crypto}
use tenodera.Gateway.Handshake
use tenodera.Gateway.Handshake.{Server}
use tenodera.Agent.Session
use tenodera.Agent.Session.{Signer, AgentConfig, AgentDisk, Sent, response, pong_message, greeting}

-- The two sides with their libraries, the texts of the gateway's lists, the agent's address,
-- configuration, host name and key.
pub record Ends (crypto : Crypto) (signer : Signer) : Type 0 where
  pub hex : String → String
  pub display : String → String
  pub token_digest : String → Text
  pub remote_ip : Text
  pub config : AgentConfig
  pub hostname : Text
  pub key : signer.SigningKey
  pub agent_version : String
  pub os_id : Option String

-- What the two sides draw: the gateway for the Hello and for the response, the agent for the
-- challenge.
pub record Luck : Type 0 where
  pub hello_round : Handshake.Round
  pub response_round : Handshake.Round
  pub round : Session.Round

module _ {crypto : Crypto} {signer : Signer} (ends : Ends crypto signer)
    (Value Fields : Type 0) where
  unfoldable pub gateway_step :
      Handshake.Phase × Server → Handshake.Round → Message Value Fields → Handshake.Phase × Server
  unfolding Handshake.step
  gateway_step p round m =
      Handshake.step crypto ends.hex ends.display ends.token_digest ends.remote_ip p
        (round, Handshake.text (some m))

  unfoldable pub agent_step :
      Session.Phase → AgentDisk → Session.Round → Message Value Fields → Session.Effect
  unfolding Session.step
  agent_step p disk round m =
      Session.step signer ends.config ends.hostname ends.key p disk round (Session.text (some m))

  -- What the gateway makes of what the agent sent.
  unfoldable pub deliver :
      Handshake.Phase × Server → Handshake.Round → List Sent → Handshake.Phase × Server
  unfolding gateway_step
  deliver p round [] = p
  deliver p round (response sig ∷ later) =
      deliver (gateway_step p round (challenge_response sig)) round later
  deliver p round (pong_message ∷ later) = deliver p round later

  -- The agent hears of its acceptance.
  unfoldable pub acknowledge :
      Handshake.Phase → Session.Phase → AgentDisk → Session.Round → Session.Phase
  unfolding agent_step
  acknowledge (Handshake.connected a id) p disk round =
      (agent_step p disk round (hello_ack protocol_version none)).0
  acknowledge _ p disk round = p

  -- A whole handshake, with the phases that it ends in and the gateway's state.
  unfoldable pub exchange : Server → AgentDisk → Luck → Handshake.Phase × Server × Session.Phase
  unfolding gateway_step agent_step deliver acknowledge
  exchange s disk luck =
      let question : Message Value Fields =
        challenge (signer.encode luck.hello_round.nonce_bytes) s.gateway_id in
      let opened =
        gateway_step (Handshake.await_hello, s) luck.hello_round
          (hello
            (greeting signer ends.config ends.hostname ends.key ends.agent_version ends.os_id)) in
      let e = agent_step Session.await_challenge disk luck.round question in
      let g = deliver opened luck.response_round e.2 in
      (g.0, g.1, acknowledge g.0 e.0 e.1 luck.round)
