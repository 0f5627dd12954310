-- ===== src/Gateway/Handshake.antt =====
-- `handle_agent_socket` of panel/crates/gateway/src/agent_ws.rs, from the first frame to the end of
-- the connection, as a machine that takes what its awaits yield. An agent's messages after the
-- handshake are those of Registry/Agents. A frame's text is the message it parses to, if any.
pub mod Responding
pub mod Verified
pub mod Reconnect
mod Tests
use tenodera.Prelude.{
  ℕ, Bool, true, false, not, ◌&&◌, Option, none, some, List, [], ◌∷◌, String, Text, ltb, is_none,
  if◌then◌else◌,
}
use tenodera.Protocol.Message.{
  Message, hello, challenge, challenge_response, pending, hello_ack, protocol_version,
}
use tenodera.Protocol.Message
use tenodera.Gateway.AgentAuth.Signature.{Crypto, verify_signature}
use tenodera.Gateway.AgentAuth.Pending.{PendingRegistry, enqueue, remove_pending}
use tenodera.Gateway.HostsConfig.{HostEntry, Outcome, update_os_id, update_last_seen}
use tenodera.Gateway.Enrollment
use tenodera.Gateway.Enrollment.{
  World, Draws, Candidate, AuthenticatedAgent, AuthPath, authenticated, reject, resolve_auth_path,
}
use tenodera.Gateway.Registry.Agents.{register, unregister}

pub record Server : Type 0 where
  pub world : World
  pub pending : PendingRegistry
  pub gateway_id : Text

pub data Phase : Type 0 where
  await_hello : Phase
  -- what the agent presented, and the nonce's bytes
  await_response : Candidate → Text → Phase
  wait_approval : Candidate → Phase
  -- the host, and the number of the connection
  connected : AuthenticatedAgent → ℕ → Phase
  closed : Phase

-- What an await yields. A failed read, a Close frame and the end of the stream end all phases.
pub data Input (Value Fields : Type 0) : Type 0 where
  text : Option (Message Value Fields) → Input Value Fields
  other_frame : Input Value Fields
  stream_ended : Input Value Fields
  -- the deadline of a challenge, or that of an approval
  deadline : Input Value Fields
  -- the oneshot channel: a host, or the sender dropped
  approval : Option HostEntry → Input Value Fields
  -- a keep-alive, and whether it could be sent
  ping_due : Bool → Input Value Fields

-- What one round draws: whether its sends succeed, the nonce, its channel, what `resolve_auth_path`
-- and the hosts' file ask for.
pub record Round : Type 0 where
  pub sent : Bool
  pub ack_sent : Bool
  pub nonce_bytes : Text
  pub channel : ℕ
  pub draws : Draws
  pub os_outcome : Outcome
  pub seen_at : String

-- A `Hello` that is good enough to be challenged.
abbrev pub candidate : Text → Message.Hello → Option Candidate
candidate remote_ip h = elim h.public_key as (λ _. Option Candidate) [
  | none ↦ none
  | some public_key ↦
      if ltb h.version 2
      then none
      else some (record {
        hostname = h.hostname;
        pubkey_b64 = public_key;
        bootstrap_token = h.bootstrap_token;
        is_local = h.is_local;
        remote_ip = remote_ip;
        os_id = h.os_id;
      })
]

-- Sending the challenge.
abbrev pub challenged : Round → Option Candidate → Phase
challenged round none = closed
challenged round (some c) = if round.sent then await_response c round.nonce_bytes else closed

abbrev pub fill_os_id : World → Round → HostEntry → Option String → World
unfolding update_os_id
fill_os_id w round host none = w
fill_os_id w round host (some id) =
    if is_none host.os_id
    then record w { disk = update_os_id w.disk host.id id round.os_outcome }
    else w

-- From the authentication to the registration.
unfoldable pub accept : Server → Round → Candidate → AuthenticatedAgent → Phase × Server
unfolding fill_os_id register
accept s round c a =
    let w = fill_os_id s.world round a.host c.os_id in
    let r = register w.agents a.host.id a.remote_ip round.channel in
    if round.ack_sent
    then (connected a r.0, record s { world = record w { agents = r.1 } })
    else (closed, record s { world = w })

-- The end of a connection.
unfoldable pub clean_up : Server → Round → AuthenticatedAgent → Server
unfolding update_last_seen unregister
clean_up s round a = record s {
  world = record s.world {
    disk = update_last_seen s.world.disk a.host.id round.seen_at round.os_outcome;
    agents = unregister s.world.agents a.host.id;
  };
}

module _ {Value Fields : Type 0} where
  unfoldable pub at_hello : Server → Text → Round → Input Value Fields → Phase × Server
  at_hello s remote_ip round (text (some (hello h))) = (challenged round (candidate remote_ip h), s)
  at_hello s remote_ip round (text _) = (closed, s)
  at_hello s remote_ip round other_frame = (await_hello, s)
  at_hello s remote_ip round stream_ended = (closed, s)
  at_hello s remote_ip round _ = (await_hello, s)

  unfoldable pub at_connected :
      Server → Round → AuthenticatedAgent → ℕ → Input Value Fields → Phase × Server
  unfolding clean_up
  at_connected s round a id stream_ended = (closed, clean_up s round a)
  at_connected s round a id _ = (connected a id, s)

module _ (crypto : Crypto) (hex display : String → String) (token_digest : String → Text) where
  unfoldable pub enter_pending : Server → Round → Candidate → Phase × Server
  unfolding enqueue
  enter_pending s round c =
      let r =
        enqueue hex display s.pending round.draws.now c.pubkey_b64 c.hostname c.remote_ip c.os_id
          round.channel in
      if not round.sent
      then (closed, s)
      else if r.0
      then (wait_approval c, record s { pending = r.1 })
      else (closed, s)

  unfoldable pub route : Server → Round → Candidate → AuthPath → Phase × Server
  unfolding enter_pending accept
  route s round c (authenticated a) = accept s round c a
  route s round c (Enrollment.pending reason) = enter_pending s round c
  route s round c reject = (closed, s)

  -- A response to the challenge.
  unfoldable pub respond : Server → Round → Candidate → Text → String → Phase × Server
  unfolding verify_signature resolve_auth_path route
  respond s round c nonce_bytes sig_b64 =
      let r = resolve_auth_path token_digest s.world round.draws c in
      if not (verify_signature crypto c.pubkey_b64 sig_b64 nonce_bytes c.hostname s.gateway_id)
      then (closed, s)
      else route (record s { world = r.1 }) round c r.0

  -- `wait_for_approval` gave no host.
  abbrev pub give_up : Server → Candidate → Phase × Server
  unfolding remove_pending
  give_up s c = (closed, record s { pending = remove_pending s.pending c.pubkey_b64 })

  module _ {Value Fields : Type 0} where
    unfoldable pub at_response :
        Server → Round → Candidate → Text → Input Value Fields → Phase × Server
    unfolding respond
    at_response s round c n (text (some (challenge_response sig))) = respond s round c n sig
    at_response s round c n (text (some _)) = (await_response c n, s)
    at_response s round c n (text none) = (closed, s)
    at_response s round c n other_frame = (await_response c n, s)
    at_response s round c n stream_ended = (closed, s)
    at_response s round c n deadline = (closed, s)
    at_response s round c n _ = (await_response c n, s)

    unfoldable pub at_approval : Server → Round → Candidate → Input Value Fields → Phase × Server
    unfolding accept give_up
    at_approval s round c (approval (some host)) =
        accept s round c (record { host = host; remote_ip = c.remote_ip })
    at_approval s round c (approval none) = give_up s c
    at_approval s round c (ping_due true) = (wait_approval c, s)
    at_approval s round c (ping_due false) = give_up s c
    at_approval s round c stream_ended = give_up s c
    at_approval s round c deadline = give_up s c
    at_approval s round c (text _) = (wait_approval c, s)
    at_approval s round c other_frame = (wait_approval c, s)

    unfoldable pub step : Text → Phase × Server → Round × Input Value Fields → Phase × Server
    unfolding at_hello at_response at_approval at_connected
    step remote_ip (await_hello, s) (round, i) = at_hello s remote_ip round i
    step remote_ip (await_response c n, s) (round, i) = at_response s round c n i
    step remote_ip (wait_approval c, s) (round, i) = at_approval s round c i
    step remote_ip (connected a id, s) (round, i) = at_connected s round a id i
    step remote_ip (closed, s) (round, i) = (closed, s)
