-- ===== src/Gateway/Handshake/Tests.antt =====
-- The agent on the gateway's own host connects, and the theorem about its connection.
use tenodera.Prelude.{
  ◌≡◌, ◌+◌, refl, ℕ, zero, suc, true, false, none, some, List, [], ◌∷◌, string_eq, ◌==◌, Text,
  text_eq, text_beq, codes, if◌then◌else◌,
}
use tenodera.Protocol.Message.{Hello, hello, challenge_response}
use tenodera.Gateway.AgentAuth.Signature.{Crypto, verify_signature}
use tenodera.Gateway.HostsConfig.{HostEntry, written, find_by_pubkey, find_by_hostname}
use tenodera.Gateway.Registry.Agents.{new, connect_session}
use tenodera.Gateway.Enrollment.{
  Candidate, AuthenticatedAgent, resolve_auth_path, by_key, unknown_key, new_hostname,
}
use tenodera.Gateway.Handshake.{
  Server, Input, text, other_frame, Round, step, at_hello, at_response, respond, route, accept,
  connected, at_connected, stream_ended,
}
use tenodera.Gateway.Handshake.Verified.{IsProved, connected_verified}
use tenodera.Gateway.Handshake.Reconnect.{reconnect_lost}

zeros : ℕ → Text
zeros zero = []
zeros (suc n) = 0 ∷ zeros n

-- A library that takes every signature of the right length.
abbrev crypto : Crypto
unfolding zeros
crypto = record {
  VerifyingKey = Text;
  decode = λ s. some (if s == "sig" then zeros 64 else zeros 32);
  from_bytes = λ b. some b;
  verify_strict = λ k p s. true;
}

abbrev server : Server
unfolding new
server = record {
  world = record { disk = none; tokens = []; agents = new };
  pending = [];
  gateway_id = codes "gw";
}

abbrev round : Round
round = record {
  sent = true;
  ack_sent = true;
  nonce_bytes = 1 ∷ [];
  channel = 3;
  draws = record { now = 5; id = "h1"; added_at = "2026-01-01"; outcome = written };
  os_outcome = written;
  seen_at = "2026-01-02";
}

abbrev greeting : Hello
greeting = record {
  version = 2;
  hostname = codes "panel";
  agent_version = "1.0";
  is_local = true;
  public_key = some "key1";
  bootstrap_token = none;
  os_id = some "debian";
}

abbrev inputs : List (Round × Input ℕ ℕ)
inputs =
    (round, other_frame)
    ∷ (round, text (some (hello greeting)))
    ∷ (round, text (some (challenge_response "sig")))
    ∷ []

connected_verified_example :
    IsProved crypto (λ k. k) (λ k. k) codes (codes "127.0.0.1") server inputs
unfolding step at_hello at_response respond route accept verify_signature resolve_auth_path by_key
    unknown_key new_hostname find_by_pubkey find_by_hostname crypto server text_beq zeros
connected_verified_example =
    connected_verified crypto (λ k. k) (λ k. k) codes (codes "127.0.0.1") server inputs refl

-- One agent connects twice, and its first socket ends last.
abbrev host : HostEntry
host = record {
  id = "h1";
  name = codes "panel";
  hostname = codes "panel";
  public_key = some "key1";
  added_at = "2026-01-01";
  is_local = false;
  display_name = none;
  last_seen = none;
  os_id = none;
}

abbrev agent : AuthenticatedAgent
agent = record { host = host; remote_ip = codes "10.0.0.7" }

abbrev asked : Candidate
asked = record {
  hostname = codes "panel";
  pubkey_b64 = "key1";
  bootstrap_token = none;
  is_local = false;
  remote_ip = codes "10.0.0.7";
  os_id = none;
}

reconnect_lost_example :
    let first = accept server round asked agent in
    let second = accept first.1 round asked agent in
    let id = server.world.agents.next in
    let ended = at_connected {Value = ℕ} {Fields = ℕ} second.1 round agent id stream_ended in
    (first.0 ≡ connected agent id)
    × (second.0 ≡ connected agent (id + 1))
    × ((connect_session second.1.world.agents "h1" (codes "6f1c") 5).0 ≡ some (id + 1))
    × ((connect_session ended.1.world.agents "h1" (codes "6f1c") 5).0 ≡ none)
reconnect_lost_example =
    reconnect_lost ℕ ℕ server round round round asked asked agent agent (codes "6f1c") 5 refl refl
      refl
