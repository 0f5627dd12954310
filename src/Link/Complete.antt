-- ===== src/Link/Complete.antt =====
-- A handshake between honest sides comes to its end.
use tenodera.Prelude.{◌≡◌, refl, ℕ, true, some, String, Text, nat_eq, length}
use tenodera.Protocol.Challenge.{build_challenge_payload}
use tenodera.Protocol.Message.{protocol_version}
use tenodera.Gateway.AgentAuth.Signature.{Crypto, verify_signature}
use tenodera.Gateway.Registry.Agents.{register}
use tenodera.Gateway.Enrollment.{Candidate, resolve_auth_path, by_key}
use tenodera.Gateway.HostsConfig.{HostEntry, find_by_pubkey}
use tenodera.Gateway.Handshake
use tenodera.Gateway.Handshake.{Server, at_hello, at_response, respond, route, accept, fill_os_id}
use tenodera.Agent.Session
use tenodera.Agent.Session.{
  Signer, AgentConfig, AgentDisk, PinFile, load_gateway_id, check_pin, at_challenge, at_ack,
}
use tenodera.Link.{Ends, Luck, gateway_step, agent_step, deliver, acknowledge, exchange}

-- What the two sides rely on: base64 is read back, keys have 32 bytes and signatures 64, and the
-- signatures of a key are valid for it.
pub record Agrees (crypto : Crypto) (signer : Signer) : Type 0 where
  pub gateway_reads : (b : Text) → crypto.decode (signer.encode b) ≡ some b
  pub agent_reads : (b : Text) → signer.decode (signer.encode b) ≡ some b
  pub length-verifying_key : (k : signer.SigningKey) → length (signer.verifying_key k) ≡ 32
  pub length-sign : (k : signer.SigningKey) (p : Text) → length (signer.sign k p) ≡ 64
  pub valid :
      (k : signer.SigningKey)
      → (v : crypto.VerifyingKey) × (crypto.from_bytes (signer.verifying_key k) ≡ some v)
        × ((p : Text) → crypto.verify_strict v p (signer.sign k p) ≡ true)

-- The gateway connects who answers well and has a registered key.
respond_known :
    (crypto : Crypto) (hex display : String → String) (digest : String → Text) (s : Server)
    (round : Handshake.Round) (c : Candidate) (nonce : Text) (sig : String) (host : HostEntry)
    → verify_signature crypto c.pubkey_b64 sig nonce c.hostname s.gateway_id ≡ true
    → find_by_pubkey s.world.disk c.pubkey_b64 ≡ some host
    → round.ack_sent ≡ true
    → (id : ℕ) × ((respond crypto hex display digest s round c nonce sig).0
        ≡ Handshake.connected (record { host = host; remote_ip = c.remote_ip }) id)
unfolding respond resolve_auth_path by_key route accept
respond_known crypto hex display digest s round c nonce sig host good known acked = (
  (register (fill_os_id s.world round host c.os_id).agents host.id c.remote_ip round.channel).0,
  rw (good, known, acked) refl,
)

module _ {crypto : Crypto} {signer : Signer} (laws : Agrees crypto signer) where
  -- A response of the agent is one that the gateway takes.
  verify_signature-sign :
      (k : signer.SigningKey) (nonce hostname g : Text)
      → verify_signature crypto
          (signer.encode (signer.verifying_key k))
          (signer.encode (signer.sign k (build_challenge_payload nonce hostname g)))
          nonce
          hostname
          g
        ≡ true
  unfolding verify_signature
  verify_signature-sign k nonce hostname g =
      let (v, key, good) = laws.valid k in
      let payload = build_challenge_payload nonce hostname g in
      rw
        (
          laws.gateway_reads (signer.verifying_key k),
          laws.gateway_reads (signer.sign k payload),
          laws.length-verifying_key k,
          laws.length-sign k payload,
          key,
          good payload,
        )
        refl

  module _ (ends : Ends crypto signer) (Value Fields : Type 0) (s : Server) (disk : AgentDisk)
      (luck : Luck) where
    -- An agent whose key is registered, and whose checks take the gateway's id, is connected as
    -- the host of its key, and goes on to serve: where the sends succeed and the nonce has 32
    -- bytes, the handshake comes to its end on both sides.
    pub registered_agent_connects :
        (host : HostEntry) (pin : PinFile)
        → find_by_pubkey s.world.disk (signer.encode (signer.verifying_key ends.key)) ≡ some host
        → check_pin ends.config luck.round disk.pin (load_gateway_id disk.pin) s.gateway_id
          ≡ some pin
        → length luck.hello_round.nonce_bytes ≡ 32
        → luck.hello_round.sent ≡ true
        → luck.response_round.ack_sent ≡ true
        → luck.round.sent ≡ true
        → (id : ℕ) × ((exchange ends Value Fields s disk luck).0
            ≡ Handshake.connected (record { host = host; remote_ip = ends.remote_ip }) id)
          × ((exchange ends Value Fields s disk luck).2 ≡ Session.running protocol_version)
    unfolding exchange gateway_step agent_step deliver acknowledge at_hello at_challenge at_response
        at_ack
    registered_agent_connects host pin known trusted long sent acked sent' =
        let n = luck.hello_round.nonce_bytes in
        let c : Candidate = record {
          hostname = ends.hostname;
          pubkey_b64 = signer.encode (signer.verifying_key ends.key);
          bootstrap_token = ends.config.bootstrap_token;
          is_local = ends.config.is_local;
          remote_ip = ends.remote_ip;
          os_id = ends.os_id;
        } in
        let sig =
          signer.encode
            (signer.sign ends.key (build_challenge_payload n ends.hostname s.gateway_id)) in
        let (id, on) =
          respond_known crypto ends.hex ends.display ends.token_digest s luck.response_round c n sig
            host (verify_signature-sign ends.key n ends.hostname s.gateway_id) known acked in
        (
          id,
          rw (trusted, laws.agent_reads n, long, sent, sent') on,
          rw (trusted, laws.agent_reads n, long, sent, sent', on) refl,
        )
