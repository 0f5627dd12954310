-- ===== src/Gateway/AgentAuth/Signature.antt =====
-- `verify_signature` of panel/crates/gateway/src/agent_auth.rs. Base64 and Ed25519 are libraries
-- that the repository does not hold: they are parameters.
use tenodera.Prelude.{
  ℕ, Bool, false, Option, none, some, String, Text, nat_eq, ◌==◌, length, if◌then◌else◌,
}
use tenodera.Protocol.Challenge.{build_challenge_payload}

pub record Crypto : Type 1 where
  pub VerifyingKey : Type 0
  -- base64's STANDARD engine: the bytes of a text
  pub decode : String → Option Text
  -- `VerifyingKey::from_bytes` and `verify_strict`, of a payload and a signature
  pub from_bytes : Text → Option VerifyingKey
  pub verify_strict : VerifyingKey → Text → Text → Bool

-- `Ok(b) if b.len() == n => b`
abbrev pub of_length : ℕ → Option Text → Option Text
of_length n none = none
of_length n (some b) = if length b == n then some b else none

module _ (crypto : Crypto) where
  abbrev pub checks : Option crypto.VerifyingKey → Option Text → Text → Bool
  checks none signature payload = false
  checks (some key) none payload = false
  checks (some key) (some signature) payload = crypto.verify_strict key payload signature

  abbrev pub key_of : Option Text → Option crypto.VerifyingKey
  key_of none = none
  key_of (some bytes) = crypto.from_bytes bytes

  unfoldable pub verify_signature : String → String → Text → Text → Text → Bool
  unfolding build_challenge_payload
  verify_signature pubkey_b64 sig_b64 nonce_bytes hostname gateway_id =
      checks (key_of (of_length 32 (crypto.decode pubkey_b64)))
        (of_length 64 (crypto.decode sig_b64))
        (build_challenge_payload nonce_bytes hostname gateway_id)
