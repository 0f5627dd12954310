-- ===== src/Gateway/Handshake/Responding.antt =====
-- Which rounds lead to the wait for a response, and what is kept for it.
use tenodera.Prelude.{
  ◌≡◌, refl, Bool, true, false, some, String, Text, arith, Bool-cases, inl, inr, Option-cases,
}
use tenodera.Protocol.Message.{Hello}
use tenodera.Gateway.AgentAuth.Signature.{Crypto, verify_signature}
use tenodera.Gateway.Enrollment
use tenodera.Gateway.Enrollment.{
  Candidate, AuthenticatedAgent, AuthPath, authenticated, reject, resolve_auth_path,
}
use tenodera.Gateway.Handshake.{
  Server, Phase, await_response, Round, accept, route, enter_pending, candidate, challenged,
  respond,
}

-- Waiting for the response to a challenge.
unfoldable pub responding : Phase → Bool
responding (await_response c n) = true
responding _ = false

pub no_response :
    (p : Phase) (c : Candidate) (n : Text) → responding p ≡ false → p ≡ await_response c n → ⊥
unfolding responding
no_response p c n h e = ground arith

pub accept-responding :
    (s : Server) (round : Round) (c : Candidate) (a : AuthenticatedAgent)
    → responding ((accept s round c a).0) ≡ false
unfolding accept responding
accept-responding s round c a = ground arith

pub respond-responding :
    (crypto : Crypto) (hex display : String → String) (token_digest : String → Text) (s : Server)
    (round : Round) (c : Candidate) (n : Text) (sig : String)
    → responding ((respond crypto hex display token_digest s round c n sig).0) ≡ false
unfolding respond route enter_pending responding
respond-responding crypto hex display token_digest s round c n sig =
    let r = resolve_auth_path token_digest s.world round.draws c in
    elim (Bool-cases (verify_signature crypto c.pubkey_b64 sig n c.hostname s.gateway_id)) [
      | inl ok ↦ rw ok (routed (record s { world = r.1 }) r.0)
      | inr bad ↦ rw bad refl
    ]
  where
    routed :
        (s : Server) (path : AuthPath)
        → responding ((route crypto hex display token_digest s round c path).0) ≡ false
    routed s (authenticated a) = accept-responding s round c a
    routed s (Enrollment.pending reason) = ground arith
    routed s reject = refl

pub challenged-responding :
    (round : Round) (remote_ip : Text) (h : Hello) (c : Candidate) (n : Text)
    → challenged round (candidate remote_ip h) ≡ await_response c n
    → (c.hostname ≡ h.hostname) × (some c.pubkey_b64 ≡ h.public_key) × (n ≡ round.nonce_bytes)
challenged-responding round remote_ip h c n e = elim (Option-cases h.public_key) [
  | inl missing ↦ absurd (ground (arith, missing))
  | inr (key, given) ↦ ground (arith, given)
]
