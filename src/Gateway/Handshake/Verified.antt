-- ===== src/Gateway/Handshake/Verified.antt =====
-- No agent is connected, or waits for approval, before its signature has been verified.
use tenodera.Prelude.{
  ◌≡◌, refl, Bool, true, false, ◌++◌, Option, none, some, List, [], ◌∷◌, String, Text, arith,
  Bool-cases, inl, inr, ap, ◌⊎◌,
}
use tenodera.Protocol.Message.{Hello, challenge_response, hello}
use tenodera.Gateway.AgentAuth.Signature.{Crypto, verify_signature}
use tenodera.Gateway.Enrollment.{Candidate}
use tenodera.Gateway.Handshake.{
  Server, Phase, await_hello, await_response, wait_approval, connected, closed, Input, text, Round,
  other_frame, stream_ended, deadline, approval, ping_due, at_approval, at_connected, candidate,
  challenged, at_hello, at_response, respond, step,
}
use tenodera.Gateway.Handshake.Responding.{
  responding, no_response, accept-responding, respond-responding, challenged-responding,
}

-- Past the challenge.
abbrev pub passed : Phase → Bool
passed await_hello = false
passed (await_response c n) = false
passed (wait_approval c) = true
passed (connected a id) = true
passed closed = false

challenged-passed : (round : Round) (o : Option Candidate) → passed (challenged round o) ≡ false
challenged-passed round none = refl
challenged-passed round (some c) = ground arith

at_hello-passed :
    {Value Fields : Type 0} (s : Server) (remote_ip : Text) (round : Round) (i : Input Value Fields)
    → passed ((at_hello s remote_ip round i).0) ≡ false
unfolding at_hello
at_hello-passed s remote_ip round (text (some (hello h))) =
    challenged-passed round (candidate remote_ip h)
at_hello-passed s remote_ip round _ = refl

module _ (crypto : Crypto) (hex display : String → String) (token_digest : String → Text)
    {Value Fields : Type 0} (remote_ip : Text) where
  abbrev pub run : Phase × Server → List (Round × Input Value Fields) → Phase × Server
  run p [] = p
  run p (i ∷ is) = run (step crypto hex display token_digest remote_ip p i) is

  -- Among the inputs is a response to the challenge of this connection whose signature is good.
  abbrev pub IsVerifiedIn : Phase × Server → List (Round × Input Value Fields) → Type 0
  IsVerifiedIn p is =
      (before : List (Round × Input Value Fields)) × (after : List (Round × Input Value Fields))
      × (round : Round) × (c : Candidate) × (nonce_bytes : Text) × (sig : String) × (is
          ≡ before ++ (round, text (some (challenge_response sig))) ∷ after)
      × ((run p before).0 ≡ await_response c nonce_bytes)
      × (verify_signature crypto c.pubkey_b64 sig nonce_bytes c.hostname (run p before).1.gateway_id
          ≡ true)

  -- One round past the challenge is a good response to it.
  step-passed :
      (p : Phase × Server) (round : Round) (i : Input Value Fields)
      → passed p.0 ≡ false
      → passed ((step crypto hex display token_digest remote_ip p (round, i)).0) ≡ true
      → (c : Candidate) × (nonce_bytes : Text) × (sig : String) × (i
          ≡ text (some (challenge_response sig)))
        × (p.0 ≡ await_response c nonce_bytes)
        × (verify_signature crypto c.pubkey_b64 sig nonce_bytes c.hostname p.1.gateway_id ≡ true)
  unfolding step at_response respond
  step-passed (await_hello, s) round i h e =
      absurd (ground (arith, at_hello-passed s remote_ip round i))
  step-passed (await_response c n, s) round (text (some (challenge_response sig))) h e =
      (c, n, sig, refl, refl, ground arith)
  step-passed (await_response c n, s) round _ h e = absurd (ground arith)
  step-passed (wait_approval c, s) round i h e = absurd (ground arith)
  step-passed (connected a id, s) round i h e = absurd (ground arith)
  step-passed (closed, s) round i h e = absurd (ground arith)

  run-passed :
      (p : Phase × Server) (is : List (Round × Input Value Fields))
      → passed p.0 ≡ false
      → passed ((run p is).0) ≡ true
      → IsVerifiedIn p is
  run-passed p [] h e = absurd (ground arith)
  run-passed p ((round, i) ∷ is) h e =
      elim (Bool-cases (passed ((step crypto hex display token_digest remote_ip p (round, i)).0))) [
        | inl q ↦
            let (c, n, sig, same, at, ok) = step-passed p round i h q in
            ([], is, round, c, n, sig, ap (λ j. (round, j) ∷ is) same, at, ok)
        | inr q ↦
            let (before, after, r, c, n, sig, same, at, ok) =
              run-passed (step crypto hex display token_digest remote_ip p (round, i)) is q e in
            ((round, i) ∷ before, after, r, c, n, sig, ap (λ js. (round, i) ∷ js) same, at, ok)
      ]

  -- The Hello that was answered with a challenge, among inputs.
  abbrev pub IsAsked :
      Phase × Server → List (Round × Input Value Fields) → Candidate → Text → Type 0
  IsAsked p is c nonce_bytes =
      (first : List (Round × Input Value Fields)) × (rest : List (Round × Input Value Fields))
      × (round : Round) × (h : Hello) × (is ≡ first ++ (round, text (some (hello h))) ∷ rest)
      × ((run p first).0 ≡ await_hello)
      × (c.hostname ≡ h.hostname)
      × (some c.pubkey_b64 ≡ h.public_key)
      × (nonce_bytes ≡ round.nonce_bytes)

  step-responding :
      (p : Phase × Server) (round : Round) (i : Input Value Fields) (c : Candidate) (n : Text)
      → (step crypto hex display token_digest remote_ip p (round, i)).0 ≡ await_response c n
      → (p.0 ≡ await_response c n)
        ⊎ ((p.0 ≡ await_hello)
            × (h : Hello) × (i ≡ text (some (hello h)))
            × (c.hostname ≡ h.hostname)
            × (some c.pubkey_b64 ≡ h.public_key)
            × (n ≡ round.nonce_bytes))
  unfolding step at_hello at_response at_approval at_connected responding
  step-responding (await_hello, s) round (text (some (hello h))) c n e =
      let (name, key, nonce) = challenged-responding round remote_ip h c n e in
      inr (refl, h, refl, name, key, nonce)
  step-responding (await_hello, s) round (text _) c n e = absurd (ground arith)
  step-responding (await_hello, s) round stream_ended c n e = absurd (ground arith)
  step-responding (await_hello, s) round _ c n e = absurd (ground arith)
  step-responding (await_response c' n', s) round (text (some (challenge_response sig))) c n e =
      absurd
        (no_response _ c n (respond-responding crypto hex display token_digest s round c' n' sig) e)
  step-responding (await_response c' n', s) round (text (some _)) c n e = inl e
  step-responding (await_response c' n', s) round (text none) c n e = absurd (ground arith)
  step-responding (await_response c' n', s) round other_frame c n e = inl e
  step-responding (await_response c' n', s) round stream_ended c n e = absurd (ground arith)
  step-responding (await_response c' n', s) round deadline c n e = absurd (ground arith)
  step-responding (await_response c' n', s) round _ c n e = inl e
  step-responding (wait_approval c', s) round (approval (some host)) c n e =
      absurd (no_response _ c n (accept-responding s round c' _) e)
  step-responding (wait_approval c', s) round (approval none) c n e = absurd (ground arith)
  step-responding (wait_approval c', s) round (ping_due true) c n e = absurd (ground arith)
  step-responding (wait_approval c', s) round (ping_due false) c n e = absurd (ground arith)
  step-responding (wait_approval c', s) round _ c n e = absurd (ground arith)
  step-responding (connected a id, s) round stream_ended c n e = absurd (ground arith)
  step-responding (connected a id, s) round _ c n e = absurd (ground arith)
  step-responding (closed, s) round i c n e = absurd (ground arith)

  run-responding :
      (p : Phase × Server) (is : List (Round × Input Value Fields)) (c : Candidate) (n : Text)
      → (run p is).0 ≡ await_response c n
      → (p.0 ≡ await_response c n) ⊎ IsAsked p is c n
  run-responding p [] c n e = inl e
  run-responding p ((round, i) ∷ is) c n e =
      elim (run-responding (step crypto hex display token_digest remote_ip p (round, i)) is c n e) [
        | inr (first, rest, r, h, same, at, name, key, nonce) ↦
            inr (
              (round, i) ∷ first,
              rest,
              r,
              h,
              ap (λ js. (round, i) ∷ js) same,
              at,
              name,
              key,
              nonce,
            )
        | inl q ↦ elim (step-responding p round i c n q) [
          | inl stays ↦ inl stays
          | inr (at, h, same, name, key, nonce) ↦
              inr ([], is, round, h, ap (λ j. (round, j) ∷ is) same, at, name, key, nonce)
        ]
      ]

  -- A good response, and before it the Hello that was challenged, with the same key, host name and
  -- nonce.
  abbrev pub IsProved : Server → List (Round × Input Value Fields) → Type 0
  IsProved s is =
      (before : List (Round × Input Value Fields)) × (after : List (Round × Input Value Fields))
      × (round : Round) × (c : Candidate) × (nonce_bytes : Text) × (sig : String) × (is
          ≡ before ++ (round, text (some (challenge_response sig))) ∷ after)
      × ((run (await_hello, s) before).0 ≡ await_response c nonce_bytes)
      × (verify_signature crypto c.pubkey_b64 sig nonce_bytes c.hostname
            (run (await_hello, s) before).1.gateway_id
          ≡ true)
      × IsAsked (await_hello, s) before c nonce_bytes

  -- Whatever an agent sends, if its connection is accepted or waits for approval, then among its
  -- inputs is a response to the challenge of this very connection whose signature verify_signature
  -- took, for a key, a host name, a nonce and the gateway id of then, and before it a Hello, the
  -- one that was challenged, with that key and that host name, in whose round that nonce was
  -- drawn.
  pub connected_verified :
      (s : Server) (is : List (Round × Input Value Fields))
      → passed ((run (await_hello, s) is).0) ≡ true
      → IsProved s is
  connected_verified s is e =
      let (before, after, r, c, n, sig, same, at, ok) = run-passed (await_hello, s) is refl e in
      elim (run-responding (await_hello, s) before c n at) [
        | inl never ↦ absurd (ground arith)
        | inr asked ↦ (before, after, r, c, n, sig, same, at, ok, asked)
      ]
