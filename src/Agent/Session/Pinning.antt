-- ===== src/Agent/Session/Pinning.antt =====
-- For which gateway an agent signs.
use tenodera.Prelude.{
  ◌≡◌, refl, sym, ap, ℕ, Bool, true, false, ◌⊎◌, inl, inr, Option, none, some, List, [], ◌∷◌,
  String, Text, nat_eq, text_eq, ◌==◌, ==_iff, length, arith, all, All, All-append, Option-cases,
  Bool-cases,
}
use tenodera.Std.Str.{trim}
use tenodera.Protocol.Message.{Message, challenge, hello_ack}
use tenodera.Protocol.Challenge.{build_challenge_payload}
use tenodera.Agent.Session.{
  Signer, PinFile, contents, pinned, some_text, load_gateway_id, AgentConfig, AgentDisk, Phase,
  await_challenge, await_ack, wait_approval, running, ended, Effect, stream_ended, tick, Input,
  text, ping_frame, Round, check_pin, Sent, response, pong_message, signed, after_check,
  at_challenge, at_ack, at_approval, at_running, step, run, sessions,
}

abbrev is_pong : Sent → Bool
is_pong (response sig) = false
is_pong pong_message = true

-- The only id that the agent may trust: it is pinned, or else none is and it is the expected one.
abbrev pub IsBound : AgentConfig → Text → PinFile → Type 0
IsBound config g pin =
    (load_gateway_id pin ≡ pinned (some g))
    ⊎ ((load_gateway_id pin ≡ pinned none) × (config.expected_gateway_id ≡ some g))

check_pin-IsBound :
    (config : AgentConfig) (round : Round) (pin pin' : PinFile) (g gateway_id : Text)
    → some_text (trim g) ≡ some g
    → IsBound config g pin
    → check_pin config round pin (load_gateway_id pin) gateway_id ≡ some pin'
    → (gateway_id ≡ g) × IsBound config g pin'
unfolding check_pin load_gateway_id
check_pin-IsBound config round pin pin' g gateway_id plain (inl known) e =
    let e' = rw known at e in
    let same : g ≡ gateway_id = ground (arith, ==_iff g gateway_id) in
    let kept : pin ≡ pin' = ground (arith, e') in (sym same, inl (rw (sym kept) known))
check_pin-IsBound config round pin pin' g gateway_id plain (inr (none_yet, wanted)) e =
    let e' = rw (none_yet, wanted) at e in
    let same : g ≡ gateway_id = ground (arith, e', ==_iff g gateway_id) in
    let made : contents gateway_id ≡ pin' = ground (arith, e') in
    (sym same, inl (rw (sym made, sym same) (ap (λ t. pinned t) plain)))

-- Nothing is signed, and the pin stays.
abbrev IsQuiet : AgentDisk → Effect → Type 0
IsQuiet disk r = (all is_pong r.2 ≡ true) × (r.1.pin ≡ disk.pin)

module _ {Value Fields : Type 0} (config : AgentConfig) (disk : AgentDisk) where
  at_ack-IsQuiet : (i : Input Value Fields) → IsQuiet disk (at_ack config disk i)
  unfolding at_ack
  at_ack-IsQuiet (text (some (hello_ack version warning))) = ground arith
  at_ack-IsQuiet (text (some (Message.pending reason))) = (refl, refl)
  at_ack-IsQuiet (text _) = (refl, refl)
  at_ack-IsQuiet stream_ended = (refl, refl)
  at_ack-IsQuiet _ = (refl, refl)

  at_approval-IsQuiet :
      (round : Round) (i : Input Value Fields) → IsQuiet disk (at_approval config disk round i)
  unfolding at_approval
  at_approval-IsQuiet round (text (some (hello_ack version warning))) = ground arith
  at_approval-IsQuiet round (text _) = (refl, refl)
  at_approval-IsQuiet round stream_ended = (refl, refl)
  at_approval-IsQuiet round tick = (refl, refl)
  at_approval-IsQuiet round _ = (refl, refl)

  at_running-IsQuiet :
      (version : ℕ) (i : Input Value Fields) → IsQuiet disk (at_running disk version i)
  unfolding at_running
  at_running-IsQuiet version ping_frame = (refl, refl)
  at_running-IsQuiet version stream_ended = (refl, refl)
  at_running-IsQuiet version _ = (refl, refl)

module _ (signer : Signer) (config : AgentConfig) (hostname : Text) (key : signer.SigningKey)
    (g : Text) where
  -- A signature of a challenge's payload, with the agent's own host name and the id `g`.
  abbrev pub SignsFor : Sent → Type 0
  SignsFor (response sig) =
      (nonce : Text) × (length nonce ≡ 32)
      × (sig ≡ signer.encode (signer.sign key (build_challenge_payload nonce hostname g)))
  SignsFor pong_message = Unit {0}

  All-quiet : (sent : List Sent) → all is_pong sent ≡ true → All SignsFor sent
  All-quiet [] h = tt
  All-quiet (response sig ∷ sent) h = absurd (ground arith)
  All-quiet (pong_message ∷ sent) h = (tt, All-quiet sent (ground arith))

  signed-SignsFor :
      (disk : AgentDisk) (round : Round) (nonce : Option Text)
      → All SignsFor (signed signer key hostname g disk round nonce).2
        × ((signed signer key hostname g disk round nonce).1 ≡ disk)
  signed-SignsFor disk round none = (tt, refl)
  signed-SignsFor disk round (some nonce) = elim (Bool-cases (length nonce == 32)) [
    | inr long ↦ rw long (tt, refl)
    | inl good ↦
        let l = (==_iff (length nonce) 32).0 good in
        elim (Bool-cases round.sent) [
          | inl s ↦ rw (good, s) (((nonce, l, refl), tt), refl)
          | inr s ↦ rw (good, s) (tt, refl)
        ]
  ]

  -- What is sent signs for `g`, and `g` stays the only id to be trusted.
  abbrev pub IsKept : Effect → Type 0
  IsKept r = All SignsFor r.2 × IsBound config g r.1.pin

  -- A round that neither signs nor pins.
  IsKept-quiet :
      (disk : AgentDisk) (r : Effect) → IsBound config g disk.pin → IsQuiet disk r → IsKept r
  IsKept-quiet disk (p, d, sent) b (none_signed, same) = (All-quiet sent none_signed, rw same b)

  module _ (plain : some_text (trim g) ≡ some g) where
    after_check-IsKept :
        (disk : AgentDisk) (round : Round) (nonce_b64 : String) (gateway_id : Text)
        → IsBound config g disk.pin
        → IsKept (
            after_check signer key hostname nonce_b64 gateway_id disk round
              (check_pin config round disk.pin (load_gateway_id disk.pin) gateway_id))
    after_check-IsKept disk round nonce_b64 gateway_id b =
        elim (Option-cases
          (check_pin config round disk.pin (load_gateway_id disk.pin) gateway_id)) [
            | inl off ↦ rw off (tt, b)
            | inr (pin, on) ↦
                let (same, b') =
                  check_pin-IsBound config round disk.pin pin g gateway_id plain b on in
                let (signs, at) =
                  signed-SignsFor (record disk { pin = pin }) round (signer.decode nonce_b64) in
                rw (on, same, at) (signs, b')
          ]

    at_challenge-IsKept :
        {Value Fields : Type 0} (disk : AgentDisk) (round : Round) (i : Input Value Fields)
        → IsBound config g disk.pin
        → IsKept (at_challenge signer config hostname key disk round i)
    unfolding at_challenge
    at_challenge-IsKept disk round (text (some (challenge nonce_b64 gateway_id))) b =
        after_check-IsKept disk round nonce_b64 gateway_id b
    at_challenge-IsKept disk round (text _) b = (tt, b)
    at_challenge-IsKept disk round stream_ended b = (tt, b)
    at_challenge-IsKept disk round _ b = (tt, b)

    step-IsKept :
        {Value Fields : Type 0} (p : Phase) (disk : AgentDisk) (round : Round)
        (i : Input Value Fields)
        → IsBound config g disk.pin
        → IsKept (step signer config hostname key p disk round i)
    unfolding step
    step-IsKept await_challenge disk round i b = at_challenge-IsKept disk round i b
    step-IsKept await_ack disk round i b =
        IsKept-quiet disk (at_ack config disk i) b (at_ack-IsQuiet config disk i)
    step-IsKept wait_approval disk round i b =
        IsKept-quiet disk (at_approval config disk round i) b
          (at_approval-IsQuiet config disk round i)
    step-IsKept (running version) disk round i b =
        IsKept-quiet disk (at_running disk version i) b (at_running-IsQuiet config disk version i)
    step-IsKept ended disk round i b = (tt, b)

    run-IsKept :
        {Value Fields : Type 0} (p : Phase) (disk : AgentDisk)
        (is : List (Round × Input Value Fields))
        → IsBound config g disk.pin
        → All SignsFor (run signer config hostname key p disk is).1
          × IsBound config g (run signer config hostname key p disk is).0.pin
    unfolding run
    run-IsKept p disk [] b = (tt, b)
    run-IsKept p disk ((round, i) ∷ is) b =
        let e = step signer config hostname key p disk round i in
        let (signs, b') = step-IsKept p disk round i b in
        let (later, b'') = run-IsKept e.0 e.1 is b' in
        (All-append SignsFor e.2 (run signer config hostname key e.0 e.1 is).1 signs later, b'')

    -- Once a gateway id is pinned, or while none is and the configuration expects one, and where
    -- the id is not empty and has no white space around it: over any sequence of sessions, and
    -- whatever comes in them, each signature is one of a challenge's payload with 32 bytes of
    -- nonce, the agent's own host name and this very id, and no other id comes to be trusted.
    pub one_gateway_trusted :
        {Value Fields : Type 0} (disk : AgentDisk) (ss : List (List (Round × Input Value Fields)))
        → IsBound config g disk.pin
        → All SignsFor (sessions signer config hostname key disk ss).1
          × IsBound config g (sessions signer config hostname key disk ss).0.pin
    unfolding sessions
    one_gateway_trusted disk [] b = (tt, b)
    one_gateway_trusted disk (is ∷ ss) b =
        let r = run signer config hostname key await_challenge disk is in
        let (signs, b') = run-IsKept await_challenge disk is b in
        let (later, b'') = one_gateway_trusted r.0 ss b' in
        (All-append SignsFor r.1 (sessions signer config hostname key r.0 ss).1 signs later, b'')
