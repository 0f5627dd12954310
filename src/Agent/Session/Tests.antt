-- ===== src/Agent/Session/Tests.antt =====
-- Two gateways call on an agent that expects the first.
use tenodera.Prelude.{
  ◌≡◌, refl, inr, ℕ, zero, suc, true, false, none, some, List, [], ◌∷◌, Text, text_eq, text_beq,
  codes, All,
}
use tenodera.Std.Str.{trim}
use tenodera.Protocol.Message.{challenge, hello_ack}
use tenodera.Agent.Session.{
  Signer, AgentConfig, AgentDisk, missing, contents, load_gateway_id, check_pin, Round, Input, text,
  response, run, step, sessions, at_challenge, at_ack,
}
use tenodera.Agent.Session.Pinning.{IsBound, SignsFor, one_gateway_trusted}

abbrev thirty_two : ℕ → Text
thirty_two zero = []
thirty_two (suc n) = 7 ∷ thirty_two n

abbrev signer : Signer
signer = record {
  SigningKey = ℕ;
  encode = λ b. "sig";
  decode = λ s. some (thirty_two 32);
  verifying_key = λ k. [];
  sign = λ k p. p;
}

abbrev config : AgentConfig
config = record {
  is_local = false;
  bootstrap_token = some "token";
  expected_gateway_id = some (codes "gw-1");
}

abbrev disk : AgentDisk
disk = record { pin = missing; token_kept = true }

abbrev round : Round
round = record { sent = true; saved = true }

abbrev visits : List (List (Round × Input ℕ ℕ))
visits =
    ((round, text (some (challenge "n" (codes "gw-2")))) ∷ [])
    ∷ ((round, text (some (challenge "n" (codes "gw-1"))))
        ∷ (round, text (some (hello_ack 2 none)))
        ∷ [])
    ∷ ((round, text (some (challenge "n" (codes "gw-2")))) ∷ [])
    ∷ []

-- The second is signed for, its id is pinned, and the token is scrubbed.
visits_result :
    sessions signer config (codes "db") 5 disk visits
    ≡ (record { pin = contents (codes "gw-1"); token_kept = false }, response "sig" ∷ [])
unfolding sessions run step at_challenge at_ack check_pin load_gateway_id trim text_beq
visits_result = refl

one_gateway_trusted_example :
    All
      (SignsFor signer config (codes "db") 5 (codes "gw-1"))
      (sessions signer config (codes "db") 5 disk visits).1
    × IsBound config (codes "gw-1") (sessions signer config (codes "db") 5 disk visits).0.pin
unfolding load_gateway_id trim
one_gateway_trusted_example =
    one_gateway_trusted signer config (codes "db") 5 (codes "gw-1") refl disk visits
      (inr (refl, refl))
