-- ===== src/Link/Tests.antt =====
-- A library in which both sides' assumptions hold, and a handshake over it.
use tenodera.Prelude.{
  ◌≡◌, refl, ap, ◌∙◌, ℕ, zero, suc, ◌+◌, true, false, none, some, [], ◌∷◌, String, nat_eq, text_eq,
  text_beq, string_eq, ◌==◌, ==_refl, Text, length, codes, arith, if◌then◌else◌,
}
use Prim.Native.Char.{code}
use tenodera.Std.Str.{trim}
use tenodera.Protocol.Message.{protocol_version}
use tenodera.Gateway.AgentAuth.Signature.{Crypto}
use tenodera.Gateway.HostsConfig.{HostEntry, written, find_by_pubkey}
use tenodera.Gateway.Registry.Agents.{new}
use tenodera.Gateway.Handshake
use tenodera.Gateway.Handshake.{Server}
use tenodera.Agent.Session
use tenodera.Agent.Session.{Signer, AgentDisk, contents, load_gateway_id, check_pin}
use tenodera.Link.{Ends, Luck, exchange}
use tenodera.Link.Complete.{Agrees, registered_agent_connects}

-- Each number is written as so many `a` and a `b`.
unary : ℕ → String → String
unary zero s = String.◌∷◌ "b" s
unary (suc n) s = String.◌∷◌ "a" (unary n s)

encode : Text → String
unfolding unary
encode [] = ""
encode (n ∷ s) = unary n (encode s)

numbers_from : ℕ → String → Text
numbers_from n String.[] = []
numbers_from n (String.◌∷◌ c s) =
    let next = n ∷ numbers_from 0 s in
    let more = numbers_from (n + 1) s in if code c == b'b' then next else more

numbers_from-unary :
    (n m : ℕ) (s : String) → numbers_from m (unary n s) ≡ (m + n) ∷ numbers_from 0 s
unfolding numbers_from unary
numbers_from-unary zero m s = ground arith
numbers_from-unary (suc n) m s = ground (arith, numbers_from-unary n (m + 1) s)

numbers_from-encode : (b : Text) → numbers_from 0 (encode b) ≡ b
unfolding encode numbers_from
numbers_from-encode [] = refl
numbers_from-encode (n ∷ s) =
    numbers_from-unary n 0 (encode s) ∙ ground (arith, numbers_from-encode s)

copies : ℕ → ℕ → Text
copies zero x = []
copies (suc n) x = x ∷ copies n x

length-copies : (n x : ℕ) → length (copies n x) ≡ n
unfolding copies
length-copies zero x = refl
length-copies (suc n) x = ground (arith, length-copies n x)

-- A key is a number, and a signature repeats the key and the payload's length.
abbrev crypto : Crypto
unfolding numbers_from copies text_beq
crypto = record {
  VerifyingKey = ℕ;
  decode = λ s. some (numbers_from 0 s);
  from_bytes = λ b. elim b [ [] ↦ none | x ∷ r ↦ some x ];
  verify_strict = λ v p sig. text_beq sig (copies 64 (v + length p));
}

abbrev signer : Signer
unfolding encode numbers_from copies
signer = record {
  SigningKey = ℕ;
  encode = encode;
  decode = λ s. some (numbers_from 0 s);
  verifying_key = λ k. copies 32 k;
  sign = λ k p. copies 64 (k + length p);
}

laws : Agrees crypto signer
unfolding crypto signer copies
laws = record {
  gateway_reads = λ b. ap (λ r. some r) (numbers_from-encode b);
  agent_reads = λ b. ap (λ r. some r) (numbers_from-encode b);
  length-verifying_key = λ k. length-copies 32 k;
  length-sign = λ k p. length-copies 64 (k + length p);
  valid = λ k. (k, refl, λ p. ==_refl (copies 64 (k + length p)));
}

abbrev host : HostEntry
unfolding encode
host = record {
  id = "h1";
  name = codes "db";
  hostname = codes "db";
  added_at = "2026-01-01";
  public_key = some (encode (copies 32 2));
  is_local = false;
  display_name = none;
  last_seen = none;
  os_id = none;
}

abbrev server : Server
unfolding new host
server = record {
  world = record { disk = some (record { hosts = host ∷ [] }); tokens = []; agents = new };
  pending = [];
  gateway_id = codes "gw";
}

abbrev ends : Ends crypto signer
unfolding crypto signer
ends = record {
  hex = λ s. s;
  display = λ s. s;
  token_digest = codes;
  remote_ip = codes "10.0.0.5";
  config = record { is_local = false; bootstrap_token = none; expected_gateway_id = none };
  hostname = codes "db";
  key = 2;
  agent_version = "1.0";
  os_id = none;
}

abbrev gateway_round : Handshake.Round
unfolding copies
gateway_round = record {
  sent = true;
  ack_sent = true;
  nonce_bytes = copies 32 1;
  channel = 3;
  draws = record { now = 5; id = "h2"; added_at = "2026-01-01"; outcome = written };
  os_outcome = written;
  seen_at = "2026-01-02";
}

abbrev luck : Luck
unfolding gateway_round
luck = record {
  hello_round = gateway_round;
  response_round = gateway_round;
  round = record { sent = true; saved = true };
}

abbrev disk : AgentDisk
disk = record { pin = contents (codes "gw"); token_kept = false }

registered_agent_connects_example :
    (id : ℕ) × ((exchange ends ℕ ℕ server disk luck).0
      ≡ Handshake.connected (record { host = host; remote_ip = codes "10.0.0.5" }) id)
    × ((exchange ends ℕ ℕ server disk luck).2 ≡ Session.running protocol_version)
unfolding host server ends luck copies encode find_by_pubkey check_pin load_gateway_id trim text_beq
    signer
registered_agent_connects_example =
    registered_agent_connects laws ends ℕ ℕ server disk luck host (contents (codes "gw")) refl refl
      refl refl refl refl
