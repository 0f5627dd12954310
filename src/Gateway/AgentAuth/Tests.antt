-- ===== src/Gateway/AgentAuth/Tests.antt =====
-- Tokens and comparisons, and the theorems about them at inputs that meet their hypotheses.
use tenodera.Prelude.{
  ◌≡◌, arith, refl, ◌≤◌, true, false, none, List, [], ◌∷◌, Text, text_eq, text_beq, codes, String,
  string_eq,
}
use tenodera.Dict.{get, insert, modify, remove}
use tenodera.Gateway.AgentAuth.Compare.{IsBytes, constant_time_eq, diff}
use tenodera.Gateway.AgentAuth.Tokens
use tenodera.Gateway.AgentAuth.Tokens.{
  BootstrapToken, BootstrapRegistry, Request, validate_and_consume, consume, is_valid_for,
  is_exhausted, is_expired,
}
use tenodera.Gateway.AgentAuth.Tokens.Uses.{left_total}
use tenodera.Gateway.AgentAuth.Tokens.Runs.{
  Op, validate, create, step, accepted, uses, uses_bounded,
}
use tenodera.Gateway.AgentAuth.Tokens.Checks.{IsGood, validate_sound}

abbrev left_bytes : Text
left_bytes = 1 ∷ 2 ∷ []

abbrev right_bytes : Text
right_bytes = 1 ∷ 3 ∷ []

-- A token for one use, within a minute, on any host.
abbrev once : BootstrapToken
once = record {
  id = "t1";
  value_digest = codes "k7";
  single_use = true;
  use_count = 0;
  max_uses = none;
  expires_at = 60;
  bound_hostname = none;
  re_enroll = true;
}

abbrev tokens : BootstrapRegistry
tokens = ("t1", once) ∷ []

abbrev calls : List Op
calls =
    validate 10 "k7" (codes "web")
    ∷ create 20 "t2" "k8" (record {
      ttl = 5;
      single_use = false;
      max_uses = none;
      bound_hostname = none;
      re_enroll = false;
    })
    ∷ validate 30 "k7" (codes "db")
    ∷ []

one_use : uses codes "k7" tokens calls ≡ 1
unfolding step accepted Tokens.create validate_and_consume consume is_valid_for is_exhausted
    is_expired constant_time_eq diff modify remove insert text_beq
one_use = refl

uses_bounded_example : uses codes "k7" tokens calls ≤ left_total (codes "k7") tokens
unfolding constant_time_eq diff get text_beq
uses_bounded_example =
    uses_bounded codes "k7" tokens calls (tt, (refl, (tt, tt))) (refl, tt) (λ e. refl, tt)

bytes : IsBytes (codes "k7")
bytes = (omega arith, (omega arith, tt))

validate_sound_example :
    (key : String) × (t : BootstrapToken) × IsGood codes tokens 10 "k7" (codes "web") true key t
unfolding validate_and_consume consume is_valid_for is_exhausted is_expired constant_time_eq diff
    get text_beq
validate_sound_example =
    validate_sound codes tokens 10 "k7" (codes "web") true (refl, tt) (bytes, tt) bytes refl
