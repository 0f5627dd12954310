-- ===== src/Gateway/Registry/Tests.antt =====
-- Runs of the registry, and the theorems about it at inputs that meet their hypotheses.
use tenodera.Prelude.{
  ◌≡◌, ℕ, some, List, [], ◌∷◌, arith, refl, Text, ne_of_test, text_eq, text_beq, codes,
}
use tenodera.Protocol.Message.{Message, payload, ready}
use tenodera.Gateway.Registry.{session_prefix, prefixed, on_channel}
use tenodera.Gateway.Registry.Agents.{new, register, connect_session, deliver}
use tenodera.Gateway.Registry.Agents.Events.{Event, registered, unregistered, connected, run}
use tenodera.Gateway.Registry.Agents.Relay.{answer_reaches_asker}

abbrev session_id : Text
session_id = codes "550e8400-e29b-41d4-a716-446655440000"

abbrev other_id : Text
other_id = codes "6ba7b810-9dad-11d1-80b4-00c04fd430c8"

first_eight : session_prefix session_id ≡ codes "550e8400"
unfolding session_prefix
first_eight = refl

abbrev note : Message ℕ ℕ
note = payload (codes "c1") 7

abbrev ack : Text → Message ℕ ℕ
ack c = ready c

-- Two sessions on one agent; the answer to the first goes to its receiver, number 41.
abbrev before : List Event
before = registered "host" (codes "10.0.0.7") 9 ∷ []

abbrev after : List Event
after = connected "host" other_id 42 ∷ unregistered "host" ∷ []

answer_reaches_asker_example :
    deliver
      (run (connect_session (run new before) "host" session_id 41).1 after)
      0
      (payload (prefixed (session_prefix session_id) (codes "c1")) 7)
    ≡ some (
      41,
      on_channel {Value = ℕ} {Fields = ℕ}
          (codes "c1")
          (payload (prefixed (session_prefix session_id) (codes "c1")) 7),
    )
unfolding run new register connect_session session_prefix text_beq
answer_reaches_asker_example =
    answer_reaches_asker before after "host" session_id 41 0
      (payload (prefixed (session_prefix session_id) (codes "c1")) 7) (codes "c1") refl
      (ne_of_test (session_prefix other_id) (session_prefix session_id) refl, (tt, tt))
      (omega arith) (cc) refl
