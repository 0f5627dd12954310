-- ===== src/Gateway/Registry/Agents/Events.antt =====
-- What happens to the registry of agents while the gateway runs, and that every host in it has a
-- connection.
use tenodera.Prelude.{
  ◌≡◌, ℕ, ◌<◌, true, false, none, some, List, [], ◌∷◌, String, string_eq, Text, text_eq, nat_eq,
  ◌==◌, Bool, is_some, ==_iff, arith, if◌then◌else◌, Option-cases, inl, inr,
}
use mathlib.Core.Path.{subst}
use tenodera.Dict.{get}
use tenodera.Dict.Laws.{get-insert, get-remove, get-modify, map_some}
use tenodera.Gateway.Registry.{session_prefix}
use tenodera.Gateway.Registry.Agents.{
  AgentConn, AgentRegistry, new, register, unregister, connect_session, subscribe,
}

-- What happens to the registry while the gateway runs: an agent is registered for a host (with its
-- address and its sender), a host is let go, a session is connected to a host.
pub data Event : Type 0 where
  registered : String → Text → ℕ → Event
  unregistered : String → Event
  connected : String → Text → ℕ → Event

unfoldable pub step : AgentRegistry → Event → AgentRegistry
step r (registered host ip tx) = (register r host ip tx).1
step r (unregistered host) = unregister r host
step r (connected host session_id sub) = (connect_session r host session_id sub).1

unfoldable pub run : AgentRegistry → List Event → AgentRegistry
unfolding step
run r [] = r
run r (e ∷ events) = run (step r e) events

-- Each host has a connection that exists, under a number already given out.
pub record IsSound (r : AgentRegistry) : Type 0 where
  pub linked :
      (host : String) (id : ℕ)
      → get host r.inner ≡ some id
      → (id < r.next) × (is_some (get id r.conns) ≡ true)

abbrev pub serves_host : AgentRegistry → String → ℕ → Bool
serves_host r host id = elim (get host r.inner) [ none ↦ false | some j ↦ j == id ]

pub get-connect_session :
    (r : AgentRegistry) (host : String) (session_id : Text) (sub id : ℕ)
    → get id (connect_session r host session_id sub).1.conns ≡ (
        if serves_host r host id
        then map_some (subscribe (session_prefix session_id) sub) (get id r.conns)
        else get id r.conns)
unfolding connect_session
get-connect_session r host session_id sub id = elim (Option-cases (get host r.inner)) [
  | inl off ↦ ground (arith, off)
  | inr (j, on) ↦
      ground (arith, on, get-modify j id (subscribe (session_prefix session_id) sub) r.conns)
]

pub connect_session_const :
    (r : AgentRegistry) (host : String) (session_id : Text) (sub : ℕ)
    → ((connect_session r host session_id sub).1.inner ≡ r.inner)
      × ((connect_session r host session_id sub).1.next ≡ r.next)
unfolding connect_session
connect_session_const r host session_id sub = ground arith

pub IsSound-new : IsSound new
unfolding new get
IsSound-new = record { linked = λ host id e. cc }

IsSound-step : (r : AgentRegistry) (e : Event) → IsSound r → IsSound (step r e)
unfolding step register unregister
IsSound-step r (registered host ip tx) k = record {
  linked = λ h id e.
      let conn : AgentConn = record { to_agent = tx; subscribers = []; remote_ip = some ip } in
      ground (
        arith,
        get-insert host h r.next r.inner,
        get-insert r.next id conn r.conns,
        ==_iff r.next id,
        k.linked h id,
      );
}
IsSound-step r (unregistered host) k = record {
  linked = λ h id e. k.linked h id (ground (arith, get-remove host h r.inner));
}
IsSound-step r (connected host session_id sub) k = record {
  linked = λ h id e.
      let (same, n) = connect_session_const r host session_id sub in
      let (lt, there) = k.linked h id (subst (λ m. get h m ≡ some id) same e) in
      (rw n lt, rw get-connect_session (ground arith));
}

pub IsSound-run : (r : AgentRegistry) (events : List Event) → IsSound r → IsSound (run r events)
unfolding run
IsSound-run r [] k = k
IsSound-run r (e ∷ events) k = IsSound-run (step r e) events (IsSound-step r e k)
