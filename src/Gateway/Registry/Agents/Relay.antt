-- ===== src/Gateway/Registry/Agents/Relay.antt =====
-- Which session gets an agent's answer, and how long a connection stays.
use tenodera.Prelude.{
  ◌≡◌, ◌≢◌, ℕ, ◌<◌, true, false, Option, none, some, List, [], ◌∷◌, String, string_eq, Text,
  text_eq, nat_eq, Bool, ◌>>=◌, ◌+◌, is_some, ==_iff, ==_refl, length, All, arith, if◌then◌else◌,
  refl, ◌∙◌, sym,
}
use tenodera.Dict.{get}
use tenodera.Dict.Laws.{get-insert, get-remove, map_some}
use tenodera.Protocol.Message.{Message}
use tenodera.Gateway.Registry.{
  session_prefix, session_prefix_len, prefixed, agent_channel, on_channel,
  strip_prefix_from_message,
}
use tenodera.Gateway.Registry.Prefix.{strip_prefixed}
use tenodera.Gateway.Registry.Agents.{
  AgentConn, AgentRegistry, new, register, unregister, connect_session, subscribe, deliver,
}
use tenodera.Gateway.Registry.Agents.Events.{
  Event, registered, unregistered, connected, step, run, IsSound, get-connect_session,
  connect_session_const, IsSound-new, IsSound-run, serves_host,
}

-- Where the connection `id` hands what is meant for `prefix`.
abbrev subscriber : AgentRegistry → ℕ → Text → Option ℕ
subscriber r id prefix = get id r.conns >>= λ conn. get prefix conn.subscribers

record Serves (id : ℕ) (prefix : Text) (sub : ℕ) (r : AgentRegistry) : Type 0 where
  given : id < r.next
  there : subscriber r id prefix ≡ some sub

-- The event connects no session with the prefix.
abbrev pub Apart : Text → Event → Type 0
Apart prefix (connected host session_id sub) = session_prefix session_id ≢ prefix
Apart prefix _ = Unit

-- Another session's subscription leaves a prefix alone.
subscribe_apart :
    (prefix other : Text) (sub : ℕ) (o : Option AgentConn) (b : Bool)
    → other ≢ prefix
    → ((if b then map_some (subscribe other sub) o else o) >>= λ conn. get prefix conn.subscribers)
      ≡ (o >>= λ conn. get prefix conn.subscribers)
subscribe_apart prefix other sub none true ne = refl
subscribe_apart prefix other sub none false ne = refl
subscribe_apart prefix other sub (some conn) true ne =
    ground (arith, get-insert other prefix sub conn.subscribers, ==_iff other prefix)
subscribe_apart prefix other sub (some conn) false ne = refl

Serves-step :
    (r : AgentRegistry) (e : Event) (id : ℕ) (prefix : Text) (sub : ℕ)
    → Apart prefix e
    → Serves id prefix sub r
    → Serves id prefix sub (step r e)
unfolding step register unregister
Serves-step r (registered host ip tx) id prefix sub a k = record {
  given = omega (arith, k.given);
  there =
      let conn : AgentConn = record { to_agent = tx; subscribers = []; remote_ip = some ip } in
      ground (arith, get-insert r.next id conn r.conns, ==_iff r.next id, k.given, k.there);
}
Serves-step r (unregistered host) id prefix sub a k = record { given = k.given; there = k.there }
Serves-step r (connected host session_id sub') id prefix sub a k = record {
  given = rw (connect_session_const r host session_id sub').1 k.given;
  there = rw get-connect_session (
      subscribe_apart prefix (session_prefix session_id) sub' (get id r.conns)
        (serves_host r host id) a
      ∙ k.there);
}

Serves-run :
    (r : AgentRegistry) (events : List Event) (id : ℕ) (prefix : Text) (sub : ℕ)
    → All (Apart prefix) events
    → Serves id prefix sub r
    → Serves id prefix sub (run r events)
unfolding run
Serves-run r [] id prefix sub a k = k
Serves-run r (e ∷ events) id prefix sub (a, as') k =
    Serves-run (step r e) events id prefix sub as' (Serves-step r e id prefix sub a k)

result-connect_session :
    (r : AgentRegistry) (host : String) (session_id : Text) (sub : ℕ)
    → (connect_session r host session_id sub).0 ≡ get host r.inner
unfolding connect_session
result-connect_session r host session_id sub = ground arith

subscribe_here :
    (prefix : Text) (sub : ℕ) (o : Option AgentConn) (b : Bool)
    → b ≡ true
    → is_some o ≡ true
    → ((if b then map_some (subscribe prefix sub) o else o) >>= λ conn. get prefix conn.subscribers)
      ≡ some sub
subscribe_here prefix sub none b hb h = cc
subscribe_here prefix sub (some conn) b hb h =
    ground (arith, get-insert prefix prefix sub conn.subscribers, ==_refl prefix)

Serves-connect_session :
    (r : AgentRegistry) (host : String) (session_id : Text) (sub id : ℕ)
    → IsSound r
    → (connect_session r host session_id sub).0 ≡ some id
    → Serves id (session_prefix session_id) sub (connect_session r host session_id sub).1
Serves-connect_session r host session_id sub id k e =
    let on = sym (result-connect_session r host session_id sub) ∙ e in
    let (lt, here) = k.linked host id on in
    record {
      given = rw (connect_session_const r host session_id sub).1 lt;
      there = rw get-connect_session (
          subscribe_here (session_prefix session_id) sub (get id r.conns) (serves_host r host id)
            (ground (arith, on, ==_iff id id)) here);
    }

module _ {Value Fields : Type 0} where
  deliver-served :
      (r : AgentRegistry) (id : ℕ) (prefix : Text) (sub : ℕ) (m m' : Message Value Fields)
      → Serves id prefix sub r
      → strip_prefix_from_message m ≡ some (m', prefix)
      → deliver r id m ≡ some (sub, m')
  unfolding deliver
  deliver-served r id prefix sub m m' k e = rw e (ground (arith, k.there))

  -- Whatever agents come and go before and after a session with a prefix of the full length is
  -- connected to a connection: as long as no session with its prefix is connected again, an
  -- agent's message on a channel with that prefix and more behind it is handed to the subscriber
  -- of the session, on the channel that the session named.
  pub answer_reaches_asker :
      (before after : List Event) (host : String) (session_id : Text) (sub id : ℕ)
      (m : Message Value Fields) (c : Text)
      → (connect_session (run new before) host session_id sub).0 ≡ some id
      → All (Apart (session_prefix session_id)) after
      → length (session_prefix session_id) ≡ session_prefix_len
      → c ≢ []
      → agent_channel m ≡ some (prefixed (session_prefix session_id) c)
      → deliver (run (connect_session (run new before) host session_id sub).1 after) id m
        ≡ some (sub, on_channel c m)
  answer_reaches_asker before after host session_id sub id m c on apart l ne e =
      let sound = IsSound-run new before IsSound-new in
      let served = Serves-connect_session (run new before) host session_id sub id sound on in
      deliver-served _ id _ sub m (on_channel c m) (Serves-run _ after id _ sub apart served)
        (strip_prefixed m (session_prefix session_id) c l ne e)

-- A host that is registered twice, and then unregistered.
pub unregister-register :
    (r : AgentRegistry) (host : String) (ip ip' : Text) (tx tx' : ℕ) (session_id : Text) (sub : ℕ)
    → ((connect_session ((register (register r host ip tx).1 host ip' tx').1) host session_id sub).0
        ≡ some (r.next + 1))
      × ((connect_session
            (unregister (register (register r host ip tx).1 host ip' tx').1 host)
            host
            session_id
            sub).0
          ≡ none)
unfolding register unregister
unregister-register r host ip ip' tx tx' session_id sub = (
  rw (result-connect_session, get-insert, ==_refl) refl,
  rw (result-connect_session, get-remove, ==_refl) refl,
)
