-- ===== src/Gateway/Client/Loop/Runs.antt =====
-- A WebSocket from its authentication to its end: who it speaks for, and its bounds.
use tenodera.Prelude.{
  ◌≡◌, refl, String, ◌∙◌, ap, ℕ, Option, none, some, List, [], Text, text_eq, arith, All, All-map,
}
use mathlib.Core.Bool.{false≢true}
use tenodera.Std.Time.{Instant}
use tenodera.Protocol.Json.{Json}
use tenodera.Protocol.Message.{Message, open_channel, auth, token, basic}
use tenodera.Gateway.Session.{Role, admin, readonly, Session, SessionStore, get_valid}
use tenodera.Gateway.Registry.{session_prefix}
use tenodera.Gateway.Registry.Agents.{AgentRegistry}
use tenodera.Gateway.Client.{Conn, Round, Sent, as_str}
use tenodera.Gateway.Client.Identity.{SaysWho, same_session}
use tenodera.Gateway.Client.Limits.{IsWithin}
use tenodera.Gateway.Client.Loop.{
  State, Phase, authenticating, looping, ended, Event, text, start, step, at_phase, at_auth,
  authenticate, admit,
}
use tenodera.Gateway.Client.Loop.Serving.{run, IsServing, SaysWhoAll, run-IsServing}

-- The roles' names in a request.
abbrev pub role_name : Role → String
role_name admin = "admin"
role_name readonly = "readonly"

role_name_lem : (role : Role) → as_str role ≡ role_name role
role_name_lem admin = refl
role_name_lem readonly = refl

start-IsWithin : (id : Text) (session : Session) → IsWithin (start id session)
unfolding start
start-IsWithin id session = record { channels = omega arith; ids = tt; agents = omega arith }

module _ (json : Json) (idle_timeout_secs : ℕ) where
  -- An open request that names a session's user and role, and no host.
  abbrev pub Names : Session → ℕ × Message json.Value json.Fields → Type 0
  Names session (agent, open_channel channel options) =
      (json.get "_user" options.extra ≡ some (json.string session.user))
      × (json.get "_role" options.extra ≡ some (json.string (role_name session.role)))
      × (json.get "host" options.extra ≡ none)
  Names session _ = Unit

  -- A loop for a session that keeps its bounds, or that has ended.
  abbrev pub Serves : Text → Session → Phase → Type 0
  Serves id session authenticating = ⊥
  Serves id session (looping c) =
      (c.session_id ≡ id)
      × (c.user ≡ session.user)
      × (c.role ≡ session.role)
      × (c.s_prefix ≡ session_prefix id)
      × IsWithin c
  Serves id session ended = Unit

  IsServing-Serves :
      (id : Text) (session : Session) (p : Phase)
      → IsServing json idle_timeout_secs (start id session) p
      → Serves id session p
  unfolding start
  IsServing-Serves id session authenticating h = absurd (false≢true h)
  IsServing-Serves id session (looping c) (same, within) =
      (same.session_id, same.user, same.role, same.s_prefix, within)
  IsServing-Serves id session ended h = tt

  SaysWho-Names :
      (id : Text) (session : Session) (e : ℕ × Message json.Value json.Fields)
      → SaysWho json (start id session) e.1
      → Names session e
  unfolding start
  SaysWho-Names id session (agent, open_channel channel options) (user, role, host) =
      (user, role ∙ ap (λ r. some (json.string r)) (role_name_lem session.role), host)
  SaysWho-Names id session (agent, _) says = tt

  SaysWhoAll-Names :
      (id : Text) (session : Session) (sent : List (Sent json))
      → All (SaysWhoAll json idle_timeout_secs (start id session)) sent
      → All (λ (r : Sent json). All (Names session) r.to_agent) sent
  SaysWhoAll-Names id session sent says =
      All-map (SaysWhoAll json idle_timeout_secs (start id session))
        (λ (r : Sent json). All (Names session) r.to_agent)
        (λ r h.
          All-map (λ (e : ℕ × Message json.Value json.Fields). SaysWho json (start id session) e.1)
            (Names session) (SaysWho-Names id session) r.to_agent h)
        sent says

  -- From the start of its loop for an id and its session, whatever a WebSocket receives, each open
  -- request that it sends to an agent carries that session's user and role and no host, and the
  -- loop, while it lasts, has that id, user and role and keeps to 512 channels, ids of 119 bytes
  -- and 50 agents.
  pub opens_say_who :
      (id : Text) (session : Session) (sessions : SessionStore) (agents : AgentRegistry)
      (es : List (Event json.Value json.Fields))
      → let s : State = record {
        phase = looping (start id session);
        sessions = sessions;
        agents = agents;
      } in
        All
          (λ (r : Sent json). All (Names session) r.to_agent)
          ((run json idle_timeout_secs s es).0)
        × Serves id session ((run json idle_timeout_secs s es).1.phase)
  opens_say_who id session sessions agents es =
      let s : State = record {
        phase = looping (start id session);
        sessions = sessions;
        agents = agents;
      } in
      let (says, serving) =
        run-IsServing json idle_timeout_secs (start id session) s es
          (same_session (start id session), start-IsWithin id session) in
      (
        SaysWhoAll-Names id session ((run json idle_timeout_secs s es).0) says,
        IsServing-Serves id session ((run json idle_timeout_secs s es).1.phase) serving,
      )

  admit-looping :
      (s : State) (now : Instant) (id : Text) (o : Option Session × SessionStore) (c : Conn)
      → (admit json idle_timeout_secs s now id o).1.phase ≡ looping c
      → (session : Session) × (o.0 ≡ some session) × (c ≡ start id session)
  unfolding admit
  admit-looping s now id (none, sessions) c e = absurd (ground arith)
  admit-looping s now id (some session, sessions) c e = (session, refl, ground arith)

  auth-looping :
      (s : State) (e : Event json.Value json.Fields) (c : Conn)
      → s.phase ≡ authenticating
      → (at_auth json idle_timeout_secs s e).1.phase ≡ looping c
      → (now : Instant) × (round : Round) × (id : Text) × (session : Session) × (e
          ≡ text now round (some (auth (token id))))
        × ((get_valid s.sessions now now now id).0 ≡ some session)
        × (c ≡ start id session)
  unfolding at_auth authenticate
  auth-looping s (text now round (some (auth (token id)))) c a l =
      let (session, got, same) = admit-looping s now id _ c l in
      (now, round, id, session, refl, got, same)
  auth-looping s (text now round (some (auth (basic user password)))) c a l = absurd (ground arith)
  auth-looping s (text now round _) c a l = absurd (ground arith)
  auth-looping s _ c a l = absurd (ground arith)

  -- A WebSocket that waits for its authentication and enters its loop has been given, in that
  -- event, the id of a session that get_valid then accepts, and starts for that id with that
  -- session's user and role, with no channels and no agents.
  pub looping_valid :
      (sessions : SessionStore) (agents : AgentRegistry) (e : Event json.Value json.Fields)
      (c : Conn)
      → (step json idle_timeout_secs
          (record { phase = authenticating; sessions = sessions; agents = agents })
          e).1.phase
        ≡ looping c
      → (now : Instant) × (round : Round) × (id : Text) × (session : Session) × (e
          ≡ text now round (some (auth (token id))))
        × ((get_valid sessions now now now id).0 ≡ some session)
        × (c.session_id ≡ id)
        × (c.user ≡ session.user)
        × (c.role ≡ session.role)
        × (c.s_prefix ≡ session_prefix id)
        × (c.channel_routes ≡ [])
        × (c.remote_senders ≡ [])
  unfolding step at_phase start
  looping_valid sessions agents e c l =
      let (now, round, id, session, event, got, same) = auth-looping _ e c refl l in
      (
        now,
        round,
        id,
        session,
        event,
        got,
        ap (λ c. c.session_id) same,
        ap (λ c. c.user) same,
        ap (λ c. c.role) same,
        ap (λ c. c.s_prefix) same,
        ap (λ c. c.channel_routes) same,
        ap (λ c. c.remote_senders) same,
      )
