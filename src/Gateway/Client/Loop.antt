-- ===== src/Gateway/Client/Loop.antt =====
-- `handle_socket` of panel/crates/gateway/src/ws.rs: the authentication of a WebSocket, and the
-- loop that selects among the client's frames, the channels that agents have closed and the
-- periodic check of the session.
pub mod Serving
pub mod Runs
use tenodera.Prelude.{
  ℕ, Bool, true, false, Option, none, some, List, [], ◌∷◌, ◌++◌, String, Text, text_eq, ltb,
  is_none, if◌then◌else◌,
}
use tenodera.Std.Time.{Instant, as_secs, duration_since}
use tenodera.Protocol.Channel.{ChannelId}
use tenodera.Protocol.Json.{Json}
use tenodera.Protocol.Message.{
  Message, AuthResult, auth, auth_result, AuthCredentials, basic, token,
}
use tenodera.Gateway.Session.{Session, SessionStore, get_valid, get_session, touch, remove_session}
use tenodera.Gateway.Registry.{session_prefix}
use tenodera.Gateway.Registry.Agents.{AgentRegistry}
use tenodera.Gateway.Client.{Conn, Round, Msg, Sent, handle, drop_route, nothing}

pub data Phase : Type 0 where
  authenticating : Phase
  looping : Conn → Phase
  ended : Phase

pub record State : Type 0 where
  pub phase : Phase
  pub sessions : SessionStore
  pub agents : AgentRegistry

-- The loop's state for an accepted session.
unfoldable pub start : Text → Session → Conn
unfolding session_prefix
start session_id session = record {
  session_id = session_id;
  user = session.user;
  role = session.role;
  s_prefix = session_prefix session_id;
  channel_routes = [];
  remote_senders = [];
}

-- What an await yields, with one read of the clock.
pub data Event (Value Fields : Type 0) : Type 0 where
  text : Instant → Round → Option (Message Value Fields) → Event Value Fields
  other_frame : Event Value Fields
  stream_ended : Event Value Fields
  auth_timeout : Event Value Fields
  agent_closed : ChannelId → Event Value Fields
  session_check : Event Value Fields

module _ (json : Json) (idle_timeout_secs : ℕ) where
  abbrev pub reply : Bool → Option String → Option String → Sent json
  reply success problem user = record {
    to_client = auth_result (record { success = success; problem = problem; user = user }) ∷ [];
    to_agent = [];
  }

  abbrev pub turned_away : State → SessionStore → String → Sent json × State
  turned_away s sessions problem =
      (reply false (some problem) none, record s { phase = ended; sessions = sessions })

  -- The match on `get_valid`, and the check that follows it.
  unfoldable pub admit : State → Instant → Text → Option Session × SessionStore → Sent json × State
  unfolding remove_session touch start
  admit s now id (none, sessions) = turned_away s sessions "invalid-session"
  admit s now id (some session, sessions) =
      if ltb idle_timeout_secs (as_secs (duration_since now session.last_activity))
      then turned_away s (remove_session sessions id) "session-expired"
      else (
        reply true none (some session.user),
        record s { phase = looping (start id session); sessions = touch sessions now id },
      )

  unfoldable pub authenticate : State → Instant → AuthCredentials → Sent json × State
  unfolding admit get_valid
  authenticate s now (token id) = admit s now id (get_valid s.sessions now now now id)
  authenticate s now (basic user password) = turned_away s s.sessions "token-scheme-required"

  unfoldable pub at_auth : State → Event json.Value json.Fields → Sent json × State
  unfolding authenticate
  at_auth s (text now round (some (auth credentials))) = authenticate s now credentials
  at_auth s (text now round _) = turned_away s s.sessions "auth-required"
  at_auth s auth_timeout = turned_away s s.sessions "auth-timeout"
  at_auth s stream_ended = (nothing json, record s { phase = ended })
  at_auth s _ = (nothing json, s)

  -- What `handle` yields, in the loop.
  abbrev pub carry_on : SessionStore → Sent json × Conn × AgentRegistry → Sent json × State
  carry_on sessions (sent, conn, agents) =
      (sent, record { phase = looping conn; sessions = sessions; agents = agents })

  unfoldable pub at_loop : State → Conn → Event json.Value json.Fields → Sent json × State
  unfolding touch get_session handle drop_route
  at_loop s conn (text now round (some msg)) =
      carry_on (touch s.sessions now conn.session_id) (handle json conn s.agents round msg)
  at_loop s conn (text now round none) =
      (nothing json, record s { sessions = touch s.sessions now conn.session_id })
  at_loop s conn other_frame = (nothing json, s)
  at_loop s conn stream_ended = (nothing json, record s { phase = ended })
  at_loop s conn auth_timeout = (nothing json, s)
  at_loop s conn (agent_closed channel) =
      (nothing json, record s { phase = looping (drop_route channel conn) })
  at_loop s conn session_check =
      if is_none (get_session s.sessions conn.session_id)
      then (nothing json, record s { phase = ended })
      else (nothing json, s)

  unfoldable pub at_phase : Phase → State → Event json.Value json.Fields → Sent json × State
  unfolding at_auth at_loop
  at_phase authenticating s event = at_auth s event
  at_phase (looping conn) s event = at_loop s conn event
  at_phase ended s event = (nothing json, s)

  unfoldable pub step : State → Event json.Value json.Fields → Sent json × State
  unfolding at_phase
  step s event = at_phase s.phase s event
