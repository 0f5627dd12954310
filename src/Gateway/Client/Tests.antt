-- ===== src/Gateway/Client/Tests.antt =====
-- A client that opens a channel under a false name, and the theorems about its socket.
use tenodera.Prelude.{
  ◌≡◌, refl, true, none, some, List, [], ◌∷◌, string_eq, Text, text_eq, text_beq, codes, All,
}
use tenodera.Std.Time.{Instant}
use tenodera.Dict.{get}
use tenodera.Protocol.JsonTree.{tree_json, Tree, Branches, leaf, entry, nil}
use tenodera.Protocol.Message.{Message, open_channel, auth, token}
use tenodera.Gateway.Session.{Session, SessionStore, readonly, get_valid, idle_ok, age_ok}
use tenodera.Gateway.Registry.{session_prefix}
use tenodera.Gateway.Registry.Agents.{AgentRegistry}
use tenodera.Gateway.Client.{Conn, Round, Sent}
use tenodera.Gateway.Client.Loop.{
  State, looping, Event, text, start, step, at_phase, at_auth, authenticate, admit,
}
use tenodera.Gateway.Client.Loop.Serving.{run}
use tenodera.Gateway.Client.Loop.Runs.{Names, Serves, opens_say_who, looping_valid}

abbrev bob : Session
bob = record { id = codes "6f1c"; user = "bob"; role = readonly; created_at = 0; last_activity = 0 }

abbrev store : SessionStore
store = record {
  inner = (codes "6f1c", bob) ∷ [];
  idle_timeout_secs = 900;
  max_lifetime_secs = 14400;
}

abbrev agents : AgentRegistry
agents = record {
  inner = ("h1", 0) ∷ [];
  conns = (0, record { to_agent = 1; subscribers = []; remote_ip = none }) ∷ [];
  next = 1;
}

abbrev round : Round
round = record { sub_tx = 4; taken = true }

-- Bob asks for the role of an administrator.
abbrev forged : Message Tree Branches
forged = open_channel (codes "c1") (record {
  payload = "users.manage";
  superuser = none;
  extra = entry "_role" (leaf "admin") (entry "host" (leaf "h1") nil);
})

abbrev conn : Conn
conn = record {
  session_id = codes "6f1c";
  user = "bob";
  role = readonly;
  s_prefix = codes "6f1c";
  channel_routes = [];
  remote_senders = [];
}

abbrev events : List (Event Tree Branches)
events = text 5 round (some forged) ∷ text 6 round none ∷ []

opens_say_who_example :
    let s : State = record {
      phase = looping (start (codes "6f1c") bob);
      sessions = store;
      agents = agents;
    } in
    All
      (λ (r : Sent tree_json). All (Names tree_json 900 bob) r.to_agent)
      ((run tree_json 900 s events).0)
    × Serves tree_json 900 (codes "6f1c") bob ((run tree_json 900 s events).1.phase)
opens_say_who_example = opens_say_who tree_json 900 (codes "6f1c") bob store agents events

abbrev given : Event Tree Branches
given = text 5 round (some (auth (token (codes "6f1c"))))

looping_valid_example :
    (now : Instant) × (moment : Round) × (id : Text) × (session : Session) × (given
      ≡ text now moment (some (auth (token id))))
    × ((get_valid store now now now id).0 ≡ some session)
    × (conn.session_id ≡ id)
    × (conn.user ≡ session.user)
    × (conn.role ≡ session.role)
    × (conn.s_prefix ≡ session_prefix id)
    × (conn.channel_routes ≡ [])
    × (conn.remote_senders ≡ [])
unfolding start session_prefix step at_phase at_auth authenticate admit get_valid idle_ok age_ok get
    text_beq
looping_valid_example = looping_valid tree_json 900 store agents given conn refl
