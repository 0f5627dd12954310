-- ===== src/Gateway/Client/Identity.antt =====
-- Under whose name a client's requests reach an agent.
use tenodera.Prelude.{
  ◌≡◌, ◌∙◌, refl, ap, ℕ, Option, none, some, String, string_eq, text_eq, All, leb, length,
  both_branches,
}
use tenodera.Dict.{get, remove, insert}
use tenodera.Protocol.Channel.{ChannelId, ChannelOpenOptions}
use tenodera.Protocol.Json.{Json}
use tenodera.Protocol.Message.{Message, open_channel, payload, control, close, ping}
use tenodera.Gateway.Registry.Agents.{AgentRegistry, connect_session}
use tenodera.Gateway.Client.{
  Conn, Round, Target, sender, problem, target_sender, reconnect, connected, valid_cached, as_str,
  clean, forward_open, handle_open, host_of, handle, handle_other, relay, drop_route, drop_sender,
  is_close, refuse, max_remote_agents, Sent,
}

-- The identity that the loop was started with.
pub record SameSession (s s' : Conn) : Type 0 where
  pub session_id : s'.session_id ≡ s.session_id
  pub user : s'.user ≡ s.user
  pub role : s'.role ≡ s.role
  pub s_prefix : s'.s_prefix ≡ s.s_prefix

pub same_session : (s : Conn) → SameSession s s
same_session s = record { session_id = refl; user = refl; role = refl; s_prefix = refl }

-- The same routes and senders do not matter to it.
pub rerouted : (s s' : Conn) → SameSession s s' → (r : Conn) → SameSession s' r → SameSession s r
rerouted s s' h r g = record {
  session_id = g.session_id ∙ h.session_id;
  user = g.user ∙ h.user;
  role = g.role ∙ h.role;
  s_prefix = g.s_prefix ∙ h.s_prefix;
}

pub drop_route-SameSession : (channel : ChannelId) (s : Conn) → SameSession s (drop_route channel s)
unfolding drop_route
drop_route-SameSession channel s = record {
  session_id = refl;
  user = refl;
  role = refl;
  s_prefix = refl;
}

drop_sender-SameSession : (o : Option String) (s : Conn) → SameSession s (drop_sender o s)
unfolding drop_sender
drop_sender-SameSession none s = same_session s
drop_sender-SameSession (some hid) s = record {
  session_id = refl;
  user = refl;
  role = refl;
  s_prefix = refl;
}

connected-SameSession :
    (s : Conn) (hid : String) (r : Option ℕ × AgentRegistry) → SameSession s ((connected s hid r).1)
unfolding connected
connected-SameSession s hid (some id, agents) = record {
  session_id = refl;
  user = refl;
  role = refl;
  s_prefix = refl;
}
connected-SameSession s hid (none, agents) = same_session s

reconnect-SameSession :
    (s : Conn) (agents : AgentRegistry) (round : Round) (hid : String)
    → SameSession s ((reconnect s agents round hid).1)
unfolding reconnect
reconnect-SameSession s agents round hid =
    let fresh : Conn = record s { remote_senders = remove hid s.remote_senders } in
    let first : SameSession s fresh = record {
      session_id = refl;
      user = refl;
      role = refl;
      s_prefix = refl;
    } in
    let r = connected fresh hid (connect_session agents hid s.s_prefix round.sub_tx) in
    let got =
      connected-SameSession fresh hid (connect_session agents hid s.s_prefix round.sub_tx) in
    both_branches (λ (t : Target × Conn × AgentRegistry). SameSession s (t.1))
      (leb max_remote_agents (length fresh.remote_senders))
      {x = (problem "remote-agent-limit-exceeded", fresh, agents)} {y = r} first
      (rerouted s fresh first (r.1) got)

target-SameSession :
    (s : Conn) (agents : AgentRegistry) (round : Round) (o : Option String)
    → SameSession s ((target_sender s agents round o).1)
unfolding target_sender
target-SameSession s agents round none = same_session s
target-SameSession s agents round (some hid) =
    elim (valid_cached s agents hid)
      as (λ o. SameSession s (
        (elim o as (λ _. Target × Conn × AgentRegistry) [
          | none ↦ reconnect s agents round hid
          | some id ↦ (sender id, s, agents)
        ]).1)) [ none ↦ reconnect-SameSession s agents round hid | some id ↦ same_session s ]

module _ (json : Json) where
  -- An open request says who sends it, by the session's own word, and names no host.
  abbrev pub SaysWho : Conn → Message json.Value json.Fields → Type 0
  SaysWho s (open_channel channel options) =
      (json.get "_user" options.extra ≡ some (json.string s.user))
      × (json.get "_role" options.extra ≡ some (json.string (as_str s.role)))
      × (json.get "host" options.extra ≡ none)
  SaysWho s _ = Unit

  clean-SaysWho :
      (s s' : Conn) (channel : ChannelId) (options : ChannelOpenOptions json.Fields)
      → SameSession s s'
      → SaysWho s (open_channel channel (clean json s' options))
  unfolding clean
  clean-SaysWho s s' channel options h =
      let user = json.string s'.user in
      let role = json.string (as_str s'.role) in
      let bare = json.remove "host" options.extra in
      let named = json.insert "_user" user bare in
      (
        json.get-insert "_role" "_user" role named
            ∙ json.get-insert "_user" "_user" user bare
            ∙ ap (λ u. some (json.string u)) h.user,
        json.get-insert "_role" "_role" role named ∙ ap (λ r. some (json.string (as_str r))) h.role,
        json.get-insert "_role" "host" role named
            ∙ json.get-insert "_user" "host" user bare
            ∙ json.get-remove "host" "host" options.extra,
      )

  -- What a step sends to agents, and the loop's state after it.
  pub record IsFaithful (s : Conn) (r : Sent json × Conn × AgentRegistry) : Type 0 where
    pub says : All (λ (e : ℕ × Message json.Value json.Fields). SaysWho s e.1) (r.0.to_agent)
    pub same : SameSession s (r.1)

  forward-IsFaithful :
      (s : Conn) (round : Round) (channel : ChannelId) (options : ChannelOpenOptions json.Fields)
      (t : Target × Conn × AgentRegistry)
      → SameSession s (t.1)
      → IsFaithful s (forward_open json round channel options t)
  unfolding forward_open drop_route
  forward-IsFaithful s round channel options (problem why, s', agents) h = record {
    says = tt;
    same = h;
  }
  forward-IsFaithful s round channel options (sender id, s', agents) h =
      let routed : Conn = record s' { channel_routes = insert channel id s'.channel_routes } in
      let kept : SameSession s routed =
        rerouted s s' h routed
          (record { session_id = refl; user = refl; role = refl; s_prefix = refl }) in
      let gone : Conn = drop_route channel routed in
      let still : SameSession s gone =
        rerouted s s' h gone
          (record { session_id = refl; user = refl; role = refl; s_prefix = refl }) in
      let dropped = drop_sender-SameSession (host_of json options) gone in
      both_branches (IsFaithful s) round.taken
        (record { says = (clean-SaysWho s s' channel options h, tt); same = kept })
        (record { says = tt; same = rerouted s gone still _ dropped })

  refused_all :
      (s : Conn) (agents : AgentRegistry) (channel : ChannelId) (why : String)
      → IsFaithful s (refuse json channel why, s, agents)
  refused_all s agents channel why = record { says = tt; same = same_session s }

  handle_open-IsFaithful :
      (s : Conn) (agents : AgentRegistry) (round : Round) (channel : ChannelId)
      (options : ChannelOpenOptions json.Fields)
      → IsFaithful s (handle_open json s agents round channel options)
  unfolding handle_open
  handle_open-IsFaithful s agents round channel options =
      let refused = refused_all s agents channel in
      let target = target-SameSession s agents round (host_of json options) in
      both_branches (IsFaithful s) _ (refused "channel-limit-exceeded") (
        both_branches (IsFaithful s) _ (refused "channel-id-too-long") (
          both_branches (IsFaithful s) _ (refused "duplicate-channel-id")
            (forward-IsFaithful s round channel options _ target)))

  relay-IsFaithful :
      (s : Conn) (agents : AgentRegistry) (round : Round) (parsed : Message json.Value json.Fields)
      (o : Option ChannelId)
      → SaysWho s parsed
      → let r = handle_other json s round parsed o in IsFaithful s (r.0, r.1, agents)
  unfolding handle_other relay drop_route
  relay-IsFaithful s agents round parsed none h = record { says = tt; same = same_session s }
  relay-IsFaithful s agents round parsed (some ch) h =
      let gone : SameSession s (drop_route ch s) = record {
        session_id = refl;
        user = refl;
        role = refl;
        s_prefix = refl;
      } in
      let after = both_branches (SameSession s) (is_close json parsed) gone (same_session s) in
      elim (get ch s.channel_routes)
        as (λ o.
          IsFaithful s
            ((relay json s round parsed ch o).0, (relay json s round parsed ch o).1, agents)) [
              | none ↦ record { says = tt; same = after }
              | some id ↦
                  both_branches (λ (r : Sent json × Conn). IsFaithful s (r.0, r.1, agents))
                    round.taken (record { says = (h, tt); same = after })
                    (record { says = tt; same = gone })
            ]

  pub handle-IsFaithful :
      (s : Conn) (agents : AgentRegistry) (round : Round) (msg : Message json.Value json.Fields)
      → IsFaithful s (handle json s agents round msg)
  unfolding handle
  handle-IsFaithful s agents round ping = record { says = tt; same = same_session s }
  handle-IsFaithful s agents round (open_channel channel options) =
      handle_open-IsFaithful s agents round channel options
  handle-IsFaithful s agents round (payload c v) =
      relay-IsFaithful s agents round (payload c v) (some c) tt
  handle-IsFaithful s agents round (close c p) =
      relay-IsFaithful s agents round (close c p) (some c) tt
  handle-IsFaithful s agents round (control c k x) =
      relay-IsFaithful s agents round (control c k x) (some c) tt
  handle-IsFaithful s agents round _ = record { says = tt; same = same_session s }
