-- ===== src/Gateway/Client/Limits.antt =====
-- The bounds on a client's channels and on the agents that it talks to.
use tenodera.Prelude.{
  ◌≡◌, ◌+◌, ◌≤◌, refl, ℕ, false, Option, none, some, [], ◌∷◌, String, string_eq, text_eq, ◌==◌,
  arith, All, leb, ltb, length, both_branches, each_branch, ap, ◌<◌, ◌-◌, All-retain,
}
use tenodera.Dict.{Dict, get, contains_key, remove, insert}
use tenodera.Dict.Laws.{length-insert, length-remove-le}
use tenodera.Protocol.Channel.{ChannelId, ChannelOpenOptions, max_channel_id_len}
use tenodera.Protocol.Json.{Json}
use tenodera.Protocol.Message.{Message, open_channel, payload, control, close, ping}
use tenodera.Gateway.Registry.{session_prefix_len}
use tenodera.Gateway.Registry.Agents.{AgentRegistry, connect_session}
use tenodera.Gateway.Client.{
  Conn, Round, Target, sender, problem, target_sender, reconnect, connected, valid_cached,
  forward_open, handle_open, host_of, handle, handle_other, relay, drop_route, drop_sender,
  is_close, Sent, max_remote_agents, max_channels_per_session,
}

-- At most 512 channels, none with an id of more than 119 bytes, and at most 50 agents.
pub record IsWithin (s : Conn) : Type 0 where
  pub channels : length s.channel_routes ≤ 512
  pub ids : All (λ (e : ChannelId × ℕ). length e.0 ≤ 119) s.channel_routes
  pub agents : length s.remote_senders ≤ 50

pub drop_route-IsWithin :
    (channel : ChannelId) (s : Conn) → IsWithin s → IsWithin (drop_route channel s)
unfolding drop_route remove
drop_route-IsWithin channel s h =
    let fewer = length-remove-le channel s.channel_routes in
    record {
      channels = omega (arith, fewer, h.channels);
      ids = All-retain (λ (e : ChannelId × ℕ). length e.0 ≤ 119) _ s.channel_routes h.ids;
      agents = h.agents;
    }

drop_sender-IsWithin : (o : Option String) (s : Conn) → IsWithin s → IsWithin (drop_sender o s)
unfolding drop_sender
drop_sender-IsWithin none s h = h
drop_sender-IsWithin (some hid) s h =
    let fewer = length-remove-le hid s.remote_senders in
    record { channels = h.channels; ids = h.ids; agents = omega (arith, fewer, h.agents) }

-- Targets leave the channels alone.
pub record IsTargeted (s s' : Conn) : Type 0 where
  pub channels : s'.channel_routes ≡ s.channel_routes
  pub agents : length s'.remote_senders ≤ 50

length-insert-le :
    (hid : String) (id : ℕ) (m : Dict String ℕ) → length (insert hid id m) ≤ length m + 1
length-insert-le hid id m = ground (arith, length-insert hid id m)

connected-IsTargeted :
    (s : Conn) (hid : String) (r : Option ℕ × AgentRegistry)
    → leb max_remote_agents (length s.remote_senders) ≡ false
    → IsTargeted s ((connected s hid r).1)
unfolding connected
connected-IsTargeted s hid (some id, agents) h = record {
  channels = refl;
  agents = ground (arith, length-insert-le hid id s.remote_senders);
}
connected-IsTargeted s hid (none, agents) h = record { channels = refl; agents = ground arith }

reconnect-IsTargeted :
    (s : Conn) (agents : AgentRegistry) (round : Round) (hid : String)
    → length s.remote_senders ≤ 50
    → IsTargeted s ((reconnect s agents round hid).1)
unfolding reconnect
reconnect-IsTargeted s agents round hid h =
    let fresh : Conn = record s { remote_senders = remove hid s.remote_senders } in
    let fewer = length-remove-le hid s.remote_senders in
    let got = connect_session agents hid s.s_prefix round.sub_tx in
    each_branch (λ (t : Target × Conn × AgentRegistry). IsTargeted s (t.1))
      (leb max_remote_agents (length fresh.remote_senders))
      {x = (problem "remote-agent-limit-exceeded", fresh, agents)} {y = connected fresh hid got}
      (λ full. record { channels = refl; agents = omega (arith, fewer, h) })
      (λ room.
        let next = connected-IsTargeted fresh hid got room in
        record { channels = next.channels; agents = next.agents })

target-IsTargeted :
    (s : Conn) (agents : AgentRegistry) (round : Round) (o : Option String)
    → length s.remote_senders ≤ 50
    → IsTargeted s ((target_sender s agents round o).1)
unfolding target_sender
target-IsTargeted s agents round none h = record { channels = refl; agents = h }
target-IsTargeted s agents round (some hid) h =
    elim (valid_cached s agents hid)
      as (λ o. IsTargeted s (
        (elim o as (λ _. Target × Conn × AgentRegistry) [
          | none ↦ reconnect s agents round hid
          | some id ↦ (sender id, s, agents)
        ]).1)) [
          | none ↦ reconnect-IsTargeted s agents round hid h
          | some id ↦ record { channels = refl; agents = h }
        ]

-- A new channel with a short id, where there is room.
insert-ids :
    (channel : ChannelId) (id : ℕ) (m : Dict ChannelId ℕ)
    → length channel ≤ 119
    → All (λ (e : ChannelId × ℕ). length e.0 ≤ 119) m
    → All (λ (e : ChannelId × ℕ). length e.0 ≤ 119) (insert channel id m)
unfolding insert
insert-ids channel id [] short h = (short, tt)
insert-ids channel id ((j, v) ∷ m) short (hj, h) =
    both_branches (All (λ (e : ChannelId × ℕ). length e.0 ≤ 119)) (j == channel) (hj, h)
      (hj, insert-ids channel id m short h)

routed-IsWithin :
    (channel : ChannelId) (id : ℕ) (s s' : Conn)
    → IsWithin s
    → IsTargeted s s'
    → length s.channel_routes < 512
    → length channel ≤ 119
    → IsWithin (record s' { channel_routes = insert channel id s'.channel_routes })
routed-IsWithin channel id s s' h t room short =
    let before : IsWithin (record s' { channel_routes = s.channel_routes }) = record {
      channels = h.channels;
      ids = h.ids;
      agents = t.agents;
    } in
    let more : length (insert channel id s'.channel_routes) ≤ length s'.channel_routes + 1 =
      ground (arith, length-insert channel id s'.channel_routes) in
    record {
      channels = omega (arith, more, ap length t.channels, room);
      ids = insert-ids channel id s'.channel_routes short (rw (t.channels) h.ids);
      agents = t.agents;
    }

module _ (json : Json) where
  forward-IsWithin :
      (s : Conn) (round : Round) (channel : ChannelId) (options : ChannelOpenOptions json.Fields)
      (t : Target × Conn × AgentRegistry)
      → IsWithin s
      → IsTargeted s (t.1)
      → length s.channel_routes < 512
      → length channel ≤ 119
      → IsWithin ((forward_open json round channel options t).1)
  unfolding forward_open
  forward-IsWithin s round channel options (problem why, s', agents) h g room short = record {
    channels = rw (g.channels) h.channels;
    ids = rw (g.channels) h.ids;
    agents = g.agents;
  }
  forward-IsWithin s round channel options (sender id, s', agents) h g room short =
      let routed : Conn = record s' { channel_routes = insert channel id s'.channel_routes } in
      let ok : IsWithin routed = routed-IsWithin channel id s s' h g room short in
      both_branches (λ (r : Sent json × Conn × AgentRegistry). IsWithin (r.1)) round.taken ok
        (drop_sender-IsWithin (host_of json options) (drop_route channel routed)
          (drop_route-IsWithin channel routed ok))

  handle_open-IsWithin :
      (s : Conn) (agents : AgentRegistry) (round : Round) (channel : ChannelId)
      (options : ChannelOpenOptions json.Fields)
      → IsWithin s
      → IsWithin ((handle_open json s agents round channel options).1)
  unfolding handle_open
  handle_open-IsWithin s agents round channel options h =
      let P = λ (r : Sent json × Conn × AgentRegistry). IsWithin (r.1) in
      let targeted = target-IsTargeted s agents round (host_of json options) h.agents in
      each_branch P (leb max_channels_per_session (length s.channel_routes)) (λ full. h)
        (λ room.
          each_branch P (ltb (max_channel_id_len - (session_prefix_len + 1)) (length channel))
            (λ long. h)
            (λ short.
              each_branch P (contains_key channel s.channel_routes) (λ used. h)
                (λ fresh.
                  forward-IsWithin s round channel options
                    (target_sender s agents round (host_of json options)) h targeted
                    (ground (arith, room)) (ground (arith, short)))))

  other-IsWithin :
      (s : Conn) (round : Round) (parsed : Message json.Value json.Fields) (o : Option ChannelId)
      → IsWithin s
      → IsWithin ((handle_other json s round parsed o).1)
  unfolding handle_other relay
  other-IsWithin s round parsed none h = h
  other-IsWithin s round parsed (some ch) h =
      let gone = drop_route-IsWithin ch s h in
      let after = both_branches IsWithin (is_close json parsed) gone h in
      elim (get ch s.channel_routes) as (λ o. IsWithin ((relay json s round parsed ch o).1)) [
        | none ↦ after
        | some id ↦ both_branches (λ (r : Sent json × Conn). IsWithin (r.1)) round.taken after gone
      ]

  -- Handling a message keeps a session within 512 channels, channel ids of at most 119 bytes and
  -- 50 agents.
  pub handle-IsWithin :
      (s : Conn) (agents : AgentRegistry) (round : Round) (msg : Message json.Value json.Fields)
      → IsWithin s
      → IsWithin ((handle json s agents round msg).1)
  unfolding handle
  handle-IsWithin s agents round ping h = h
  handle-IsWithin s agents round (open_channel channel options) h =
      handle_open-IsWithin s agents round channel options h
  handle-IsWithin s agents round (payload c v) h = other-IsWithin s round (payload c v) (some c) h
  handle-IsWithin s agents round (close c p) h = other-IsWithin s round (close c p) (some c) h
  handle-IsWithin s agents round (control c k x) h =
      other-IsWithin s round (control c k x) (some c) h
  handle-IsWithin s agents round _ h = h
