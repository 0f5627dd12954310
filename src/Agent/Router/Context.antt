-- ===== src/Agent/Router/Context.antt =====
-- The user and the role that a handler is given with a client's data, and what a close leaves.
use tenodera.Prelude.{
  ◌≡◌, ◌≢◌, refl, ◌∙◌, ap, Option, none, some, List, [], ◌∷◌, String, string_eq, text_eq, ==_iff,
  ==_refl, arith, any, All, if◌then◌else◌, is_some, ◌||◌, not, sym, Option-cases, inl, inr,
}
use tenodera.Dict.{Dict, get, insert, remove}
use tenodera.Dict.Laws.{get-insert, get-remove}
use tenodera.Protocol.Channel.{ChannelId}
use tenodera.Protocol.Json.{Json}
use tenodera.Protocol.Message.{open_channel, close}
use tenodera.Agent.Router.{
  Msg, Options, ChannelHandler, Router, closes, forget, open_with, enriched_object, enrich,
  handler_of, dispatch, handle,
}

module _ (json : Json) (unknown : String → String) where
  abbrev pub run : Router json → List (Msg json) → Router json
  run r [] = r
  run r (m ∷ ms) = run ((handle json r m unknown).1) ms

  -- A message that neither opens nor closes a channel.
  abbrev pub Leaves : ChannelId → Msg json → Type 0
  Leaves channel (open_channel c _) = c ≢ channel
  Leaves channel (close c _) = c ≢ channel
  Leaves channel _ = Unit

  get-remove_other :
      {V : Type 0} (k j : ChannelId) (m : Dict ChannelId V) → k ≢ j → get j (remove k m) ≡ get j m
  get-remove_other k j m ne = ground (arith, get-remove k j m, ==_iff k j, ne)

  get-insert_other :
      {V : Type 0} (k j : ChannelId) (v : V) (m : Dict ChannelId V)
      → k ≢ j
      → get j (insert k v m) ≡ get j m
  get-insert_other k j v m ne = ground (arith, get-insert k j v m, ==_iff k j, ne)

  open-keeps :
      (r : Router json) (channel c : ChannelId) (options : Options json)
      (o : Option (ChannelHandler json)) (why : String)
      → c ≢ channel
      → get channel ((open_with json r c options o why).1.channel_options)
        ≡ get channel r.channel_options
  unfolding open_with forget
  open-keeps r channel c options none why ne = refl
  open-keeps r channel c options (some h) why ne =
      let added = get-insert_other c channel options r.channel_options ne in
      let gone = get-remove_other c channel (insert c options r.channel_options) ne in
      ground (arith, added, gone)

  step-keeps :
      (r : Router json) (channel : ChannelId) (m : Msg json)
      → Leaves channel m
      → get channel ((handle json r m unknown).1.channel_options) ≡ get channel r.channel_options
  unfolding handle forget
  step-keeps r channel (open_channel c options) ne =
      open-keeps r channel c options (get options.payload r.handlers) (unknown options.payload) ne
  step-keeps r channel (close c p) ne = get-remove_other c channel r.channel_options ne
  step-keeps r channel _ ne = refl

  run-keeps :
      (r : Router json) (channel : ChannelId) (ms : List (Msg json))
      → All (Leaves channel) ms
      → get channel ((run r ms).channel_options) ≡ get channel r.channel_options
  run-keeps r channel [] h = refl
  run-keeps r channel (m ∷ ms) (here, h) =
      run-keeps ((handle json r m unknown).1) channel ms h ∙ step-keeps r channel m here

  enriched_says :
      (options : Options json) (obj : json.Fields) (user role : json.Value)
      → json.get "_user" options.extra ≡ some user
      → json.get "_role" options.extra ≡ some role
      → enrich json (some options) (json.object obj)
        ≡ json.object (json.insert "_role" role (json.insert "_user" user obj))
  unfolding enrich
  enriched_says options obj user role u r = rw (json.as_object-object obj, enriched_object, u, r)

  dispatch-value :
      (r : Router json) (channel : ChannelId) (v value : json.Value) (h : ChannelHandler json)
      → dispatch json r channel v ≡ some (h, value)
      → enrich json (get channel r.channel_options) v ≡ value
  unfolding dispatch
  dispatch-value r channel v value h d = elim (Option-cases (handler_of json r channel)) [
    | inl n ↦ absurd (ground (arith, n))
    | inr (g, n) ↦
        let e : some (g, enrich json (get channel r.channel_options) v) ≡ some (h, value) =
          rw n at d in
        cc
  ]

  -- While a channel is tracked with options that carry a user and a role, and whatever messages
  -- come that neither open nor close it, an object sent as its data reaches the handler as an
  -- object with that user and that role, whatever it held under these names.
  pub data_says_who :
      (r : Router json) (channel : ChannelId) (options : Options json) (user role : json.Value)
      (ms : List (Msg json)) (obj : json.Fields) (h : ChannelHandler json) (value : json.Value)
      → get channel r.channel_options ≡ some options
      → json.get "_user" options.extra ≡ some user
      → json.get "_role" options.extra ≡ some role
      → All (Leaves channel) ms
      → dispatch json (run r ms) channel (json.object obj) ≡ some (h, value)
      → (m : json.Fields) × (value ≡ json.object m)
        × (json.get "_user" m ≡ some user)
        × (json.get "_role" m ≡ some role)
  data_says_who r channel options user role ms obj h value o u w left d =
      let named = json.insert "_user" user obj in
      let kept = run-keeps r channel ms left ∙ o in
      let says = enriched_says options obj user role u w in
      (
        json.insert "_role" role named,
        sym (dispatch-value (run r ms) channel (json.object obj) value h d)
            ∙ ap (λ o. enrich json o (json.object obj)) kept
            ∙ says,
        json.get-insert "_role" "_user" role named ∙ json.get-insert "_user" "_user" user obj,
        json.get-insert "_role" "_role" role named,
      )

  -- Opening a channel with a registered handler keeps its options and the handler if the handler
  -- streams or did not close the channel at once, and otherwise leaves no trace of it; only a
  -- streaming handler is made active.
  pub open_tracks :
      (r : Router json) (channel : ChannelId) (options : Options json) (h : ChannelHandler json)
      → get options.payload r.handlers ≡ some h
      → let after = (handle json r (open_channel channel options) unknown).1 in
        let kept = h.is_streaming || not (any (closes json channel) (h.open_in channel options)) in
        (get channel after.channel_options ≡ (if kept then some options else none))
        × (get channel after.active_channels
            ≡ (if h.is_streaming then some h else get channel r.active_channels))
        × (get channel after.channel_handlers ≡ (
            if h.is_streaming
            then get channel r.channel_handlers
            else if kept
            then some h
            else none))
  unfolding handle open_with forget
  open_tracks r channel options h e = ground (
    arith,
    e,
    ==_refl channel,
    get-insert channel channel h r.active_channels,
    get-insert channel channel h r.channel_handlers,
    get-insert channel channel options r.channel_options,
    get-remove channel channel (insert channel h r.channel_handlers),
    get-remove channel channel (insert channel options r.channel_options),
  )

  -- Closing a channel stops its stream exactly if it has one, and leaves neither a handler nor
  -- options for it.
  pub close_forgets :
      (r : Router json) (channel : ChannelId) (problem : Option String)
      → let (handled, after) = handle json r (close channel problem) unknown in
        (handled.stopped ≡ is_some (get channel r.active_channels))
        × (handler_of json after channel ≡ none)
        × (get channel after.channel_options ≡ none)
  unfolding handle forget handler_of
  close_forgets r channel problem = ground (
    arith,
    ==_refl channel,
    get-remove channel channel r.active_channels,
    get-remove channel channel r.channel_handlers,
    get-remove channel channel r.channel_options,
  )
