-- ===== src/Agent/Util/Roles.antt =====
-- No data of a user without the role `admin` passes the test.
use tenodera.Prelude.{
  ◌≡◌, ap, ◌∙◌, false, Option, none, some, is_some, arith, ==_iff, List, String, string_eq, text_eq,
  ◌==◌, All, if◌then◌else◌,
}
use tenodera.Dict.{get}
use tenodera.Protocol.Channel.{ChannelId}
use tenodera.Protocol.Json.{Json}
use tenodera.Agent.Router.{Msg, Options, ChannelHandler, Router, dispatch}
use tenodera.Agent.Router.Context.{run, Leaves, data_says_who}
use tenodera.Agent.Util.{role_in, denied, unless_admin, require_admin}

pub unless_admin-none :
    (json : Json) (o : Option String) → is_some (unless_admin json o) ≡ false → o ≡ some "admin"
unless_admin-none json none h = cc
unless_admin-none json (some role) h = ground (arith, ==_iff role "admin")

module _ (json : Json) (unknown : String → String) where
  role_in-object :
      (m : json.Fields) (role : String)
      → json.get "_role" m ≡ some (json.string role)
      → role_in json (json.object m) ≡ some role
  role_in-object m role e = rw (json.as_object-object m, role_in, e, json.as_str-string role)

  -- While a channel is tracked with options that carry a user and a role, and whatever messages
  -- come that neither open nor close it, require_admin lets an object sent as the channel's data
  -- pass exactly if that role is `admin`, whatever role the object claims.
  pub role_decides :
      (r : Router json) (channel : ChannelId) (options : Options json) (user role : String)
      (ms : List (Msg json)) (obj : json.Fields) (h : ChannelHandler json) (value : json.Value)
      → get channel r.channel_options ≡ some options
      → json.get "_user" options.extra ≡ some (json.string user)
      → json.get "_role" options.extra ≡ some (json.string role)
      → All (Leaves json unknown channel) ms
      → dispatch json (run json unknown r ms) channel (json.object obj) ≡ some (h, value)
      → require_admin json value ≡ (if role == "admin" then none else some (denied json))
  unfolding require_admin
  role_decides r channel options user role ms obj h value o u w left d =
      let (m, same, _, says) =
        data_says_who json unknown r channel options (json.string user) (json.string role) ms obj h
          value o u w left d in
      ap (λ v. unless_admin json (role_in json v)) same
      ∙ ap (unless_admin json) (role_in-object m role says)
