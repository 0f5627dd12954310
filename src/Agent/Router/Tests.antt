-- ===== src/Agent/Router/Tests.antt =====
-- A channel that stays open for its user, and the theorems about it.
use tenodera.Prelude.{
  ◌≡◌, refl, false, none, some, [], ◌∷◌, String, string_eq, text_eq, text_beq, codes, ne_of_test,
}
use tenodera.Dict.{get}
use tenodera.Protocol.JsonTree.{tree_json, Branches, leaf, node, entry, nil}
use tenodera.Protocol.Message.{payload, close, ping, ready}
use tenodera.Agent.Router.{Options, ChannelHandler, Router, handler_of, dispatch, handle, enrich}
use tenodera.Agent.Router.Context.{data_says_who}

abbrev echo : ChannelHandler tree_json
echo = record {
  payload_type = "echo";
  is_streaming = false;
  open_in = λ c o. ready c ∷ [];
  data_in = λ c v. payload c v ∷ [];
}

abbrev unknown : String → String
unknown s = s

abbrev options : Options tree_json
options = record {
  payload = "echo";
  superuser = none;
  extra = entry "_user" (leaf "bob") (entry "_role" (leaf "readonly") nil);
}

abbrev router : Router tree_json
router = record {
  handlers = ("echo", echo) ∷ [];
  active_channels = [];
  channel_handlers = (codes "c1", echo) ∷ [];
  channel_options = (codes "c1", options) ∷ [];
}

data_says_who_example :
    (m : Branches) × (enrich tree_json (some options) (node (entry "_role" (leaf "admin") nil))
      ≡ node m)
    × (tree_json.get "_user" m ≡ some (leaf "bob"))
    × (tree_json.get "_role" m ≡ some (leaf "readonly"))
unfolding get handle dispatch handler_of enrich text_beq
data_says_who_example =
    data_says_who tree_json unknown router (codes "c1") options (leaf "bob") (leaf "readonly")
      (ping ∷ close (codes "c2") none ∷ []) (entry "_role" (leaf "admin") nil) echo
      (enrich tree_json (some options) (node (entry "_role" (leaf "admin") nil))) refl refl refl
      (tt, (ne_of_test (codes "c2") (codes "c1") refl, tt)) refl
