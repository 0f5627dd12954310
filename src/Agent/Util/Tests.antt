-- ===== src/Agent/Util/Tests.antt =====
-- Quoting, output and roles, and the theorems about them at inputs that meet their hypotheses.
use tenodera.Prelude.{
  ◌≡◌, refl, true, false, none, some, List, [], ◌∷◌, String, string_eq, Text, text_eq, text_beq,
  nat_eq, codes, take, length, ltb,
}
use tenodera.Dict.{get}
use tenodera.Protocol.JsonTree.{tree_json, Branches, leaf, node, entry, nil}
use tenodera.Protocol.Message.{ping, ready, payload}
use tenodera.Agent.Router.{Options, ChannelHandler, Router, handler_of, dispatch, handle, enrich}
use tenodera.Agent.Util.{
  shell_escape, replace_quotes, read_capped, read_more, require_admin, denied,
}
use tenodera.Agent.Util.Output.{concat, read_capped_exact}
use tenodera.Agent.Util.Roles.{role_decides}

quoted_quote : shell_escape (codes "a'b") ≡ codes "'a'\\''b'"
unfolding shell_escape replace_quotes
quoted_quote = refl

abbrev chunks : List Text
chunks = codes "abc" ∷ codes "de" ∷ codes "f" ∷ []

capped : read_capped 4 chunks ≡ (codes "abcd", true)
unfolding read_capped read_more
capped = refl

read_capped_exact_example :
    read_capped 4 chunks ≡ (take 4 (concat chunks), ltb 4 (length (concat chunks)))
read_capped_exact_example = read_capped_exact 4 chunks refl

abbrev echo : ChannelHandler tree_json
echo = record {
  payload_type = "echo";
  is_streaming = false;
  open_in = λ c o. ready c ∷ [];
  data_in = λ c v. payload c v ∷ [];
}

abbrev unknown : String → String
unknown s = s

abbrev options : Options tree_json
options = record {
  payload = "echo";
  superuser = none;
  extra = entry "_user" (leaf "bob") (entry "_role" (leaf "readonly") nil);
}

abbrev router : Router tree_json
router = record {
  handlers = ("echo", echo) ∷ [];
  active_channels = [];
  channel_handlers = (codes "c1", echo) ∷ [];
  channel_options = (codes "c1", options) ∷ [];
}

-- Data that claims to be an administrator's.
abbrev forged : Branches
forged = entry "_role" (leaf "admin") nil

role_decides_example :
    require_admin tree_json (enrich tree_json (some options) (node forged))
    ≡ some (denied tree_json)
unfolding get handle dispatch handler_of enrich text_beq
role_decides_example =
    role_decides tree_json unknown router (codes "c1") options "bob" "readonly" (ping ∷ []) forged
      echo (enrich tree_json (some options) (node forged)) refl refl refl (tt, tt) refl
