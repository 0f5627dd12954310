-- ===== src/Agent/Ssh/Started/Requests.antt =====
-- What the requests to `ssh.manage` start.
use tenodera.Prelude.{
  ◌∷◌, if◌then◌else◌, ◌∷◌, ◌≡◌, some, [], String, string_eq, Text, nat_eq, text_eq, is_some, codes,
}
use tenodera.Protocol.Json.{Json}
use tenodera.Agent.Util.{role_in, require_admin}
use tenodera.Agent.Cron.{text_or, text_at}
use tenodera.Agent.Commands.{M, pure, as_root, Call}
use tenodera.Agent.Ssh.Manage.{Answer, denied, SshHost}
use tenodera.Agent.Ssh.Handler.{change}
use tenodera.Agent.Ssh.Started.{Started}

module _ (w : SshHost) where
  module _ (json : Json) (options : json.Fields) where
    abbrev pub said : String → Text
    said key = text_or [] (text_at json w.host key (json.object options))

    abbrev pub Ours : Call → Type 0
    Ours = Started w (said "_user") (said "password") (said "user") (said "content")

    pub data Permitted : Call → Type 0 where
      asked_users : Permitted (as_root (codes "getent" ∷ codes "passwd" ∷ []))
      changed :
          (call : Call)
          → role_in json (json.object options) ≡ some "admin"
          → Ours call
          → Permitted call

    abbrev guarded : Text → M Answer
    guarded action =
        let changes = change w json (json.object options) action in
        if is_some (require_admin json (json.object options)) then pure denied else changes
