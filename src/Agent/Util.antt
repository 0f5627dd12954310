-- ===== src/Agent/Util.antt =====
-- agent/src/util.rs: the limit on a command's output, quoting for a shell, and the test of the role.
-- Bytes and code points are numbers; running a command is not modelled.
pub mod Shell
pub mod Output
pub mod Roles
mod Tests
use tenodera.Prelude.{
  ℕ, ◌+◌, ◌-◌, Bool, true, false, Option, none, some, List, [], ◌∷◌, ◌++◌, String, string_eq, Text,
  nat_eq, ◌==◌, ltb, if◌then◌else◌, length, take, is_empty, ◌>>=◌,
}
use tenodera.Protocol.Json.{Json}

-- `s.replace('\'', "'\\''")`
unfoldable pub replace_quotes : Text → Text
replace_quotes [] = []
replace_quotes (c ∷ s) =
    let rest = replace_quotes s in
    if c == b'\'' then b'\'' ∷ b'\\' ∷ b'\'' ∷ b'\'' ∷ rest else c ∷ rest

unfoldable pub shell_escape : Text → Text
unfolding replace_quotes
shell_escape s = b'\'' ∷ (replace_quotes s ++ b'\'' ∷ [])

-- The loop of `read_capped`, over the chunks that the reads yield; the list ends where a read does
-- not yield one. A read of no bytes is the end as well.
unfoldable pub read_more : ℕ → Text → List Text → Text × Bool
read_more cap buf [] = (buf, false)
read_more cap buf (chunk ∷ chunks) =
    let rest = read_more cap (buf ++ chunk) chunks in
    if is_empty chunk
    then (buf, false)
    else if ltb cap (length buf + length chunk)
    then (buf ++ take (cap - length buf) chunk, true)
    else rest

unfoldable pub read_capped : ℕ → List Text → Text × Bool
unfolding read_more
read_capped cap chunks = read_more cap [] chunks

module _ (json : Json) where
  abbrev pub role_in : json.Value → Option String
  role_in value = json.as_object value >>= λ m. json.get "_role" m >>= λ v. json.as_str v

  abbrev pub denied : json.Value
  denied = json.object (json.insert "error" (json.string "permission denied") json.empty)

  abbrev pub unless_admin : Option String → Option json.Value
  unless_admin none = some denied
  unless_admin (some role) = if role == "admin" then none else some denied

  unfoldable pub require_admin : json.Value → Option json.Value
  require_admin value = unless_admin (role_in value)
