-- ===== src/Agent/Ssh.antt =====
-- The handler `ssh.manage` of agent/src/handlers/ssh_manage.rs: the keys of authorized_keys, the
-- checks, and the commands that write them and sshd_config. The audit log and the listing of users
-- are not modelled.
pub mod Manage
pub mod Sshd
pub mod Handler
pub mod Keys
pub mod Started
mod Tests
use tenodera.Prelude.{
  ℕ, ◌-◌, Bool, not, ◌&&◌, ◌||◌, Option, none, some, List, [], ◌∷◌, ◌++◌, string_eq, Text, nat_eq,
  text_eq, ◌==◌, ltb, any, retain, is_empty, codes, ◌>>=◌, if◌then◌else◌,
}
use tenodera.Std.Str.{trim, ends_with}
use tenodera.Std.Lines.{lines, words, join, starts_with}
use tenodera.Agent.Commands.{utf8_size, utf8_length}

-- `&s[..n]`, of bytes; a cut inside a character panics.
unfoldable pub before_byte : ℕ → Text → Option Text
before_byte n [] = if n == 0 then some [] else none
before_byte n (c ∷ s) =
    let rest = before_byte (n - utf8_size c) s in
    if n == 0 then some [] else if ltb n (utf8_size c) then none else rest >>= λ t. some (c ∷ t)

-- `&s[n..]`
unfoldable pub from_byte : ℕ → Text → Option Text
from_byte n [] = if n == 0 then some [] else none
from_byte n (c ∷ s) =
    let rest = from_byte (n - utf8_size c) s in
    if n == 0 then some (c ∷ s) else if ltb n (utf8_size c) then none else rest

abbrev pub key_prefixes : List Text
key_prefixes =
    codes "ssh-rsa"
    ∷ codes "ssh-ed25519"
    ∷ codes "ssh-dss"
    ∷ codes "ecdsa-sha2-nistp256"
    ∷ codes "ecdsa-sha2-nistp384"
    ∷ codes "ecdsa-sha2-nistp521"
    ∷ codes "sk-ssh-ed25519@openssh.com"
    ∷ codes "sk-ecdsa-sha2-nistp256@openssh.com"
    ∷ []

pub record SshKey : Type 0 where
  pub type : Text
  pub comment : Text
  pub preview : Text
  pub raw : Text

pub data Parsed : Type 0 where
  no_key : Parsed
  key_of : SshKey → Parsed
  panics : Parsed

-- The first word that names a type of keys, with the words behind it.
unfoldable pub from_type : List Text → Option (Text × List Text)
from_type [] = none
from_type (w ∷ ws) =
    let later = from_type ws in if any (λ k. k == w) key_prefixes then some (w, ws) else later

abbrev pub blob_of : List Text → Text
blob_of [] = []
blob_of (blob ∷ ws) = blob

abbrev pub comment_of : List Text → Text
unfolding join
comment_of [] = []
comment_of (blob ∷ ws) = join (codes " ") ws

-- Ten bytes, an ellipsis and six bytes, or the whole blob.
unfoldable pub preview_of : Text → Option Text
unfolding before_byte from_byte utf8_length
preview_of blob =
    let front = before_byte 10 blob in
    let back = from_byte (utf8_length blob - 6) blob in
    let both = front >>= λ f. back >>= λ b. some (f ++ 0x2026 ∷ b) in
    if ltb 20 (utf8_length blob) then both else some blob

abbrev pub key_with : Text → Text × List Text → Parsed
unfolding preview_of comment_of
key_with t (type, ws) = elim (preview_of (blob_of ws)) [
  | none ↦ panics
  | some preview ↦
      key_of (record { type = type; comment = comment_of ws; preview = preview; raw = t })
]

unfoldable pub parse_key_line : Text → Parsed
unfolding trim words starts_with from_type key_with
parse_key_line line =
    let t = trim line in
    let found : Parsed = elim (from_type (words t)) [
      | none ↦ no_key
      | some of_type ↦ key_with t of_type
    ] in
    if is_empty t || starts_with (codes "#") t then no_key else found

-- The keys of a file, or a panic at one of its lines.
unfoldable pub file_keys : List Text → Option (List SshKey)
file_keys [] = some []
file_keys (line ∷ rest) =
    let later = file_keys rest in
    elim (parse_key_line line) [
      | no_key ↦ later
      | key_of k ↦ later >>= λ ks. some (k ∷ ks)
      | panics ↦ none
    ]

abbrev pub holds_key : Text → Text → Bool
unfolding trim lines
holds_key content key = any (λ l. trim l == key) (lines content)

-- What `add_key` writes.
unfoldable pub with_key : Text → Text → Text
unfolding ends_with
with_key content key =
    let terminated =
      if not (is_empty content) && not (ends_with (b'\n' ∷ []) content)
      then content ++ b'\n' ∷ []
      else content in
    (terminated ++ key) ++ b'\n' ∷ []

-- What `remove_key` writes.
unfoldable pub without_key : Text → Text → Text
unfolding trim lines join
without_key content key =
    let kept = retain (λ l. not (trim l == key)) (lines content) in
    if is_empty kept then [] else join (b'\n' ∷ []) kept ++ b'\n' ∷ []

-- The first line with the old key is replaced.
unfoldable pub replace_line : Text → Text → List Text → List Text
unfolding trim
replace_line old key [] = []
replace_line old key (l ∷ ls) =
    let later = replace_line old key ls in if trim l == old then key ∷ ls else l ∷ later

-- What `edit_key` writes.
unfoldable pub with_edit : Text → Text → Text → Text
unfolding replace_line lines join
with_edit content old key = join (b'\n' ∷ []) (replace_line old key (lines content)) ++ b'\n' ∷ []
