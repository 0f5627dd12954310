-- ===== src/Protocol/Channel.antt =====
-- protocol/src/channel.rs: channel identifiers, as their bytes, and the options of an open request.
use tenodera.Prelude.{
  ◌≡◌, ◌↔◌, ◌≢◌, ℕ, ◌≤◌, Bool, true, ◌&&◌, ◌||◌, not, Option, [], ◌∷◌, String, arith, ltb, leb,
  Text, length, all, is_empty, if◌then◌else◌, ◌==◌, nat_eq, refl,
}

abbrev pub max_channel_id_len : ℕ
max_channel_id_len = 128

abbrev pub ChannelId : Type 0
ChannelId = Text

pub data IdError : Type 0 where
  empty_id too_long invalid_characters : IdError

pub data NewId : Type 0 where
  ok : ChannelId → NewId
  err : IdError → NewId

unfoldable pub is_ascii_alphanumeric : ℕ → Bool
is_ascii_alphanumeric b =
    (leb b'0' b && leb b b'9') || (leb b'A' b && leb b b'Z') || (leb b'a' b && leb b b'z')

-- The bytes that an identifier may hold.
unfoldable pub is_id_byte : ℕ → Bool
unfolding is_ascii_alphanumeric
is_id_byte b = is_ascii_alphanumeric b || b == b'-' || b == b'_'

unfoldable pub new : Text → NewId
new s =
    if is_empty s
    then err empty_id
    else if ltb max_channel_id_len (length s)
    then err too_long
    else if not (all is_id_byte s)
    then err invalid_characters
    else ok s

-- An identifier is accepted exactly if it has between 1 and 128 bytes, each an ASCII letter, a
-- digit, a dash or an underscore; it is then kept as it is.
pub new_iff :
    (s t : Text)
    → (new s ≡ ok t) ↔ ((s ≡ t) × (s ≢ []) × (length s ≤ 128) × (all is_id_byte s ≡ true))
unfolding new
new_iff [] t = (λ h. cc, λ h. absurd (h.1 refl))
new_iff (b ∷ s) t = (λ h. (ground arith, cc, ground arith, ground arith), λ h. ground arith)

pub data SuperuserMode : Type 0 where
  require attempt : SuperuserMode

pub record ChannelOpenOptions (Fields : Type 0) : Type 0 where
  pub payload : String
  pub superuser : Option SuperuserMode
  pub extra : Fields
