-- ===== src/Gateway/AgentAuth/Tokens.antt =====
-- The bootstrap tokens of panel/crates/gateway/src/agent_auth.rs. SHA-256 is a parameter, `digest`,
-- from the text of a token to bytes. A token's id and the fresh value come from the generators.
pub mod Uses
pub mod Runs
pub mod Checks
use tenodera.Prelude.{
  ℕ, ◌+◌, ◌%◌, ◌^◌, Bool, true, false, not, ◌&&◌, ◌||◌, Option, none, some, List, [], ◌∷◌, map,
  String, string_eq, Text, text_eq, ◌==◌, ltb, leb, if◌then◌else◌, find, retain, is_some,
}
use tenodera.Dict.{Dict, get, insert, remove, modify}
use tenodera.Std.Time.{Instant, Duration}
use tenodera.Gateway.AgentAuth.Compare.{constant_time_eq}

pub record BootstrapToken : Type 0 where
  pub id : String
  pub value_digest : Text
  pub single_use : Bool
  pub use_count : ℕ
  pub max_uses : Option ℕ
  pub expires_at : Instant
  pub bound_hostname : Option Text
  pub re_enroll : Bool

unfoldable pub is_expired : BootstrapToken → Instant → Bool
is_expired self now = ltb self.expires_at now

abbrev pub reached : Option ℕ → ℕ → Bool
reached none n = false
reached (some max) n = leb max n

unfoldable pub is_exhausted : BootstrapToken → Bool
is_exhausted self =
    if self.single_use && ltb 0 self.use_count then true else reached self.max_uses self.use_count

abbrev pub bound_elsewhere : Option Text → Text → Bool
bound_elsewhere none hostname = false
bound_elsewhere (some bound) hostname = not (bound == hostname)

unfoldable pub is_valid_for : BootstrapToken → Instant → Text → Bool
unfolding is_expired is_exhausted
is_valid_for self now hostname =
    if is_expired self now || is_exhausted self
    then false
    else if bound_elsewhere self.bound_hostname hostname
    then false
    else true

-- `BootstrapRegistry`: the tokens by their ids.
abbrev pub BootstrapRegistry : Type 0
BootstrapRegistry = Dict String BootstrapToken

-- What `create` is asked for.
pub record Request : Type 0 where
  pub ttl : Duration
  pub single_use : Bool
  pub max_uses : Option ℕ
  pub bound_hostname : Option Text
  pub re_enroll : Bool

-- `use_count += 1` on a u32.
abbrev pub use_once : BootstrapToken → BootstrapToken
use_once t = record t { use_count = (t.use_count + 1) % 2 ^ 32 }

-- `validate_and_consume` with the entry that it found.
unfoldable pub consume :
    BootstrapRegistry
    → Instant
    → Text
    → Option (String × BootstrapToken)
    → Option Bool × BootstrapRegistry
unfolding is_valid_for is_exhausted modify remove
consume self now hostname none = (none, self)
consume self now hostname (some (key, entry)) =
    if not (is_valid_for entry now hostname) then (none, self) else (
      some entry.re_enroll,
      if is_exhausted (use_once entry)
          then remove entry.id (modify key use_once self)
          else modify key use_once self,
    )

module _ (digest : String → Text) where
  unfoldable pub create :
      BootstrapRegistry → Instant → String → String → Request → BootstrapRegistry
  unfolding insert
  create self now id value req =
      insert id
        (record {
          id = id;
          value_digest = digest value;
          single_use = req.single_use;
          use_count = 0;
          max_uses = req.max_uses;
          expires_at = now + req.ttl;
          bound_hostname = req.bound_hostname;
          re_enroll = req.re_enroll;
        })
        self

  abbrev pub presented : String → String × BootstrapToken → Bool
  presented token_value entry = constant_time_eq entry.1.value_digest (digest token_value)

  unfoldable pub validate_and_consume :
      BootstrapRegistry → Instant → String → Text → Option Bool × BootstrapRegistry
  unfolding consume
  validate_and_consume self now token_value hostname =
      consume self now hostname (find (presented token_value) self)

unfoldable pub revoke : BootstrapRegistry → String → Bool × BootstrapRegistry
unfolding get remove
revoke self id = (is_some (get id self), remove id self)

unfoldable pub cleanup : BootstrapRegistry → Instant → BootstrapRegistry
unfolding is_expired
cleanup self now = retain (λ e. not (is_expired e.1 now)) self
