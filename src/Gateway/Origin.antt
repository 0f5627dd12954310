-- ===== src/Gateway/Origin.antt =====
-- The guard against requests from other sites, panel/crates/gateway/src/security_headers.rs, and
-- that of `ws_upgrade` in panel/crates/gateway/src/ws.rs.
pub mod Match
mod Tests
use tenodera.Prelude.{
  Bool, true, false, Option, none, some, String, Text, codes, unwrap_or, ◌++◌, ◌>>=◌, map,
}
use tenodera.Std.Str.{strip_prefix, until, eq_ignore_ascii_case}

abbrev pub or_else : Option Text → Option Text → Option Text
or_else none o = o
or_else (some t) o = some t

-- `https://` or `http://` in front is dropped.
unfoldable pub strip_scheme : Text → Text
unfolding strip_prefix
strip_scheme s =
    unwrap_or (or_else (strip_prefix (codes "https://") s) (strip_prefix (codes "http://") s)) s

unfoldable pub origin_matches_host : Text → Text → Bool
unfolding strip_scheme until eq_ignore_ascii_case
origin_matches_host origin host = eq_ignore_ascii_case (until b'/' (strip_scheme origin)) host

pub data Method : Type 0 where
  get head options post put delete patch : Method

abbrev pub is_mutating : Method → Bool
is_mutating post = true
is_mutating put = true
is_mutating delete = true
is_mutating patch = true
is_mutating _ = false

-- A header's text is `none` where the header is missing or not printable.
pub record Request : Type 0 where
  pub method : Method
  pub host : Option Text
  pub origin : Option Text
  pub referer : Option Text

-- The origin that a referer stands for.
unfoldable pub referer_origin : Text → Text
unfolding strip_scheme until
referer_origin r = codes "http://" ++ until b'/' (strip_scheme r)

abbrev pub referred : Option Text → Option Text
unfolding referer_origin
referred none = none
referred (some r) = some (referer_origin r)

abbrev pub check_origin : Option Text → Text → Bool
unfolding origin_matches_host
check_origin none host = false
check_origin (some origin) host = origin_matches_host origin host

-- Whether `security_headers` passes a request on.
unfoldable pub passes : Request → Bool
unfolding check_origin referred
passes r = elim (is_mutating r.method) [
  | true ↦ check_origin (or_else r.origin (referred r.referer)) (unwrap_or r.host (codes ""))
  | false ↦ true
]

-- Whether `ws_upgrade` accepts a handshake. A header that is there and not printable is the empty
-- text here, so `origin` is `none` only where the header is missing.
unfoldable pub upgrades : Bool → Option Text → Option Text → Bool
unfolding origin_matches_host
upgrades allow_unencrypted (some origin) host =
    origin_matches_host origin (unwrap_or host (codes ""))
upgrades allow_unencrypted none host = allow_unencrypted
