-- ===== src/Gateway/Origin/Tests.antt =====
-- Requests from the panel's own pages and from others, and the theorems about them.
use tenodera.Prelude.{◌≡◌, ◌⊎◌, refl, none, some, [], Text, text_eq, codes, unwrap_or}
use tenodera.Std.Str.{strip_prefix, until, eq_ignore_ascii_case}
use tenodera.Gateway.Origin.{
  Request, post, passes, check_origin, origin_matches_host, strip_scheme, referred, referer_origin,
}
use tenodera.Gateway.Origin.Match.{passes_sound, IsAt}

abbrev from_page : Request
from_page = record {
  method = post;
  host = some (codes "panel:9090");
  origin = none;
  referer = some (codes "https://PANEL:9090/hosts");
}

passes_sound_example :
    (o : Text) × ((from_page.origin ≡ some o)
      ⊎ ((from_page.origin ≡ none) × (from_page.referer ≡ some o)))
    × IsAt (unwrap_or from_page.host []) o
unfolding passes check_origin origin_matches_host strip_scheme referred referer_origin strip_prefix
    until eq_ignore_ascii_case
passes_sound_example = passes_sound from_page tt refl
