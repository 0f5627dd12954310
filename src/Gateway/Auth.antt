-- ===== src/Gateway/Auth.antt =====
-- panel/crates/gateway/src/auth.rs: who a request comes from, and the login and the logout. PAM and
-- the look-up of the sudo groups, which run a helper program, are parameters; so is the parsing of
-- an address. A header is the text of its value, if that is printable.
pub mod Requests
mod Tests
use tenodera.Prelude.{
  ℕ, Bool, true, false, not, ◌||◌, Option, none, some, [], ◌∷◌, String, string_eq, Text, text_eq,
  ◌==◌, codes, if◌then◌else◌, is_empty, ◌>>=◌,
}
use tenodera.Std.Time.{Instant}
use tenodera.Std.Net.{IpAddr, is_loopback}
use tenodera.Std.Str.{strip_prefix, until, trim}
use tenodera.Gateway.RateLimit.{LoginRateLimiter, is_limited, check_and_record}
use tenodera.Gateway.Session
use tenodera.Gateway.Session.{
  Role, admin, readonly, Session, SessionStore, get_valid, remove_session,
}

abbrev pub HeaderMap : Type 0
HeaderMap = String → Option Text

pub data StatusCode : Type 0 where
  ok bad_request unauthorized forbidden too_many_requests : StatusCode

unfoldable pub bearer_token : HeaderMap → Option Text
unfolding strip_prefix
bearer_token headers = headers "authorization" >>= λ v. strip_prefix (codes "Bearer ") v

-- The result of an extractor: a session or the rejection.
pub data Extracted : Type 0 where
  session_of : Session → Extracted
  rejected : StatusCode → Extracted

abbrev pub valid_or_401 : Option Session × SessionStore → Extracted × SessionStore
valid_or_401 (none, store) = (rejected unauthorized, store)
valid_or_401 (some session, store) = (session_of session, store)

unfoldable pub auth_token : SessionStore → Instant → Option Text → Extracted × SessionStore
unfolding get_valid
auth_token store now none = (rejected unauthorized, store)
auth_token store now (some token) = valid_or_401 (get_valid store now now now token)

-- `Auth::from_request_parts`
unfoldable pub auth : SessionStore → Instant → HeaderMap → Extracted × SessionStore
unfolding auth_token bearer_token
auth store now headers = auth_token store now (bearer_token headers)

abbrev pub admin_only : Extracted → Extracted
admin_only (rejected status) = rejected status
admin_only (session_of session) = elim session.role as (λ _. Extracted) [
  | admin ↦ session_of session
  | readonly ↦ rejected forbidden
]

-- `AdminAuth::from_request_parts`
unfoldable pub admin_auth : SessionStore → Instant → HeaderMap → Extracted × SessionStore
unfolding auth
admin_auth store now headers = let r = auth store now headers in (admin_only r.0, r.1)

-- The first address that is there.
abbrev pub first_of : Option IpAddr → Option IpAddr → IpAddr → IpAddr
first_of (some ip) _ peer = ip
first_of none (some ip) peer = ip
first_of none none peer = peer

module _ (parse_ip : Text → Option IpAddr) where
  unfoldable pub real_client_ip : IpAddr → HeaderMap → IpAddr
  unfolding is_loopback until trim
  real_client_ip peer headers =
      if not (is_loopback peer)
      then peer
      else first_of (headers "x-forwarded-for" >>= λ xff. parse_ip (trim (until b',' xff)))
          (headers "x-real-ip" >>= λ xri. parse_ip (trim xri)) peer

abbrev pub owns_session : Option Text → Text → Bool
owns_session none session_id = false
owns_session (some t) session_id = t == session_id

unfoldable pub logout : SessionStore → HeaderMap → Text → StatusCode × SessionStore
unfolding bearer_token remove_session
logout store headers session_id =
    if not (owns_session (bearer_token headers) session_id)
    then (unauthorized, store)
    else (ok, remove_session store session_id)

pub record State : Type 0 where
  pub login_limiter : LoginRateLimiter
  pub sessions : SessionStore

pub data LoginResult : Type 0 where
  logged_in : Session → LoginResult
  refused : StatusCode → LoginResult

abbrev pub role_of : Bool → Role
role_of true = admin
role_of false = readonly

module _ (authenticate : String → String → Bool) (verify_sudo : String → Bool) where
  -- A successful authentication.
  abbrev pub create_session : State → Instant → Text → String → LoginResult × State
  unfolding Session.create
  create_session s now fresh_id user =
      let r = Session.create s.sessions now fresh_id user (role_of (verify_sudo user)) in
      (logged_in r.0, record s { sessions = r.1 })

  -- A failed one.
  abbrev pub record_failure : State → Instant → IpAddr → LoginResult × State
  unfolding check_and_record
  record_failure s now ip = (
    refused unauthorized,
    record s { login_limiter = (check_and_record s.login_limiter now ip).1 },
  )

  -- `t` is the time of the first look at the limiter, `now` that after PAM.
  unfoldable pub login :
      State → Instant → Instant → IpAddr → Text → String → String → LoginResult × State
  unfolding is_limited create_session record_failure
  login s t now ip fresh_id user password =
      let looked = is_limited s.login_limiter t ip in
      let s' : State = record s { login_limiter = looked.1 } in
      let failed = record_failure s' now ip in
      let created = create_session s' now fresh_id user in
      if looked.0
      then (refused too_many_requests, s')
      else if user == "" || password == ""
      then (refused bad_request, s')
      else if not (authenticate user password)
      then failed
      else created
