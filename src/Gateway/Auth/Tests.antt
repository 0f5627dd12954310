-- ===== src/Gateway/Auth/Tests.antt =====
-- Logins and requests, and the theorems about them at inputs that meet their hypotheses.
use tenodera.Prelude.{
  ◌≡◌, ◌↔◌, ◌⊎◌, Bool, true, false, Option, none, some, [], ◌∷◌, ◌++◌, String, string_eq, Text,
  text_eq, codes, arith, nat_eq, ◌>>=◌, ◌==◌, if◌then◌else◌,
}
use tenodera.Std.Net.{IpAddr, v4, is_loopback}
use tenodera.Std.Str.{until, trim, trim_start, trim_end}
use tenodera.Gateway.RateLimit
use tenodera.Gateway.RateLimit.{is_limited}
use tenodera.Gateway.Session.{admin, readonly, Session, SessionStore, get_session}
use tenodera.Gateway.Auth.{HeaderMap, real_client_ip, State, login, logged_in}
use tenodera.Gateway.Auth.Requests.{real_client_ip_sound, login_sound, logged}

abbrev alice : Session
alice = record {
  id = codes "6f1c";
  user = "alice";
  role = admin;
  created_at = 0;
  last_activity = 0;
}

abbrev store : SessionStore
store = record {
  inner = (codes "6f1c", alice) ∷ [];
  idle_timeout_secs = 900;
  max_lifetime_secs = 14400;
}

abbrev headers : HeaderMap
headers name =
    if name == "authorization"
    then some (codes "Bearer " ++ codes "6f1c")
    else if name == "x-real-ip"
    then some (codes " 7")
    else none

-- An address is written as one digit here.
abbrev parse_ip : Text → Option IpAddr
parse_ip [] = none
parse_ip (c ∷ s) = if c == b'7' then some (v4 7) else none

real_client_ip_sound_example :
    (is_loopback (v4 0x7f000001) ≡ true)
    × (((headers "x-forwarded-for" >>= λ xff. parse_ip (trim (until b',' xff)))
          ≡ some (real_client_ip parse_ip (v4 0x7f000001) headers))
        ⊎ ((headers "x-real-ip" >>= λ xri. parse_ip (trim xri))
            ≡ some (real_client_ip parse_ip (v4 0x7f000001) headers)))
unfolding real_client_ip is_loopback trim trim_start trim_end until
real_client_ip_sound_example = real_client_ip_sound parse_ip (v4 0x7f000001) headers (ground arith)

abbrev state : State
state = record { login_limiter = RateLimit.new 20 300; sessions = store }

abbrev password_of : String → String → Bool
password_of name given = given == "secret"

abbrev in_sudo : String → Bool
in_sudo name = name == "alice"

abbrev fresh : Session
fresh = record { id = codes "77"; user = "alice"; role = admin; created_at = 9; last_activity = 9 }

abbrev user : String
user = "alice"

abbrev password : String
password = "secret"

login_sound_example :
    ((login password_of in_sudo state 8 9 (v4 7) (codes "77") "alice" "secret").0 ≡ logged_in fresh)
    ↔ (((is_limited state.login_limiter 8 (v4 7)).0 ≡ false)
        × ((user == "") ≡ false)
        × ((password == "") ≡ false)
        × (password_of "alice" "secret" ≡ true)
        × (fresh ≡ logged (codes "77") 9 "alice" (if in_sudo "alice" then admin else readonly))
        × (get_session
              ((login password_of in_sudo state 8 9
                (v4 7)
                (codes "77")
                "alice"
                "secret").1.sessions)
              (codes "77")
            ≡ some fresh))
login_sound_example =
    login_sound password_of in_sudo state 8 9 (v4 7) (codes "77") "alice" "secret" fresh
