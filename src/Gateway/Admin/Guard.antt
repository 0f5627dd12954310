-- ===== src/Gateway/Admin/Guard.antt =====
-- Only an administrator changes the books.
use tenodera.Prelude.{◌≡◌, ◌≢◌, refl, ◌++◌, some, String, Text, codes}
use tenodera.Gateway.Session.{Session, SessionStore, admin, get_valid}
use tenodera.Gateway.Auth.{HeaderMap, Extracted, session_of, rejected, admin_auth}
use tenodera.Gateway.Auth.Requests.{admin_auth_sound}
use tenodera.Gateway.Admin.{Books, Draws, Call, guarded, perform, endpoint}

-- A request that shows the id of a valid session of an administrator.
abbrev pub IsAdmin : SessionStore → Draws → HeaderMap → Type 0
IsAdmin store draws headers =
    (token : Text) × (x : Session) × (headers "authorization" ≡ some (codes "Bearer " ++ token))
    × ((get_valid store draws.now draws.now draws.now token).0 ≡ some x)
    × (x.role ≡ admin)

-- A request to one of the endpoints that changes the hosts, the tokens or the pending agents shows
-- in its Authorization header, behind `Bearer `, the id of a session that get_valid accepts, and
-- that session is an administrator's.
pub books_authorized :
    (digest : String → Text) (store : SessionStore) (b : Books) (draws : Draws)
    (headers : HeaderMap) (call : Call)
    → (endpoint digest store b draws headers call).0.1 ≢ b
    → IsAdmin store draws headers
unfolding endpoint
books_authorized digest store b draws headers call ne =
    go ((admin_auth store draws.now headers).0) refl ne
  where
    go :
        (e : Extracted)
        → (admin_auth store draws.now headers).0 ≡ e
        → (guarded b (perform digest b draws call) e).1 ≢ b
        → IsAdmin store draws headers
    go (rejected status) same ne = absurd (ne refl)
    go (session_of x) same ne =
        let (token, shown, valid, role) = admin_auth_sound store draws.now headers x same in
        (token, x, shown, valid, role)
