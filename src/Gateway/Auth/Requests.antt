-- ===== src/Gateway/Auth/Requests.antt =====
-- What a request has to show, and what a login leaves behind.
use tenodera.Prelude.{
  ◌≡◌, ◌≢◌, ◌↔◌, ◌⊎◌, inl, inr, refl, sym, ap, ◌∙◌, Bool, true, false, Option, none, some, ◌++◌,
  String, string_eq, Text, text_eq, codes, arith, ==_iff, ==_refl, Option-cases, Bool-cases, ◌>>=◌,
  ◌==◌, if◌then◌else◌,
}
use tenodera.Dict.Laws.{get-insert}
use tenodera.Std.Time.{Instant}
use tenodera.Std.Net.{IpAddr, is_loopback}
use tenodera.Std.Str.{strip_prefix, until, trim, strip_prefix-append, strip_prefix_sound}
use tenodera.Gateway.RateLimit.{is_limited}
use tenodera.Gateway.Session
use tenodera.Gateway.Session.{
  Role, admin, readonly, Session, SessionStore, get_session, get_valid, remove_session,
}
use tenodera.Gateway.Auth.{
  HeaderMap, StatusCode, ok, forbidden, bearer_token, Extracted, session_of, rejected, auth,
  auth_token, valid_or_401, admin_auth, admin_only, real_client_ip, first_of, logout, owns_session,
  State, logged_in, refused, login, role_of, create_session, record_failure,
}

pub bearer_token_iff :
    (headers : HeaderMap) (t : Text)
    → (bearer_token headers ≡ some t) ↔ (headers "authorization" ≡ some (codes "Bearer " ++ t))
unfolding bearer_token
bearer_token_iff headers t = (
  λ h. elim (Option-cases (headers "authorization")) [
    | inl n ↦ absurd (ground (arith, n))
    | inr (v, n) ↦
        let stripped : strip_prefix (codes "Bearer ") v ≡ some t = ground (arith, n) in
        n ∙ ap (λ x. some x) (strip_prefix_sound (codes "Bearer ") v t stripped)
  ],
  λ h.
      ap (λ o. o >>= λ v. strip_prefix (codes "Bearer ") v) h
      ∙ strip_prefix-append (codes "Bearer ") t,
)

auth_token_sound :
    (store : SessionStore) (now : Instant) (o : Option Text) (x : Session)
    → (auth_token store now o).0 ≡ session_of x
    → (token : Text) × (o ≡ some token) × ((get_valid store now now now token).0 ≡ some x)
unfolding auth_token
auth_token_sound store now none x e = ground arith
auth_token_sound store now (some token) x e =
    (token, refl, valid (get_valid store now now now token) e)
  where
    valid : (r : Option Session × SessionStore) → (valid_or_401 r).0 ≡ session_of x → r.0 ≡ some x
    valid (none, store) e = ground arith
    valid (some session, store) e = ground arith

admin_only_sound :
    (r : Extracted) (x : Session)
    → admin_only r ≡ session_of x
    → (r ≡ session_of x) × (x.role ≡ admin)
admin_only_sound (rejected status) x e = ground arith
admin_only_sound (session_of session) x e = by_role session.role refl
  where
    by_role :
        (role : Role) → session.role ≡ role → (session_of session ≡ session_of x) × (x.role ≡ admin)
    by_role admin same =
        let entered : session_of session ≡ session_of x = rw (admin_only, same) at e in
        let one : session ≡ x = cc in (entered, ap (λ s. s.role) (sym one) ∙ same)
    by_role readonly same =
        let shut : rejected forbidden ≡ session_of x = rw (admin_only, same) at e in
        absurd (ground arith)

-- A request that passes AdminAuth shows in its Authorization header, behind `Bearer `, the id of a
-- session that get_valid accepts, and that session is an administrator's.
pub admin_auth_sound :
    (store : SessionStore) (now : Instant) (headers : HeaderMap) (x : Session)
    → (admin_auth store now headers).0 ≡ session_of x
    → (token : Text) × (headers "authorization" ≡ some (codes "Bearer " ++ token))
      × ((get_valid store now now now token).0 ≡ some x)
      × (x.role ≡ admin)
unfolding admin_auth auth
admin_auth_sound store now headers x e =
    let (entered, role) = admin_only_sound _ x e in
    let (token, shown, valid) = auth_token_sound store now (bearer_token headers) x entered in
    (token, (bearer_token_iff headers token).0 shown, valid, role)

first_of_sound :
    (a b : Option IpAddr) (peer : IpAddr)
    → first_of a b peer ≢ peer
    → (a ≡ some (first_of a b peer)) ⊎ (b ≡ some (first_of a b peer))
first_of_sound (some ip) b peer ne = inl refl
first_of_sound none (some ip) peer ne = inr refl
first_of_sound none none peer ne = absurd (ne refl)

-- A client's address differs from its peer's only if the peer is a loopback address and one of the
-- two forwarding headers gives that address.
pub real_client_ip_sound :
    (parse_ip : Text → Option IpAddr) (peer : IpAddr) (headers : HeaderMap)
    → real_client_ip parse_ip peer headers ≢ peer
    → (is_loopback peer ≡ true)
      × (((headers "x-forwarded-for" >>= λ xff. parse_ip (trim (until b',' xff)))
            ≡ some (real_client_ip parse_ip peer headers))
          ⊎ ((headers "x-real-ip" >>= λ xri. parse_ip (trim xri))
              ≡ some (real_client_ip parse_ip peer headers)))
unfolding real_client_ip
real_client_ip_sound parse_ip peer headers ne =
    let xff = headers "x-forwarded-for" >>= λ xff. parse_ip (trim (until b',' xff)) in
    let xri = headers "x-real-ip" >>= λ xri. parse_ip (trim xri) in
    let origin = first_of_sound xff xri peer in ground (arith, origin)

owns_session_sound :
    (o : Option Text) (session_id : Text) → owns_session o session_id ≡ true → o ≡ some session_id
owns_session_sound none session_id h = ground arith
owns_session_sound (some t) session_id h = ap (λ x. some x) ((==_iff t session_id).0 h)

-- A logout that changes the store succeeds, and its Authorization header shows the very session id
-- that it destroys.
pub logout_own :
    (store : SessionStore) (headers : HeaderMap) (session_id : Text)
    → (logout store headers session_id).1 ≢ store
    → ((logout store headers session_id).0 ≡ ok)
      × (headers "authorization" ≡ some (codes "Bearer " ++ session_id))
unfolding logout
logout_own store headers session_id ne =
    elim (Bool-cases (owns_session (bearer_token headers) session_id)) [
      | inl own ↦
          let shown = owns_session_sound (bearer_token headers) session_id own in
          (ground (arith, own), (bearer_token_iff headers session_id).0 shown)
      | inr other ↦ absurd (ne (ground (arith, other)))
    ]

-- A session that starts now.
abbrev pub logged : Text → Instant → String → Role → Session
logged id now user role = record {
  id = id;
  user = user;
  role = role;
  created_at = now;
  last_activity = now;
}

role_of_lem : (sudo : Bool) → role_of sudo ≡ (if sudo then admin else readonly)
role_of_lem true = refl
role_of_lem false = refl

module _ (authenticate : String → String → Bool) (verify_sudo : String → Bool) where
  -- A login succeeds with a session exactly if the address is not limited, the name and the
  -- password are not empty, PAM takes them, and the session, which the store then holds under the
  -- fresh id, is of now and for the user, an administrator exactly if the sudo groups say so.
  pub login_sound :
      (s : State) (t now : Instant) (ip : IpAddr) (fresh_id : Text) (user password : String)
      (x : Session)
      → ((login authenticate verify_sudo s t now ip fresh_id user password).0 ≡ logged_in x) ↔ (
          ((is_limited s.login_limiter t ip).0 ≡ false)
          × ((user == "") ≡ false)
          × ((password == "") ≡ false)
          × (authenticate user password ≡ true)
          × (x ≡ logged fresh_id now user (if verify_sudo user then admin else readonly))
          × (get_session
                ((login authenticate verify_sudo s t now ip fresh_id user password).1.sessions)
                fresh_id
              ≡ some x))
  unfolding login create_session record_failure Session.create get_session
  login_sound s t now ip fresh_id user password x =
      let made = logged fresh_id now user (role_of (verify_sudo user)) in
      let stored = get-insert fresh_id fresh_id made s.sessions.inner in
      let role = role_of_lem (verify_sudo user) in
      (λ e. ground (arith, ==_refl fresh_id, stored, role), λ h. ground (arith, h, role))

  pub login_refused :
      (s : State) (t now : Instant) (ip : IpAddr) (fresh_id : Text) (user password : String)
      (status : StatusCode)
      → (login authenticate verify_sudo s t now ip fresh_id user password).0 ≡ refused status
      → (login authenticate verify_sudo s t now ip fresh_id user password).1.sessions ≡ s.sessions
  unfolding login create_session record_failure
  login_refused s t now ip fresh_id user password status e = ground arith
