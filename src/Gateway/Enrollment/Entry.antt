-- ===== src/Gateway/Enrollment/Entry.antt =====
-- Which agents `resolve_auth_path` lets in, as a test of what they present, and that it leaves the
-- hosts alone for all others.
use tenodera.Prelude.{
  ◌≡◌, refl, not, ==_refl, Bool, true, false, Option, none, some, String, Text, text_eq, string_eq,
  arith, find, if◌then◌else◌, is_some, List, [], ◌∷◌, ◌||◌, ◌&&◌, unwrap_or, Option-cases, inl, inr,
}
use tenodera.Gateway.AgentAuth.Tokens.{validate_and_consume}
use tenodera.Gateway.HostsConfig.{
  HostEntry, find_by_pubkey, find_by_hostname, register_host, replace_pubkey, has_key, has_id,
  written, save, load, has_hostname,
}
use tenodera.Gateway.Enrollment.{
  AuthPath, authenticated, reject, pending, World, Draws, Candidate, resolve_auth_path, by_key,
  unknown_key, known_hostname, new_hostname, re_enrol, by_token, enrol, checked, is_loopback_text,
}

abbrev pub is_authenticated : AuthPath → Bool
is_authenticated (authenticated a) = true
is_authenticated (pending reason) = false
is_authenticated reject = false

-- Who may enter: who has a registered key; under a registered host name, who has a token for
-- re-enrolment; under a new host name, who has a token, or has none and comes from the host itself.
abbrev pub entitled : Bool → Bool → Option Bool → Bool → Bool → Bool
entitled known_key known_name granted has_token loopback =
    known_key
    || (if known_name
        then unwrap_or granted false
        else is_some granted || (not has_token && loopback))

module _ (digest : String → Text) (w : World) (draws : Draws) (c : Candidate) where
  -- What the tokens say to the token presented.
  unfoldable pub granted : Option String → Option Bool
  unfolding validate_and_consume
  granted none = none
  granted (some token_val) = (validate_and_consume digest w.tokens draws.now token_val c.hostname).0

  unfoldable pub may_enter : Bool
  unfolding find_by_pubkey find_by_hostname granted
  may_enter =
      entitled (is_some (find_by_pubkey w.disk c.pubkey_b64))
        (is_some (find_by_hostname w.disk c.hostname)) (granted c.bootstrap_token)
        (is_some c.bootstrap_token) (is_loopback_text c.remote_ip)

find-id :
    (host : Text) (h : HostEntry) (hs : List HostEntry)
    → find (has_hostname host) hs ≡ some h
    → is_some (find (has_id h.id) hs) ≡ true
find-id host h [] e = ground arith
find-id host h (g ∷ hs) e = ground (arith, find-id host h hs, ==_refl h.id)

enrol-enters :
    (w : World) (draws : Draws) (c : Candidate) (is_local : Bool)
    → draws.outcome ≡ written
    → is_authenticated ((enrol w draws c is_local).0) ≡ true
unfolding register_host save
enrol-enters w draws c is_local o = ground (arith, o)

re_enrol-enters :
    (w : World) (draws : Draws) (c : Candidate) (existing : HostEntry) (o : Option Bool)
    → draws.outcome ≡ written
    → is_some (find (has_id existing.id) (load w.disk).hosts) ≡ true
    → is_authenticated ((re_enrol w draws c existing o).0) ≡ unwrap_or o false
unfolding re_enrol replace_pubkey save load
re_enrol-enters w draws c existing (some true) o f =
    elim (Option-cases (find (has_id existing.id) (load w.disk).hosts)) [
      | inl n ↦ ground (arith, n)
      | inr (h, n) ↦ ground (arith, n, o)
    ]
re_enrol-enters w draws c existing (some false) o f = refl
re_enrol-enters w draws c existing none o f = refl

module _ (digest : String → Text) (w : World) (draws : Draws) (c : Candidate) where
  known_hostname-enters :
      (existing : HostEntry) (t : Option String)
      → draws.outcome ≡ written
      → is_some (find (has_id existing.id) (load w.disk).hosts) ≡ true
      → is_authenticated ((known_hostname digest w draws c existing t).0)
        ≡ unwrap_or (granted digest w draws c t) false
  unfolding known_hostname granted
  known_hostname-enters existing none o f = refl
  known_hostname-enters existing (some token_val) o f =
      let r = checked digest w draws c token_val in
      re_enrol-enters (record w { tokens = r.1 }) draws c existing r.0 o f

  by_token-enters :
      (v : World) (o : Option Bool)
      → draws.outcome ≡ written
      → is_authenticated ((by_token v draws c o).0) ≡ is_some o
  unfolding by_token
  by_token-enters v none o = refl
  by_token-enters v (some b) o = enrol-enters v draws c c.is_local o

  new_hostname-enters :
      (t : Option String)
      → draws.outcome ≡ written
      → is_authenticated ((new_hostname digest w draws c t).0) ≡ (
          is_some (granted digest w draws c t) || (not (is_some t) && is_loopback_text c.remote_ip))
  unfolding new_hostname granted
  new_hostname-enters none o = ground (arith, enrol-enters w draws c true o)
  new_hostname-enters (some token_val) o =
      let r = checked digest w draws c token_val in
      let entry = by_token-enters (record w { tokens = r.1 }) r.0 o in ground (arith, entry)

  -- Where the hosts can be saved, resolve_auth_path authenticates exactly the agents whose key is
  -- registered, or under a registered host name has a token granted for re-enrolment, or under a
  -- new host name has a token that is granted, or has none and comes from the loopback address.
  pub enters_exactly :
      draws.outcome ≡ written
      → is_authenticated ((resolve_auth_path digest w draws c).0) ≡ may_enter digest w draws c
  unfolding resolve_auth_path by_key unknown_key find_by_pubkey find_by_hostname may_enter
  enters_exactly o = elim (Option-cases (find (has_key c.pubkey_b64) (load w.disk).hosts)) [
    | inl n ↦ elim (Option-cases (find (has_hostname c.hostname) (load w.disk).hosts)) [
      | inl m ↦ ground (arith, n, m, new_hostname-enters c.bootstrap_token o)
      | inr (h, m) ↦
          let f = find-id c.hostname h (load w.disk).hosts m in
          ground (arith, n, m, known_hostname-enters h c.bootstrap_token o f)
    ]
    | inr (h, n) ↦ ground (arith, n)
  ]
