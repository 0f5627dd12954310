-- ===== src/Gateway/Enrollment/Refusal.antt =====
-- What `resolve_auth_path` leaves alone when it does not let an agent in.
use tenodera.Prelude.{
  ◌≡◌, refl, not, Bool, true, false, Option, none, some, String, Text, text_eq, string_eq, arith,
  find, is_some, ◌||◌, ◌&&◌, unwrap_or, Option-cases, inl, inr,
}
use tenodera.Gateway.HostsConfig.{
  HostEntry, find_by_pubkey, find_by_hostname, has_key, load, has_hostname,
}
use tenodera.Gateway.Enrollment.{
  AuthPath, World, Draws, Candidate, resolve_auth_path, by_key, unknown_key, known_hostname,
  new_hostname, re_enrol, by_token, checked, is_loopback_text,
}
use tenodera.Gateway.Enrollment.Entry.{is_authenticated, granted, may_enter}

-- Not let in, with the hosts and the connections as they were.
abbrev pub IsRefused : World → AuthPath × World → Type 0
IsRefused w r = (is_authenticated r.0 ≡ false) × (r.1.disk ≡ w.disk) × (r.1.agents ≡ w.agents)

re_enrol-IsRefused :
    (w : World) (draws : Draws) (c : Candidate) (existing : HostEntry) (o : Option Bool)
    → unwrap_or o false ≡ false
    → IsRefused w (re_enrol w draws c existing o)
unfolding re_enrol
re_enrol-IsRefused w draws c existing (some true) e = ground arith
re_enrol-IsRefused w draws c existing (some false) e = (refl, refl, refl)
re_enrol-IsRefused w draws c existing none e = (refl, refl, refl)

by_token-IsRefused :
    (w : World) (draws : Draws) (c : Candidate) (o : Option Bool)
    → is_some o ≡ false
    → IsRefused w (by_token w draws c o)
unfolding by_token
by_token-IsRefused w draws c (some b) e = ground arith
by_token-IsRefused w draws c none e = (refl, refl, refl)

module _ (digest : String → Text) (w : World) (draws : Draws) (c : Candidate) where
  known_hostname-IsRefused :
      (existing : HostEntry) (t : Option String)
      → unwrap_or (granted digest w draws c t) false ≡ false
      → IsRefused w (known_hostname digest w draws c existing t)
  unfolding known_hostname granted
  known_hostname-IsRefused existing none e = (refl, refl, refl)
  known_hostname-IsRefused existing (some token_val) e =
      let r = checked digest w draws c token_val in
      re_enrol-IsRefused (record w { tokens = r.1 }) draws c existing r.0 e

  new_hostname-IsRefused :
      (t : Option String)
      → (is_some (granted digest w draws c t) || (not (is_some t) && is_loopback_text c.remote_ip))
        ≡ false
      → IsRefused w (new_hostname digest w draws c t)
  unfolding new_hostname granted
  new_hostname-IsRefused none e = ground arith
  new_hostname-IsRefused (some token_val) e =
      let r = checked digest w draws c token_val in
      by_token-IsRefused (record w { tokens = r.1 }) draws c r.0 (ground arith)

  -- An agent that is not entitled to enter is not authenticated, and the registered hosts and the
  -- connected agents stay as they are, whatever the save would do.
  pub resolve_auth_path-IsRefused :
      may_enter digest w draws c ≡ false → IsRefused w (resolve_auth_path digest w draws c)
  unfolding resolve_auth_path by_key unknown_key find_by_pubkey find_by_hostname may_enter
  resolve_auth_path-IsRefused e =
      elim (Option-cases (find (has_key c.pubkey_b64) (load w.disk).hosts)) [
        | inl n ↦ elim (Option-cases (find (has_hostname c.hostname) (load w.disk).hosts)) [
          | inl m ↦
              let out = new_hostname-IsRefused c.bootstrap_token (ground (arith, n, m)) in
              ground (arith, n, m, out)
          | inr (h, m) ↦
              let out = known_hostname-IsRefused h c.bootstrap_token (ground (arith, n, m)) in
              ground (arith, n, m, out)
        ]
        | inr (h, n) ↦ ground (arith, n)
      ]
