-- ===== src/Gateway/Enrollment/Paths.antt =====
-- Which agents `resolve_auth_path` lets in, and what it does to the others.
use tenodera.Prelude.{
  ◌≡◌, refl, Bool, true, false, Option, none, some, String, Text, text_eq, string_eq, ==_iff, arith,
  find, List, [], ◌∷◌, sym, Option-cases, inl, inr,
}
use tenodera.Gateway.HostsConfig.{
  HostEntry, find_by_pubkey, register_host, replace_pubkey, has_key, has_id, with_key, Outcome,
  saved, load, Disk,
}
use tenodera.Gateway.Enrollment.{
  AuthPath, authenticated, AuthenticatedAgent, World, Draws, Candidate, resolve_auth_path, by_key,
  unknown_key, known_hostname, new_hostname, re_enrol, by_token, enrol, admit, checked,
}

find-has_key :
    (key : String) (h : HostEntry) (hs : List HostEntry)
    → find (has_key key) hs ≡ some h
    → h.public_key ≡ some key
find-has_key key h [] e = ground arith
find-has_key key h (g ∷ hs) e = elim (Option-cases g.public_key) [
  | inl n ↦ ground (arith, n, find-has_key key h hs)
  | inr (k, n) ↦ ground (arith, n, ==_iff k key, find-has_key key h hs)
]

pub saved-key :
    (h g : HostEntry) (key : String) (r : Bool × Disk)
    → h.public_key ≡ some key
    → (saved h r).0 ≡ some g
    → g.public_key ≡ some key
saved-key h g key (true, d) k e = let same : h ≡ g = cc in rw (sym same) k
saved-key h g key (false, d) k e = ground arith

pub replace_pubkey-key :
    (d : Disk) (id key : String) (o : Outcome) (g : HostEntry)
    → (replace_pubkey d id key o).0 ≡ some g
    → g.public_key ≡ some key
unfolding replace_pubkey load
replace_pubkey-key d id key o g e = elim (Option-cases (find (has_id id) (load d).hosts)) [
  | inl n ↦ ground (arith, n)
  | inr (h, n) ↦ saved-key (with_key key h) g key _ refl (rw (replace_pubkey, n) at e)
]

-- An agent that is let in as a host is the host with that key.
Owns : String → AuthPath → Type 0
Owns key path = (a : AuthenticatedAgent) → path ≡ authenticated a → a.host.public_key ≡ some key

admit-Owns :
    (ip : Text) (o : Option HostEntry) (key : String)
    → ((h : HostEntry) → o ≡ some h → h.public_key ≡ some key)
    → Owns key (admit ip o)
unfolding Owns
admit-Owns ip none key good a e = ground arith
admit-Owns ip (some h) key good a e =
    let same : record { host = h; remote_ip = ip } ≡ a = cc in rw (sym same) (good h refl)

enrol-Owns :
    (w : World) (draws : Draws) (c : Candidate) (is_local : Bool)
    → Owns c.pubkey_b64 ((enrol w draws c is_local).0)
unfolding Owns register_host
enrol-Owns w draws c is_local =
    admit-Owns c.remote_ip _ c.pubkey_b64 (λ h e. saved-key _ h c.pubkey_b64 _ refl e)

re_enrol-Owns :
    (w : World) (draws : Draws) (c : Candidate) (existing : HostEntry) (o : Option Bool)
    → Owns c.pubkey_b64 ((re_enrol w draws c existing o).0)
unfolding Owns re_enrol
re_enrol-Owns w draws c existing (some true) a e =
    admit-Owns c.remote_ip _ c.pubkey_b64
      (λ h e. replace_pubkey-key w.disk existing.id c.pubkey_b64 draws.outcome h e) a e
re_enrol-Owns w draws c existing (some false) a e = ground arith
re_enrol-Owns w draws c existing none a e = ground arith

by_token-Owns :
    (w : World) (draws : Draws) (c : Candidate) (o : Option Bool)
    → Owns c.pubkey_b64 ((by_token w draws c o).0)
unfolding Owns by_token
by_token-Owns w draws c (some b) a e = enrol-Owns w draws c c.is_local a e
by_token-Owns w draws c none a e = ground arith

module _ (digest : String → Text) (w : World) (draws : Draws) (c : Candidate) where
  new_hostname-Owns : (t : Option String) → Owns c.pubkey_b64 ((new_hostname digest w draws c t).0)
  unfolding Owns new_hostname
  new_hostname-Owns (some token_val) a e =
      let r = checked digest w draws c token_val in
      by_token-Owns (record w { tokens = r.1 }) draws c r.0 a e
  new_hostname-Owns none a e = ground (arith, enrol-Owns w draws c true a)

  known_hostname-Owns :
      (existing : HostEntry) (t : Option String)
      → Owns c.pubkey_b64 ((known_hostname digest w draws c existing t).0)
  unfolding Owns known_hostname
  known_hostname-Owns existing none a e = ground arith
  known_hostname-Owns existing (some token_val) a e =
      let r = checked digest w draws c token_val in
      re_enrol-Owns (record w { tokens = r.1 }) draws c existing r.0 a e

  unknown_key-Owns : (o : Option HostEntry) → Owns c.pubkey_b64 ((unknown_key digest w draws c o).0)
  unfolding Owns unknown_key
  unknown_key-Owns none a e = new_hostname-Owns c.bootstrap_token a e
  unknown_key-Owns (some existing) a e = known_hostname-Owns existing c.bootstrap_token a e

  by_key-Owns :
      (o : Option HostEntry)
      → ((h : HostEntry) → o ≡ some h → h.public_key ≡ some c.pubkey_b64)
      → Owns c.pubkey_b64 ((by_key digest w draws c o).0)
  unfolding Owns by_key
  by_key-Owns none good a e = unknown_key-Owns _ a e
  by_key-Owns (some h) good a e =
      let same : record { host = h; remote_ip = c.remote_ip } ≡ a = cc in
      rw (sym same) (good h refl)

  -- An agent that resolve_auth_path authenticates is let in as a host whose registered public key
  -- is the one that it presented.
  pub authenticated_owns_key :
      (a : AuthenticatedAgent)
      → (resolve_auth_path digest w draws c).0 ≡ authenticated a
      → a.host.public_key ≡ some c.pubkey_b64
  unfolding resolve_auth_path find_by_pubkey Owns
  authenticated_owns_key a e =
      by_key-Owns (find (has_key c.pubkey_b64) (load w.disk).hosts)
        (λ h n. find-has_key c.pubkey_b64 h (load w.disk).hosts n) a e
