-- ===== src/Gateway/Session/Validity.antt =====
-- When `get_valid` accepts a session, and what `reap_expired` drops.
use tenodera.Prelude.{
  ◌≡◌, ◌↔◌, ◌+◌, ◌≤◌, ◌<◌, ◌⊎◌, ◌&&◌, Option, none, some, arith, Text, text_eq, ==_iff, ◌==◌,
  if◌then◌else◌, length-retain-le, refl, sym, ◌∙◌, ==_refl,
}
use tenodera.Dict.{get, IsMap}
use tenodera.Dict.Laws.{get-retain, keep_if}
use tenodera.Std.Time.{Instant, as_secs, duration_since}
use tenodera.Gateway.Session.{
  Session, SessionStore, get_session, get_valid, reap_expired, count, idle_ok, age_ok,
}
use tenodera.Gateway.Session.Steps.{SameIdentity, renewed, get-get_valid}

pub result-get_valid :
    (s : SessionStore) (t_idle t_age now : Instant) (id : Text)
    → (get_valid s t_idle t_age now id).0 ≡ renewed s t_idle t_age now (get id s.inner)
unfolding get_valid renewed
result-get_valid s t_idle t_age now id = ground arith

-- The branch that accepts, for a session that is there.
accepted :
    (s : SessionStore) (t_idle t_age now : Instant) (o : Option Session) {x : Session}
    → renewed s t_idle t_age now o ≡ some x
    → (y : Session) × (o ≡ some y)
      × (as_secs (duration_since t_idle y.last_activity) ≤ s.idle_timeout_secs)
      × (as_secs (duration_since t_age y.created_at) ≤ s.max_lifetime_secs)
      × (x ≡ record y { last_activity = now })
unfolding renewed idle_ok age_ok
accepted s t_idle t_age now none h = cc
accepted s t_idle t_age now (some y) h = (y, refl, ground arith, ground arith, ground arith)

-- A session that get_valid accepts was in the store, neither idle for more seconds than the
-- timeout nor older than the lifetime; it comes back with its identity and a refreshed activity,
-- and so it stays in the store.
pub get_valid_sound :
    (s : SessionStore) (t_idle t_age now : Instant) (id : Text) {x : Session}
    → (get_valid s t_idle t_age now id).0 ≡ some x
    → (y : Session) × (get_session s id ≡ some y)
      × (as_secs (duration_since t_idle y.last_activity) ≤ s.idle_timeout_secs)
      × (as_secs (duration_since t_age y.created_at) ≤ s.max_lifetime_secs)
      × SameIdentity x y
      × (x.last_activity ≡ now)
      × (get_session (get_valid s t_idle t_age now id).1 id ≡ some x)
unfolding get_session
get_valid_sound s t_idle t_age now id {x} h =
    let h' = sym (result-get_valid s t_idle t_age now id) ∙ h in
    let (y, e, i, a, r) = accepted s t_idle t_age now (get id s.inner) h' in
    (
      y,
      e,
      i,
      a,
      record { id = cc r; user = cc r; role = cc r; created_at = cc r },
      cc r,
      rw (get-get_valid, ==_refl) h',
    )

-- An expired session is refused and dropped, and every other session is left alone.
pub get_valid_refuses :
    (s : SessionStore) (t_idle t_age now : Instant) (id : Text) {y : Session}
    → get_session s id ≡ some y
    → (s.idle_timeout_secs < as_secs (duration_since t_idle y.last_activity))
      ⊎ (s.max_lifetime_secs < as_secs (duration_since t_age y.created_at))
    → ((get_valid s t_idle t_age now id).0 ≡ none)
      × ((j : Text)
          → get_session (get_valid s t_idle t_age now id).1 j
            ≡ (if id == j then none else get_session s j))
unfolding get_session
get_valid_refuses s t_idle t_age now id {y} e expired =
    let none_left : renewed s t_idle t_age now (get id s.inner) ≡ none =
      rw e (unfold renewed idle_ok age_ok in ground arith) in
    (
      result-get_valid s t_idle t_age now id ∙ none_left,
      λ j. get-get_valid s t_idle t_age now id j ∙ ground (arith, ==_iff id j, none_left),
    )

kept_iff :
    (s : SessionStore) (reads : Session → Instant × Instant) (o : Option Session) (x : Session)
    → (keep_if (λ y. idle_ok s (reads y).0 y && age_ok s (reads y).1 y) o ≡ some x) ↔ (
        (o ≡ some x)
        × (as_secs (duration_since (reads x).0 x.last_activity) ≤ s.idle_timeout_secs)
        × (as_secs (duration_since (reads x).1 x.created_at) ≤ s.max_lifetime_secs))
unfolding idle_ok age_ok
kept_iff s reads none x = (λ h. cc, λ h. cc (h.0))
kept_iff s reads (some y) x = (λ h. ground arith, λ h. ground arith)

-- In a store with distinct ids, reap_expired keeps exactly the sessions that are neither idle for
-- longer than the timeout nor older than the lifetime by the clock reads made for them, and
-- returns how many it dropped.
pub reap_expired_exact :
    (s : SessionStore) (reads : Session → Instant × Instant)
    → IsMap s.inner
    → ((id : Text) (x : Session)
        → (get_session (reap_expired s reads).1 id ≡ some x) ↔ (
            (get_session s id ≡ some x)
            × (as_secs (duration_since (reads x).0 x.last_activity) ≤ s.idle_timeout_secs)
            × (as_secs (duration_since (reads x).1 x.created_at) ≤ s.max_lifetime_secs)))
      × ((reap_expired s reads).0 + count (reap_expired s reads).1 ≡ count s)
unfolding get_session reap_expired count
reap_expired_exact s reads d =
    let live = λ (y : Session). idle_ok s (reads y).0 y && age_ok s (reads y).1 y in
    (
      λ id x. rw (get-retain live id s.inner d) (kept_iff s reads (get id s.inner) x),
      omega (arith, length-retain-le (λ (q : Text × Session). live q.1) s.inner),
    )
