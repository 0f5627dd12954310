-- ===== src/Gateway/Session/Lifetime.antt =====
-- What holds of a session over its whole life, whatever is done to the store meanwhile.
use mathlib.Core.Path.{subst}
use tenodera.Prelude.{
  ◌≡◌, ◌<◌, ◌≤◌, List, [], ◌∷◌, Option, none, some, arith, Text, text_eq, All, ◌∙◌, inl, inr,
  Option-cases, refl, ==_refl,
}
use tenodera.Dict.{get, IsMap}
use tenodera.Dict.Laws.{get-modify}
use tenodera.Std.Time.{Instant, as_secs, duration_since}
use tenodera.Gateway.Session.{Session, SessionStore, get_session, get_valid, touch, idle_ok, age_ok}
use tenodera.Gateway.Session.Steps.{
  Op, step, run, SameIdentity, HoldsOnly, Spares, IsMap-step, HoldsOnly-step, step_const, renewed,
}
use tenodera.Gateway.Session.Validity.{get_valid_refuses, result-get_valid}

HoldsOnly-run :
    (s : SessionStore) (ops : List Op) (id : Text) (x : Session)
    → IsMap s.inner
    → All (Spares id) ops
    → HoldsOnly x (get id s.inner)
    → HoldsOnly x (get id (run s ops).inner)
unfolding run
HoldsOnly-run s [] id x d spared h = h
HoldsOnly-run s (op ∷ ops) id x d (sp, sps) h =
    HoldsOnly-run (step s op) ops id x (IsMap-step s op d) sps (HoldsOnly-step s op id x d sp h)

run_const : (s : SessionStore) (ops : List Op) → (run s ops).max_lifetime_secs ≡ s.max_lifetime_secs
unfolding run
run_const s [] = refl
run_const s (op ∷ ops) = run_const (step s op) ops ∙ (step_const s op).1

HoldsOnly-some :
    {x y : Session} {o : Option Session} → o ≡ some y → HoldsOnly x o → SameIdentity y x
HoldsOnly-some {x} e h = subst (HoldsOnly x) e h

HoldsOnly-self : (x : Session) (o : Option Session) → o ≡ some x → HoldsOnly x o
HoldsOnly-self x o e = rw e (record { id = refl; user = refl; role = refl; created_at = refl })

-- From a store with distinct ids, and as long as no session is created under the same id, what the
-- store holds there keeps its id, its user, its role and its time of creation.
pub identity_fixed :
    (s : SessionStore) (ops : List Op) (id : Text) {x y : Session}
    → IsMap s.inner
    → get_session s id ≡ some x
    → All (Spares id) ops
    → get_session (run s ops) id ≡ some y
    → SameIdentity y x
unfolding get_session
identity_fixed s ops id {x} d e spared e' =
    HoldsOnly-some e' (HoldsOnly-run s ops id x d spared (HoldsOnly-self x _ e))

-- From a store with distinct ids, and after any operations that create no session under its id,
-- get_valid refuses a session that is older than the lifetime, however often it was used or
-- touched.
pub lifetime_cap :
    (s : SessionStore) (ops : List Op) (id : Text) (t_idle t_age now : Instant) {x : Session}
    → IsMap s.inner
    → get_session s id ≡ some x
    → All (Spares id) ops
    → s.max_lifetime_secs < as_secs (duration_since t_age x.created_at)
    → (get_valid (run s ops) t_idle t_age now id).0 ≡ none
lifetime_cap s ops id t_idle t_age now {x} d e spared old =
    elim (Option-cases (get_session (run s ops) id)) [
      | inl gone ↦ unfold get_valid get_session in ground arith
      | inr (y, there) ↦
          let same = identity_fixed s ops id d e spared there in
          (get_valid_refuses (run s ops) t_idle t_age now id there
            (inr (ground (arith, run_const s ops, same.created_at)))).0
    ]

-- A session whose activity is as late as the clock is renewed, if it is not too old.
renewed_fresh :
    (s : SessionStore) (now : Instant) (x : Session)
    → as_secs (duration_since now x.created_at) ≤ s.max_lifetime_secs
    → renewed s now now now (some (record x { last_activity = now }))
      ≡ some (record x { last_activity = now })
unfolding renewed idle_ok age_ok
renewed_fresh s now x young = ground arith

-- A session that get_valid would refuse for being idle is accepted again after touch, while it is
-- within its lifetime.
pub touch_revives :
    (s : SessionStore) (id : Text) (now : Instant) {x : Session}
    → get_session s id ≡ some x
    → s.idle_timeout_secs < as_secs (duration_since now x.last_activity)
    → as_secs (duration_since now x.created_at) ≤ s.max_lifetime_secs
    → ((get_valid s now now now id).0 ≡ none)
      × ((get_valid (touch s now id) now now now id).0 ≡ some (record x { last_activity = now }))
touch_revives s id now {x} e idle young = (
  (get_valid_refuses s now now now id e (inl idle)).0,
  result-get_valid (touch s now id) now now now id
      ∙ unfold touch get_session in
        rw (get-modify, ==_refl, e) (renewed_fresh (touch s now id) now x young),
)
