-- ===== src/Gateway/Session/Steps.antt =====
-- Sequences of operations on the store, and the invariant that every operation preserves.
use tenodera.Prelude.{
  ◌≡◌, ◌≢◌, refl, ◌&&◌, Bool, true, false, List, [], ◌∷◌, arith, String, Text, text_eq, Option,
  none, some, ==_iff, ◌==◌, if◌then◌else◌,
}
use tenodera.Dict.{get, IsMap}
use tenodera.Dict.Laws.{
  get-insert, get-remove, get-modify, get-retain, IsMap-insert, IsMap-remove, IsMap-modify,
  IsMap-retain, keep_if, map_some,
}
use tenodera.Std.Time.{Instant}
use tenodera.Gateway.Session
use tenodera.Gateway.Session.{
  Role, Session, SessionStore, remove_session, reap_expired, idle_ok, age_ok,
}

pub data Op : Type 0 where
  create : Instant → Text → String → Role → Op
  get_valid : Instant → Instant → Instant → Text → Op
  touch : Instant → Text → Op
  remove : Text → Op
  reap : (Session → Instant × Instant) → Op

unfoldable pub step : SessionStore → Op → SessionStore
unfolding Session.create Session.get_valid Session.touch remove_session reap_expired
step s (Op.create now id user role) = (Session.create s now id user role).1
step s (Op.get_valid a b now id) = (Session.get_valid s a b now id).1
step s (Op.touch now id) = Session.touch s now id
step s (Op.remove id) = remove_session s id
step s (Op.reap reads) = (reap_expired s reads).1

unfoldable pub run : SessionStore → List Op → SessionStore
unfolding step
run s [] = s
run s (op ∷ ops) = run (step s op) ops

-- Who a session belongs to, what it may do, and when it began.
pub record SameIdentity (a b : Session) : Type 0 where
  pub id : a.id ≡ b.id
  pub user : a.user ≡ b.user
  pub role : a.role ≡ b.role
  pub created_at : a.created_at ≡ b.created_at

-- `id` holds no session, or one with the identity of `x`.
abbrev pub HoldsOnly : Session → Option Session → Type 0
HoldsOnly x none = Unit
HoldsOnly x (some y) = SameIdentity y x

-- The operation does not create a session under `id`.
abbrev pub Spares : Text → Op → Type 0
Spares id (Op.create now new_id user role) = new_id ≢ id
Spares id _ = Unit

HoldsOnly-if :
    (x : Session) (b : Bool) (o p : Option Session)
    → (b ≡ true → HoldsOnly x o)
    → (b ≡ false → HoldsOnly x p)
    → HoldsOnly x (if b then o else p)
HoldsOnly-if x true o p ho hp = ho refl
HoldsOnly-if x false o p ho hp = hp refl

HoldsOnly-refresh :
    (x : Session) (now : Instant) (o : Option Session)
    → HoldsOnly x o
    → HoldsOnly x (map_some (λ y. record y { last_activity = now }) o)
HoldsOnly-refresh x now none h = tt
HoldsOnly-refresh x now (some y) h = record {
  id = h.id;
  user = h.user;
  role = h.role;
  created_at = h.created_at;
}

HoldsOnly-keep :
    (x : Session) (p : Session → Bool) (o : Option Session)
    → HoldsOnly x o
    → HoldsOnly x (keep_if p o)
HoldsOnly-keep x p none h = tt
HoldsOnly-keep x p (some y) h = HoldsOnly-if x (p y) (some y) none (λ _. h) (λ _. tt)

-- What a session becomes when `get_valid` names it.
unfoldable pub renewed :
    SessionStore → Instant → Instant → Instant → Option Session → Option Session
renewed s t_idle t_age now o =
    map_some (λ y. record y { last_activity = now })
      (keep_if (λ y. idle_ok s t_idle y && age_ok s t_age y) o)

pub get-get_valid :
    (s : SessionStore) (t_idle t_age now : Instant) (j id : Text)
    → get id (Session.get_valid s t_idle t_age now j).1.inner
      ≡ (if j == id then renewed s t_idle t_age now (get id s.inner) else get id s.inner)
unfolding Session.get_valid renewed
get-get_valid s t_idle t_age now j id = ground (
  arith,
  ==_iff j id,
  get-remove j id s.inner,
  get-modify j id (λ (y : Session). record y { last_activity = now }) s.inner,
)

IsMap-get_valid :
    (s : SessionStore) (t_idle t_age now : Instant) (j : Text)
    → IsMap s.inner
    → IsMap (Session.get_valid s t_idle t_age now j).1.inner
unfolding Session.get_valid
IsMap-get_valid s t_idle t_age now j d = ground (
  arith,
  IsMap-remove j s.inner d,
  IsMap-modify j (λ (y : Session). record y { last_activity = now }) s.inner d,
)

-- The ids of the store stay distinct.
pub IsMap-step : (s : SessionStore) (op : Op) → IsMap s.inner → IsMap (step s op).inner
unfolding step
IsMap-step s (Op.create now id user role) d = IsMap-insert _ _ _ d
IsMap-step s (Op.get_valid a b now id) d = IsMap-get_valid s a b now id d
IsMap-step s (Op.touch now id) d = IsMap-modify _ _ _ d
IsMap-step s (Op.remove id) d = IsMap-remove _ _ d
IsMap-step s (Op.reap reads) d = IsMap-retain _ _ d

pub HoldsOnly-step :
    (s : SessionStore) (op : Op) (id : Text) (x : Session)
    → IsMap s.inner
    → Spares id op
    → HoldsOnly x (get id s.inner)
    → HoldsOnly x (get id (step s op).inner)
unfolding step renewed
HoldsOnly-step s (Op.create now j user role) id x d ne h =
    rw get-insert (HoldsOnly-if x (j == id) _ _ (λ e. absurd (ne ((==_iff j id).0 e))) (λ _. h))
HoldsOnly-step s (Op.get_valid a b now j) id x d ne h = rw get-get_valid (
    HoldsOnly-if x (j == id) _ _
      (λ _. HoldsOnly-refresh x now _ (HoldsOnly-keep x _ (get id s.inner) h)) (λ _. h))
HoldsOnly-step s (Op.touch now j) id x d ne h =
    rw get-modify
      (HoldsOnly-if x (j == id) _ _ (λ _. HoldsOnly-refresh x now (get id s.inner) h) (λ _. h))
HoldsOnly-step s (Op.remove j) id x d ne h =
    rw get-remove (HoldsOnly-if x (j == id) _ _ (λ _. tt) (λ _. h))
HoldsOnly-step s (Op.reap reads) id x d ne h =
    let live = λ (y : Session). idle_ok s (reads y).0 y && age_ok s (reads y).1 y in
    rw (get-retain live id s.inner d) (HoldsOnly-keep x live (get id s.inner) h)

pub step_const :
    (s : SessionStore) (op : Op)
    → ((step s op).idle_timeout_secs ≡ s.idle_timeout_secs)
      × ((step s op).max_lifetime_secs ≡ s.max_lifetime_secs)
unfolding step
step_const s (Op.create now id user role) = (refl, refl)
step_const s (Op.get_valid a b now id) = ground arith
step_const s (Op.touch now id) = (refl, refl)
step_const s (Op.remove id) = (refl, refl)
step_const s (Op.reap reads) = (refl, refl)
