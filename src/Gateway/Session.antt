-- ===== src/Gateway/Session.antt =====
-- panel/crates/gateway/src/session.rs: the store of live sessions. A method holds the lock
-- throughout; each read of the clock is an argument, in the order of the reads.
pub mod Steps
pub mod Validity
pub mod Lifetime
mod Tests
use tenodera.Prelude.{
  Bool, not, ◌&&◌, ℕ, ◌-◌, ◌*◌, Option, none, some, [], leb, if◌then◌else◌, length, retain, String,
  Text, text_eq,
}
use tenodera.Dict.{Dict, get, insert, remove, modify}
use tenodera.Std.Time.{Instant, as_secs, duration_since}

pub data Role : Type 0 where
  admin readonly : Role

pub record Session : Type 0 where
  pub id : Text
  pub user : String
  pub role : Role
  pub created_at : Instant
  pub last_activity : Instant

pub record SessionStore : Type 0 where
  pub inner : Dict Text Session
  pub idle_timeout_secs : ℕ
  pub max_lifetime_secs : ℕ

-- Four hours.
abbrev pub default_max_lifetime_secs : ℕ
default_max_lifetime_secs = 4 * 3600

unfoldable pub new : ℕ → SessionStore
new idle_timeout_secs = record {
  inner = [];
  idle_timeout_secs = idle_timeout_secs;
  max_lifetime_secs = default_max_lifetime_secs;
}

-- `fresh_id` is the text of `Uuid::new_v4()`.
unfoldable pub create : SessionStore → Instant → Text → String → Role → Session × SessionStore
unfolding insert
create self now fresh_id user role =
    let session : Session = record {
      id = fresh_id;
      user = user;
      role = role;
      created_at = now;
      last_activity = now;
    } in
    (session, record self { inner = insert fresh_id session self.inner })

unfoldable pub get_session : SessionStore → Text → Option Session
unfolding get
get_session self id = get id self.inner

-- `idle_ok` and `age_ok`, by the clock at `t_idle` and at `t_age`.
unfoldable pub idle_ok : SessionStore → Instant → Session → Bool
idle_ok self t_idle session =
    leb (as_secs (duration_since t_idle session.last_activity)) self.idle_timeout_secs

unfoldable pub age_ok : SessionStore → Instant → Session → Bool
age_ok self t_age session =
    leb (as_secs (duration_since t_age session.created_at)) self.max_lifetime_secs

unfoldable pub get_valid :
    SessionStore → Instant → Instant → Instant → Text → Option Session × SessionStore
unfolding get remove modify idle_ok age_ok
get_valid self t_idle t_age now id = elim (get id self.inner) [
  | none ↦ (none, self)
  | some session ↦
      if not (idle_ok self t_idle session && age_ok self t_age session)
      then (none, record self { inner = remove id self.inner })
      else (
        some (record session { last_activity = now }),
        record self { inner = modify id (λ s. record s { last_activity = now }) self.inner },
      )
]

unfoldable pub touch : SessionStore → Instant → Text → SessionStore
unfolding modify
touch self now id = record self {
  inner = modify id (λ s. record s { last_activity = now }) self.inner;
}

unfoldable pub remove_session : SessionStore → Text → SessionStore
unfolding remove
remove_session self id = record self { inner = remove id self.inner }

unfoldable pub count : SessionStore → ℕ
count self = length self.inner

-- `reads` gives the two clock reads that are made for each session.
unfoldable pub reap_expired : SessionStore → (Session → Instant × Instant) → ℕ × SessionStore
unfolding idle_ok age_ok
reap_expired self reads =
    let before = length self.inner in
    let kept =
      retain (λ q. idle_ok self (reads q.1).0 q.1 && age_ok self (reads q.1).1 q.1) self.inner in
    (before - length kept, record self { inner = kept })
