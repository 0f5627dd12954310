-- ===== src/Gateway/Session/Tests.antt =====
-- Runs of the session store, and the theorems about it at inputs that meet their hypotheses.
use tenodera.Prelude.{
  ◌≡◌, refl, ℕ, ◌≤◌, none, some, List, [], ◌∷◌, arith, Text, text_eq, text_beq, codes,
  if◌then◌else◌, ◌==◌, inl,
}
use tenodera.Std.Time.{as_secs, duration_since}
use tenodera.Dict.{get}
use tenodera.Gateway.Session
use tenodera.Gateway.Session.{
  Role, Session, SessionStore, admin, readonly, new, get_session, get_valid, touch, reap_expired,
  count,
}
use tenodera.Gateway.Session.Steps.{Op, run, SameIdentity}
use tenodera.Gateway.Session.Validity.{get_valid_sound, get_valid_refuses}
use tenodera.Gateway.Session.Lifetime.{identity_fixed, lifetime_cap, touch_revives}

abbrev alice : Session
alice = record {
  id = codes "6f1c";
  user = "alice";
  role = admin;
  created_at = 0;
  last_activity = 0;
}

abbrev one_session : SessionStore
one_session = record {
  inner = (codes "6f1c", alice) ∷ [];
  idle_timeout_secs = 900;
  max_lifetime_secs = 14400;
}

create_stores :
    (Session.create (new 900) 7 (codes "a") "bob" readonly).1.inner
    ≡ (
      codes "a",
      record { id = codes "a"; user = "bob"; role = readonly; created_at = 7; last_activity = 7 },
    )
      ∷ []
unfolding Session.create new
create_stores = refl

-- After 900.5 seconds the idle time still reads as 900 seconds, after 901 it does not.
accepted_at_900 :
    (get_valid one_session 900_500_000_000 900_500_000_000 900_500_000_000 (codes "6f1c")).0
    ≡ some (record alice { last_activity = 900_500_000_000 })
unfolding get_valid text_beq
accepted_at_900 = refl

refused_at_901 :
    (get_valid one_session 901_000_000_000 901_000_000_000 901_000_000_000 (codes "6f1c")).0 ≡ none
unfolding get_valid text_beq
refused_at_901 = refl

found : get_session one_session (codes "6f1c") ≡ some alice
unfolding get_session text_beq
found = refl

get_valid_sound_example :
    (y : Session) × (get_session one_session (codes "6f1c") ≡ some y)
    × (as_secs (duration_since 900_500_000_000 y.last_activity) ≤ 900)
    × (as_secs (duration_since 900_500_000_000 y.created_at) ≤ 14400)
    × SameIdentity (record alice { last_activity = 900_500_000_000 }) y
    × (◌≡◌ {A = ℕ} 900_500_000_000 900_500_000_000)
    × (get_session
          (get_valid one_session 900_500_000_000 900_500_000_000 900_500_000_000 (codes "6f1c")).1
          (codes "6f1c")
        ≡ some (record alice { last_activity = 900_500_000_000 }))
get_valid_sound_example =
    get_valid_sound one_session 900_500_000_000 900_500_000_000 900_500_000_000 (codes "6f1c")
      accepted_at_900

get_valid_refuses_example :
    ((get_valid one_session 901_000_000_000 0 0 (codes "6f1c")).0 ≡ none)
    × ((j : Text)
        → get_session (get_valid one_session 901_000_000_000 0 0 (codes "6f1c")).1 j
          ≡ (if codes "6f1c" == j then none else get_session one_session j))
get_valid_refuses_example =
    get_valid_refuses one_session 901_000_000_000 0 0 (codes "6f1c") found (inl (omega arith))

abbrev busy : List Op
busy =
    Op.touch 800_000_000_000 (codes "6f1c")
    ∷ Op.get_valid 900_000_000_000 900_000_000_000 900_000_000_001 (codes "6f1c")
    ∷ []

still_there :
    get_session (run one_session busy) (codes "6f1c")
    ≡ some (record alice { last_activity = 900_000_000_001 })
unfolding get_session run text_beq
still_there = refl

identity_fixed_example : SameIdentity (record alice { last_activity = 900_000_000_001 }) alice
unfolding get
identity_fixed_example =
    identity_fixed one_session busy (codes "6f1c") (refl, tt) found (tt, (tt, tt)) still_there

lifetime_cap_example :
    (get_valid (run one_session busy) 0 14401_000_000_000 0 (codes "6f1c")).0 ≡ none
unfolding get
lifetime_cap_example =
    lifetime_cap one_session busy (codes "6f1c") 0 14401_000_000_000 0 (refl, tt) found
      (tt, (tt, tt)) (omega arith)

touch_revives_example :
    ((get_valid one_session 1000_000_000_000 1000_000_000_000 1000_000_000_000 (codes "6f1c")).0
      ≡ none)
    × ((get_valid
          (touch one_session 1000_000_000_000 (codes "6f1c"))
          1000_000_000_000
          1000_000_000_000
          1000_000_000_000
          (codes "6f1c")).0
        ≡ some (record alice { last_activity = 1000_000_000_000 }))
touch_revives_example =
    touch_revives one_session (codes "6f1c") 1000_000_000_000 found (omega arith) (omega arith)
