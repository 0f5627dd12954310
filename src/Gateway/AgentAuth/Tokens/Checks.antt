-- ===== src/Gateway/AgentAuth/Tokens/Checks.antt =====
-- What a token has to be for `validate_and_consume` to accept it.
use mathlib.Core.Path.{subst}
use tenodera.Prelude.{
  ◌≡◌, ◌⊎◌, refl, ap, ℕ, ◌≤◌, ◌<◌, ltb, Option, [], ◌∷◌, text_eq, ◌==◌, ==_iff, All, Bool-cases,
  Bool, true, false, none, some, String, string_eq, Text, arith, find, Option-cases, inl, inr,
}
use tenodera.Dict.{IsMap, get}
use tenodera.Std.Time.{Instant}
use tenodera.Gateway.AgentAuth.Compare.{IsBytes, constant_time_eq_iff}
use tenodera.Gateway.AgentAuth.Tokens.{
  BootstrapToken, BootstrapRegistry, reached, bound_elsewhere, is_expired, is_exhausted,
  is_valid_for, presented, consume, validate_and_consume,
}
use tenodera.Gateway.AgentAuth.Tokens.Uses.{find-get}

-- A number of uses below its bound, if any.
abbrev pub IsLeft : Option ℕ → ℕ → Type 0
IsLeft none n = Unit
IsLeft (some max) n = n < max

reached-IsLeft : (o : Option ℕ) (n : ℕ) → reached o n ≡ false → IsLeft o n
reached-IsLeft none n h = tt
reached-IsLeft (some max) n h = ground arith

bound_elsewhere_lem :
    (o : Option Text) (host : Text) → bound_elsewhere o host ≡ false → (o ≡ none) ⊎ (o ≡ some host)
bound_elsewhere_lem none host h = inl refl
bound_elsewhere_lem (some bound) host h =
    inr (ap (λ x. some x) ((==_iff bound host).0 (ground arith)))

is_expired_lem :
    (t : BootstrapToken) (now : Instant) → is_expired t now ≡ false → now ≤ t.expires_at
unfolding is_expired
is_expired_lem t now h = ground arith

is_exhausted_lem :
    (t : BootstrapToken)
    → is_exhausted t ≡ false
    → ((t.single_use ≡ false) ⊎ (t.use_count ≡ 0)) × IsLeft t.max_uses t.use_count
unfolding is_exhausted
is_exhausted_lem t h = elim (Bool-cases t.single_use) [
  | inr many ↦ (inl many, reached-IsLeft t.max_uses t.use_count (rw many at h))
  | inl one ↦ elim (Bool-cases (ltb 0 t.use_count)) [
    | inl used ↦ absurd (ground (arith, one, used))
    | inr unused ↦
        (inr (ground arith), reached-IsLeft t.max_uses t.use_count (rw (one, unused) at h))
  ]
]

is_valid_for_lem :
    (t : BootstrapToken) (now : Instant) (host : Text)
    → is_valid_for t now host ≡ true
    → (now ≤ t.expires_at)
      × ((t.single_use ≡ false) ⊎ (t.use_count ≡ 0))
      × IsLeft t.max_uses t.use_count
      × ((t.bound_hostname ≡ none) ⊎ (t.bound_hostname ≡ some host))
unfolding is_valid_for
is_valid_for_lem t now host h =
    let fresh : is_expired t now ≡ false = ground arith in
    let left : is_exhausted t ≡ false = ground arith in
    let here : bound_elsewhere t.bound_hostname host ≡ false = ground arith in
    let (uses, room) = is_exhausted_lem t left in
    (is_expired_lem t now fresh, uses, room, bound_elsewhere_lem t.bound_hostname host here)

-- Digests are bytes.
abbrev pub HasBytes : BootstrapRegistry → Type 0
HasBytes m = All (λ (e : String × BootstrapToken). IsBytes e.1.value_digest) m

HasBytes-get :
    (key : String) (t : BootstrapToken) (m : BootstrapRegistry)
    → HasBytes m
    → get key m ≡ some t
    → IsBytes t.value_digest
unfolding get
HasBytes-get key t [] h e = absurd (ground arith)
HasBytes-get key t ((k, u) ∷ m) (b, h) e = elim (Bool-cases (k == key)) [
  | inl here ↦
      let same : some u ≡ some t = rw here at e in
      let one : u ≡ t = cc in subst (λ (x : BootstrapToken). IsBytes x.value_digest) one b
  | inr away ↦ HasBytes-get key t m h (rw away at e)
]

-- A token that the registry holds, and that is good for a value, a time and a host.
abbrev pub IsGood :
    (String → Text)
    → BootstrapRegistry
    → Instant
    → String
    → Text
    → Bool
    → String
    → BootstrapToken
    → Type 0
IsGood digest m now value host re_enroll key t =
    (get key m ≡ some t)
    × (t.value_digest ≡ digest value)
    × (now ≤ t.expires_at)
    × ((t.single_use ≡ false) ⊎ (t.use_count ≡ 0))
    × IsLeft t.max_uses t.use_count
    × ((t.bound_hostname ≡ none) ⊎ (t.bound_hostname ≡ some host))
    × (t.re_enroll ≡ re_enroll)

-- In a registry with distinct ids, where digests are bytes, a validation that succeeds has found a
-- token of the registry whose digest is the value's, not past its expiry, unused if it is for one
-- use, used less often than its bound says, bound to no host name or to this one, and it returns
-- that token's re-enrolment flag.
pub validate_sound :
    (digest : String → Text) (m : BootstrapRegistry) (now : Instant) (value : String) (host : Text)
    (re_enroll : Bool)
    → IsMap m
    → HasBytes m
    → IsBytes (digest value)
    → (validate_and_consume digest m now value host).0 ≡ some re_enroll
    → (key : String) × (t : BootstrapToken) × IsGood digest m now value host re_enroll key t
unfolding validate_and_consume consume
validate_sound digest m now value host re_enroll h stored given e =
    elim (Option-cases (find (presented digest value) m)) [
      | inl missing ↦ absurd (ground (arith, missing))
      | inr ((k, t), found) ↦
          let (at, hit) = find-get (presented digest value) k t m h found in
          let ok : is_valid_for t now host ≡ true = ground (arith, found) in
          let flag : t.re_enroll ≡ re_enroll = ground (arith, found, ok) in
          let bytes = HasBytes-get k t m stored at in
          let same = (constant_time_eq_iff t.value_digest (digest value) bytes given).0 hit in
          let (fresh, uses, room, here) = is_valid_for_lem t now host ok in
          (k, t, (at, same, fresh, uses, room, here, flag))
    ]

-- A refused value leaves the registry as it was.
pub validate_refuses :
    (digest : String → Text) (m : BootstrapRegistry) (now : Instant) (value : String) (host : Text)
    → (validate_and_consume digest m now value host).0 ≡ none
    → (validate_and_consume digest m now value host).1 ≡ m
unfolding validate_and_consume consume
validate_refuses digest m now value host e = ground arith
