-- ===== src/Gateway/AgentAuth/Tokens/Uses.antt =====
-- How often a bootstrap token can be used.
use tenodera.Prelude.{
  ◌≡◌, ◌≢◌, refl, ℕ, ◌+◌, ◌-◌, ◌%◌, ◌^◌, ◌≤◌, ◌<◌, Bool, true, false, not, ◌&&◌, Option, none, some,
  [], ◌∷◌, String, string_eq, Text, text_eq, ◌==◌, ==_iff, arith, if◌then◌else◌, find, retain, All,
  is_some, ltb, Bool-cases, inl, inr, Option-cases,
}
use mathlib.Core.Path.{subst}
use Prim.Native.Nat.{min}
use tenodera.Dict.{IsMap, get, modify}
use tenodera.Std.Time.{Instant}
use tenodera.Gateway.AgentAuth.Compare.{constant_time_eq}
use tenodera.Gateway.AgentAuth.Tokens.{
  BootstrapToken, BootstrapRegistry, use_once, presented, is_exhausted, is_valid_for, reached,
  consume, validate_and_consume,
}

-- How often a token whose uses are limited can still be used.
unfoldable pub left_of : Bool → Option ℕ → ℕ → ℕ
left_of single none n = 1 - n
left_of single (some max) n = if single then min (1 - n) (max - n) else max - n

unfoldable pub left : BootstrapToken → ℕ
unfolding left_of
left t = left_of t.single_use t.max_uses t.use_count

-- The same of all the tokens with one digest.
unfoldable pub left_total : Text → BootstrapRegistry → ℕ
left_total d [] = 0
left_total d ((k, t) ∷ m) =
    (if constant_time_eq t.value_digest d then left t else 0) + left_total d m

-- Uses that are limited, by a u32.
abbrev pub Limits : Bool → Option ℕ → Type 0
Limits single none = single ≡ true
Limits single (some max) = max < 2 ^ 32

abbrev pub IsLimited : BootstrapToken → Type 0
IsLimited t = Limits t.single_use t.max_uses

-- All the tokens with a digest are limited, and stand under their own ids.
abbrev pub LimitsAll : Text → BootstrapRegistry → Type 0
LimitsAll d =
    All
      (λ (e : String × BootstrapToken). constant_time_eq e.1.value_digest d ≡ true → IsLimited e.1)

left_of-use :
    (single : Bool) (m : Option ℕ) (n : ℕ)
    → Limits single m
    → (if single && ltb 0 n then true else reached m n) ≡ false
    → left_of single m ((n + 1) % 2 ^ 32) + 1 ≤ left_of single m n
unfolding left_of
left_of-use single none n limited h = ground arith
left_of-use single (some max) n limited h = ground arith

left-use_once :
    (t : BootstrapToken) → IsLimited t → is_exhausted t ≡ false → left (use_once t) + 1 ≤ left t
unfolding is_exhausted left left_of
left-use_once t limited h = left_of-use t.single_use t.max_uses t.use_count limited h

pub left_total-retain :
    (d : Text) (p : String × BootstrapToken → Bool) (m : BootstrapRegistry)
    → left_total d (retain p m) ≤ left_total d m
unfolding left_total
left_total-retain d p [] = omega arith
left_total-retain d p ((k, t) ∷ m) = ground (arith, left_total-retain d p m)

-- A use of a token with another digest.
left_total-modify_other :
    (d : Text) (k : String) (t : BootstrapToken) (m : BootstrapRegistry)
    → get k m ≡ some t
    → constant_time_eq t.value_digest d ≡ false
    → left_total d (modify k use_once m) ≡ left_total d m
unfolding left_total modify get
left_total-modify_other d k t [] h c = refl
left_total-modify_other d k t ((j, u) ∷ m) h c = ground (arith, left_total-modify_other d k t m)

left_total-modify :
    (d : Text) (k : String) (t : BootstrapToken) (m : BootstrapRegistry)
    → get k m ≡ some t
    → constant_time_eq t.value_digest d ≡ true
    → left (use_once t) + 1 ≤ left t
    → left_total d (modify k use_once m) + 1 ≤ left_total d m
unfolding left_total modify get
left_total-modify d k t [] h c l = ground arith
left_total-modify d k t ((j, u) ∷ m) h c l = ground (arith, left_total-modify d k t m)

find-none-get :
    (p : String × BootstrapToken → Bool) (k : String) (t : BootstrapToken) (m : BootstrapRegistry)
    → get k m ≡ none
    → find p m ≢ some (k, t)
unfolding get
find-none-get p k t [] fresh e = ground arith
find-none-get p k t ((j, u) ∷ m) fresh e = ground (arith, ==_iff j k, find-none-get p k t m)

pub find-get :
    (p : String × BootstrapToken → Bool) (k : String) (t : BootstrapToken) (m : BootstrapRegistry)
    → IsMap m
    → find p m ≡ some (k, t)
    → (get k m ≡ some t) × (p (k, t) ≡ true)
unfolding get
find-get p k t [] h e = ground arith
find-get p k t ((j, u) ∷ m) (fresh, h) e =
    ground (arith, ==_iff j k, find-none-get p j t m fresh, find-get p k t m h)

LimitsAll-get :
    (d : Text) (k : String) (t : BootstrapToken) (m : BootstrapRegistry)
    → LimitsAll d m
    → get k m ≡ some t
    → constant_time_eq t.value_digest d ≡ true
    → IsLimited t
unfolding get
LimitsAll-get d k t [] l h c = ground arith
LimitsAll-get d k t ((j, u) ∷ m) (here, l) h c = elim (Bool-cases (j == k)) [
  | inl e ↦
      let same : some u ≡ some t = ground (arith, h) in
      let same : u ≡ t = cc in subst (λ x. IsLimited x) same (here (ground (arith, same)))
  | inr e ↦ LimitsAll-get d k t m l (ground arith) c
]

-- A use of one token, and what is left of its digest's.
use-left :
    (d : Text) (k : String) (t : BootstrapToken) (m : BootstrapRegistry)
    → LimitsAll d m
    → get k m ≡ some t
    → is_exhausted t ≡ false
    → left_total d (modify k use_once m) + (if constant_time_eq t.value_digest d then 1 else 0)
      ≤ left_total d m
use-left d k t m l h x = elim (Bool-cases (constant_time_eq t.value_digest d)) [
  | inl c ↦
      let less = left-use_once t (LimitsAll-get d k t m l h c) x in
      ground (arith, left_total-modify d k t m h c less)
  | inr c ↦ ground (arith, left_total-modify_other d k t m h c)
]

-- What a validation does to the uses that are left.
pub validate-uses :
    (digest : String → Text) (v : String) (m : BootstrapRegistry) (now : Instant) (w : String)
    (host : Text)
    → IsMap m
    → LimitsAll (digest v) m
    → left_total (digest v) ((validate_and_consume digest m now w host).1)
        + (if is_some ((validate_and_consume digest m now w host).0) && w == v then 1 else 0)
      ≤ left_total (digest v) m
unfolding validate_and_consume consume is_valid_for
validate-uses digest v m now w host h l = elim (Option-cases (find (presented digest w) m)) [
  | inl missing ↦ ground (arith, missing)
  | inr ((k, t), found) ↦
      let (at, hit) = find-get (presented digest w) k t m h found in
      ground (
        arith,
        found,
        hit,
        ==_iff w v,
        use-left (digest v) k t m l at,
        left_total-retain (digest v) (λ e. not (e.0 == t.id)) (modify k use_once m),
      )
]
