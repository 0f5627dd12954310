-- ===== src/Gateway/AgentAuth/Tokens/Runs.antt =====
-- Runs of the bootstrap registry's operations, in any order, and how often a token is accepted.
use tenodera.Prelude.{
  ◌≡◌, ℕ, ◌+◌, ◌≤◌, Bool, true, false, not, ◌&&◌, Option, none, some, List, [], ◌∷◌, String,
  string_eq, Text, text_eq, ◌==◌, arith, if◌then◌else◌, find, retain, All, All-retain, is_some,
}
use tenodera.Dict.Laws.{IsMap-insert, IsMap-modify, IsMap-retain, IsMap-remove}
use tenodera.Gateway.AgentAuth.Tokens.Uses.{
  LimitsAll, IsLimited, left_total, validate-uses, left_total-retain,
}
use tenodera.Dict.{IsMap, insert, remove, modify}
use tenodera.Std.Time.{Instant}
use tenodera.Gateway.AgentAuth.Compare.{constant_time_eq}
use tenodera.Gateway.AgentAuth.Tokens
use tenodera.Gateway.AgentAuth.Tokens.{
  BootstrapToken, BootstrapRegistry, Request, use_once, presented, is_exhausted, is_valid_for,
  reached, is_expired, consume, validate_and_consume, revoke, cleanup,
}

pub data Op : Type 0 where
  create : Instant → String → String → Request → Op
  validate : Instant → String → Text → Op
  revoke_token : String → Op
  sweep : Instant → Op

module _ (digest : String → Text) where
  unfoldable pub step : BootstrapRegistry → Op → BootstrapRegistry
  unfolding validate_and_consume Tokens.create revoke cleanup
  step m (create now id value req) = Tokens.create digest m now id value req
  step m (validate now value host) = (validate_and_consume digest m now value host).1
  step m (revoke_token id) = (revoke m id).1
  step m (sweep now) = cleanup m now

  -- Whether a call is a validation of the token value that succeeds, as a number.
  unfoldable pub accepted : String → BootstrapRegistry → Op → ℕ
  unfolding validate_and_consume
  accepted v m (validate now w host) =
      if is_some ((validate_and_consume digest m now w host).0) && w == v then 1 else 0
  accepted v m (create now id value req) = 0
  accepted v m (revoke_token id) = 0
  accepted v m (sweep now) = 0

  -- How many of the validations of a token value succeed.
  abbrev pub uses : String → BootstrapRegistry → List Op → ℕ
  uses v m [] = 0
  uses v m (op ∷ ops) = accepted v m op + uses v (step m op) ops

  -- No token with the value's digest is created.
  abbrev pub CreatesOther : String → Op → Type 0
  CreatesOther v (create now id value req) = constant_time_eq (digest value) (digest v) ≡ false
  CreatesOther v op = Unit

LimitsAll-modify :
    (d : Text) (k : String) (m : BootstrapRegistry)
    → LimitsAll d m
    → LimitsAll d (modify k use_once m)
unfolding modify
LimitsAll-modify d k [] l = tt
LimitsAll-modify d k ((j, t) ∷ m) (here, l) =
    elim (j == k)
      as (λ b. LimitsAll d (if b then (j, use_once t) ∷ m else (j, t) ∷ modify k use_once m)) [
        | true ↦ (here, l)
        | false ↦ (here, LimitsAll-modify d k m l)
      ]

LimitsAll-retain :
    (d : Text) (p : String × BootstrapToken → Bool) (m : BootstrapRegistry)
    → LimitsAll d m
    → LimitsAll d (retain p m)
LimitsAll-retain d p m l =
    All-retain
      (λ (e : String × BootstrapToken). constant_time_eq e.1.value_digest d ≡ true → IsLimited e.1)
      p m l

LimitsAll-insert :
    (d : Text) (k : String) (t : BootstrapToken) (m : BootstrapRegistry)
    → constant_time_eq t.value_digest d ≡ false
    → LimitsAll d m
    → LimitsAll d (insert k t m)
unfolding insert
LimitsAll-insert d k t [] c l = (λ e. absurd (cc), tt)
LimitsAll-insert d k t ((j, u) ∷ m) c (here, l) =
    elim (j == k) as (λ b. LimitsAll d (if b then (j, t) ∷ m else (j, u) ∷ insert k t m)) [
      | true ↦ (λ e. absurd (cc), l)
      | false ↦ (here, LimitsAll-insert d k t m c l)
    ]

left_total-insert-le :
    (d : Text) (k : String) (t : BootstrapToken) (m : BootstrapRegistry)
    → constant_time_eq t.value_digest d ≡ false
    → left_total d (insert k t m) ≤ left_total d m
unfolding insert left_total
left_total-insert-le d k t [] c = ground (arith, c)
left_total-insert-le d k t ((j, u) ∷ m) c = ground (arith, c, left_total-insert-le d k t m c)

IsMap-consume :
    (m : BootstrapRegistry) (now : Instant) (host : Text) (o : Option (String × BootstrapToken))
    → IsMap m
    → IsMap ((consume m now host o).1)
unfolding consume is_valid_for
IsMap-consume m now host none h = h
IsMap-consume m now host (some (k, t)) h =
    let used = IsMap-modify k use_once m h in
    ground (arith, used, IsMap-remove t.id (modify k use_once m) used)

LimitsAll-consume :
    (d : Text) (m : BootstrapRegistry) (now : Instant) (host : Text)
    (o : Option (String × BootstrapToken))
    → LimitsAll d m
    → LimitsAll d ((consume m now host o).1)
unfolding consume is_valid_for remove
LimitsAll-consume d m now host none l = l
LimitsAll-consume d m now host (some (k, t)) l =
    let used = LimitsAll-modify d k m l in
    ground (arith, used, LimitsAll-retain d (λ e. not (e.0 == t.id)) (modify k use_once m) used)

module _ (digest : String → Text) where
  IsMap-step : (m : BootstrapRegistry) (op : Op) → IsMap m → IsMap (step digest m op)
  unfolding step validate_and_consume Tokens.create revoke cleanup
  IsMap-step m (create now id value req) h = IsMap-insert id _ m h
  IsMap-step m (validate now w host) h = IsMap-consume m now host (find (presented digest w) m) h
  IsMap-step m (revoke_token id) h = IsMap-remove id m h
  IsMap-step m (sweep now) h = IsMap-retain _ m h

  LimitsAll-step :
      (v : String) (m : BootstrapRegistry) (op : Op)
      → CreatesOther digest v op
      → LimitsAll (digest v) m
      → LimitsAll (digest v) (step digest m op)
  unfolding step validate_and_consume Tokens.create revoke cleanup remove
  LimitsAll-step v m (create now id value req) c l = LimitsAll-insert (digest v) id _ m c l
  LimitsAll-step v m (validate now w host) c l =
      LimitsAll-consume (digest v) m now host (find (presented digest w) m) l
  LimitsAll-step v m (revoke_token id) c l = LimitsAll-retain (digest v) _ m l
  LimitsAll-step v m (sweep now) c l = LimitsAll-retain (digest v) _ m l

  step-uses :
      (v : String) (m : BootstrapRegistry) (op : Op)
      → CreatesOther digest v op
      → IsMap m
      → LimitsAll (digest v) m
      → accepted digest v m op + left_total (digest v) (step digest m op) ≤ left_total (digest v) m
  unfolding step validate_and_consume Tokens.create revoke cleanup remove accepted
  step-uses v m (create now id value req) c h l =
      omega (arith, left_total-insert-le (digest v) id _ m c)
  step-uses v m (validate now w host) c h l = omega (arith, validate-uses digest v m now w host h l)
  step-uses v m (revoke_token id) c h l = omega (arith, left_total-retain (digest v) _ m)
  step-uses v m (sweep now) c h l = omega (arith, left_total-retain (digest v) _ m)

  -- Over any sequence of calls that creates no token with the same digest, and from distinct ids
  -- and limited tokens, the validations of a token value succeed at most as often as the tokens
  -- with its digest have uses left.
  pub uses_bounded :
      (v : String) (m : BootstrapRegistry) (ops : List Op)
      → All (CreatesOther digest v) ops
      → IsMap m
      → LimitsAll (digest v) m
      → uses digest v m ops ≤ left_total (digest v) m
  uses_bounded v m [] others h l = omega arith
  uses_bounded v m (op ∷ ops) (other, others) h l = omega (
    arith,
    step-uses v m op other h l,
    uses_bounded v (step digest m op) ops others (IsMap-step m op h)
        (LimitsAll-step v m op other l),
  )
