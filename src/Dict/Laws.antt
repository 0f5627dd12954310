-- ===== src/Dict/Laws.antt =====
-- What a look-up finds after each operation, and that the keys stay distinct.
use tenodera.Prelude.{
  ◌+◌, ◌≤◌, ◌≡◌, refl, Bool, Option, none, some, [], ◌∷◌, arith, Key, ◌==◌, ==_iff, if◌then◌else◌,
  retain, length,
}
use tenodera.Dict.{Dict, get, contains_key, insert, remove, modify, IsMap}

-- An entry survives if it passes.
abbrev pub keep_if {ℓ} : {A : Type ℓ} → (A → Bool) → Option A → Option A
keep_if p none = none
keep_if p (some a) = if p a then some a else none

abbrev pub map_some {ℓ} : {A : Type ℓ} → (A → A) → Option A → Option A
map_some f none = none
map_some f (some a) = some (f a)

module _ {ℓ κ} {K : Type ℓ} {V : Type κ} ⦃e : Key K⦄ where
  pub get-insert :
      (k j : K) (v : V) (m : Dict K V) → get j (insert k v m) ≡ (if k == j then some v else get j m)
  unfolding get insert
  get-insert k j v [] = refl
  get-insert k j v ((i, w) ∷ m) =
      ground (arith, ==_iff k j, ==_iff i k, ==_iff i j, get-insert k j v m)

  pub get-remove :
      (k j : K) (m : Dict K V) → get j (remove k m) ≡ (if k == j then none else get j m)
  unfolding get remove
  get-remove k j [] = ground arith
  get-remove k j ((i, w) ∷ m) = ground (arith, ==_iff k j, ==_iff i k, ==_iff i j, get-remove k j m)

  pub get-modify :
      (k j : K) (f : V → V) (m : Dict K V)
      → get j (modify k f m) ≡ (if k == j then map_some f (get j m) else get j m)
  unfolding get modify
  get-modify k j f [] = ground arith
  get-modify k j f ((i, w) ∷ m) =
      ground (arith, ==_iff k j, ==_iff i k, ==_iff i j, get-modify k j f m)

  get-retain-none :
      (p : K × V → Bool) (k : K) (m : Dict K V) → get k m ≡ none → get k (retain p m) ≡ none
  unfolding get
  get-retain-none p k [] h = refl
  get-retain-none p k ((i, w) ∷ m) h = ground (arith, get-retain-none p k m)

  -- `retain` with a test of the values, over distinct keys.
  pub get-retain :
      (p : V → Bool) (k : K) (m : Dict K V)
      → IsMap m
      → get k (retain (λ q. p q.1) m) ≡ keep_if p (get k m)
  unfolding get
  get-retain p k [] h = refl
  get-retain p k ((i, w) ∷ m) (fresh, h) =
      ground
        (arith, ==_iff i k, get-retain p k m h, get-retain-none (λ (q : K × V). p q.1) i m fresh)

  pub IsMap-insert : (k : K) (v : V) (m : Dict K V) → IsMap m → IsMap (insert k v m)
  unfolding get insert
  IsMap-insert k v [] h = (refl, tt)
  IsMap-insert k v ((i, w) ∷ m) (fresh, h) =
      ground (arith, ==_iff i k, ==_iff k i, get-insert k i v m, IsMap-insert k v m h)

  pub IsMap-retain : (p : K × V → Bool) (m : Dict K V) → IsMap m → IsMap (retain p m)
  IsMap-retain p [] h = tt
  IsMap-retain p ((i, w) ∷ m) (fresh, h) =
      ground (arith, get-retain-none p i m fresh, IsMap-retain p m h)

  pub IsMap-remove : (k : K) (m : Dict K V) → IsMap m → IsMap (remove k m)
  unfolding remove
  IsMap-remove k m h = IsMap-retain _ m h

  pub IsMap-modify : (k : K) (f : V → V) (m : Dict K V) → IsMap m → IsMap (modify k f m)
  unfolding get modify
  IsMap-modify k f [] h = tt
  IsMap-modify k f ((i, w) ∷ m) (fresh, h) =
      ground (arith, ==_iff i k, ==_iff k i, get-modify k i f m, IsMap-modify k f m h)

  pub length-insert :
      (k : K) (v : V) (m : Dict K V)
      → length (insert k v m) ≡ (if contains_key k m then length m else length m + 1)
  unfolding get insert contains_key
  length-insert k v [] = ground arith
  length-insert k v ((i, w) ∷ m) = ground (arith, length-insert k v m)

  pub length-remove-le : (k : K) (m : Dict K V) → length (remove k m) ≤ length m
  unfolding remove
  length-remove-le k [] = omega arith
  length-remove-le k ((i, w) ∷ m) = ground (arith, length-remove-le k m)

  pub ruleset dict_laws = (get-insert, get-remove, get-modify)
