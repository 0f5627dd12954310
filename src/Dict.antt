-- ===== src/Dict.antt =====
-- std's `HashMap`, as an association list whose keys are distinct. The order in which the map is
-- walked is not specified by std; here it is the order of the list.
pub mod Laws
use tenodera.Prelude.{
  ◌≡◌, Bool, not, Option, none, some, List, [], ◌∷◌, Key, ◌==◌, if◌then◌else◌, retain, is_some,
}

abbrev pub Dict {ℓ κ} : Type ℓ → Type κ → Type (ℓ ⊔ κ)
Dict K V = List (K × V)

module _ {ℓ κ} {K : Type ℓ} {V : Type κ} ⦃e : Key K⦄ where
  unfoldable pub get : K → Dict K V → Option V
  get k [] = none
  get k ((j, v) ∷ m) = if j == k then some v else get k m

  unfoldable pub contains_key : K → Dict K V → Bool
  unfolding get
  contains_key k m = is_some (get k m)

  -- `insert`: an old value of the key is replaced.
  unfoldable pub insert : K → V → Dict K V → Dict K V
  insert k v [] = (k, v) ∷ []
  insert k v ((j, w) ∷ m) = if j == k then (j, v) ∷ m else (j, w) ∷ insert k v m

  unfoldable pub remove : K → Dict K V → Dict K V
  remove k m = retain (λ p. not (p.0 == k)) m

  -- `get_mut`, and a write through the reference that it returns.
  unfoldable pub modify : K → (V → V) → Dict K V → Dict K V
  modify k f [] = []
  modify k f ((j, v) ∷ m) = if j == k then (j, f v) ∷ m else (j, v) ∷ modify k f m

  unfoldable pub values : Dict K V → List V
  values [] = []
  values ((j, v) ∷ m) = v ∷ values m

  -- No key stands twice.
  abbrev pub IsMap : Dict K V → Type κ
  IsMap [] = Unit
  IsMap ((k, v) ∷ m) = (get k m ≡ none) × IsMap m
