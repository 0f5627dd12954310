-- ===== src/Protocol/Json.antt =====
-- serde_json, which the repository does not hold: its values and its maps from names to values are
-- parameters, with the documented behaviour that the code relies on.
use tenodera.Prelude.{◌≡◌, Option, none, some, String, string_eq, ◌==◌, if◌then◌else◌}

pub record Json : Type 1 where
  -- `Value` and `Map<String, Value>`
  pub Value : Type 0
  pub Fields : Type 0
  -- `Value::String` and `Value::Object`, and the accessors that undo them
  pub string : String → Value
  pub object : Fields → Value
  pub as_str : Value → Option String
  pub as_object : Value → Option Fields
  pub empty : Fields
  pub get : String → Fields → Option Value
  pub insert : String → Value → Fields → Fields
  pub remove : String → Fields → Fields
  pub as_str-string : (s : String) → as_str (string s) ≡ some s
  pub as_object-object : (m : Fields) → as_object (object m) ≡ some m
  pub get-empty : (k : String) → get k empty ≡ none
  pub get-insert :
      (k j : String) (v : Value) (m : Fields)
      → get j (insert k v m) ≡ (if k == j then some v else get j m)
  pub get-remove :
      (k j : String) (m : Fields) → get j (remove k m) ≡ (if k == j then none else get j m)
