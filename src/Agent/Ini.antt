-- ===== src/Agent/Ini.antt =====
-- The reading and writing of INI files in agent/src/handlers/packages.rs: `ini_get`, `ini_set` and
-- `ini_append_missing`.
pub mod Printed
pub mod Update
pub mod OneLine
pub mod File
mod Tests
use tenodera.Prelude.{
  ℕ, ◌-◌, Bool, false, not, ◌&&◌, ◌||◌, Option, none, some, List, [], ◌∷◌, ◌++◌, Text, nat_eq,
  text_eq, ◌==◌, any, map, find, length, take, drop, codes, if◌then◌else◌,
}
use tenodera.Std.Str.{trim, ends_with}
use tenodera.Std.Lines.{lines, join, starts_with}

-- `s.split_once(c)`
unfoldable pub split_once : ℕ → Text → Option (Text × Text)
split_once c [] = none
split_once c (d ∷ s) =
    let later = split_once c s in
    if d == c then some ([], s) else elim later as (λ _. Option (Text × Text)) [
      | none ↦ none
      | some (before, after) ↦ some (d ∷ before, after)
    ]

-- What the code makes of a line.
pub data Line : Type 0 where
  header : Text → Line
  setting : Text → Text → Line
  other : Line

abbrev pub setting_of : Option (Text × Text) → Line
unfolding trim
setting_of none = other
setting_of (some (k, v)) = setting (trim k) (trim v)

-- A line without the white space around it.
unfoldable pub read_trimmed : Text → Line
unfolding starts_with ends_with split_once setting_of
read_trimmed l =
    if starts_with (codes "[") l && ends_with (codes "]") l
    then header (take (length l - 2) (drop 1 l))
    else setting_of (split_once b'=' l)

abbrev pub read_line : Text → Line
unfolding read_trimmed trim
read_line line = read_trimmed (trim line)

-- The loop of `ini_get`.
abbrev pub get_of : Text → Text → Bool → List Line → Option Text
get_of section key inside [] = none
get_of section key inside (header name ∷ rest) = get_of section key (name == section) rest
get_of section key inside (setting k v ∷ rest) =
    let later = get_of section key inside rest in if inside && k == key then some v else later
get_of section key inside (other ∷ rest) = get_of section key inside rest

unfoldable pub ini_get : Text → Text → Text → Option Text
unfolding read_line lines
ini_get content section key = get_of section key false (map read_line (lines content))

abbrev pub Setting : Type 0
Setting = Text × Text

-- `format!("{k} = {v}")`
abbrev pub print_setting : Setting → Text
print_setting (k, v) = k ++ (codes " = " ++ v)

abbrev pub print_header : Text → Text
print_header section = b'[' ∷ (section ++ codes "]")

unfoldable pub ini_append_missing : List Setting → List Text → List Text
ini_append_missing [] set = []
ini_append_missing (kv ∷ rest) set =
    let later = ini_append_missing rest set in
    if not (any (λ k. k == kv.0) set) then print_setting kv ∷ later else later

-- The setting that takes the place of a line.
abbrev pub replacement : Bool → Text → List Setting → Option Setting
replacement inside k kv = if inside then find (λ p. p.0 == k) kv else none

-- The line or its replacement, and the lines behind it.
abbrev pub put : Text → List Text → (List Text → List Text) → Option Setting → List Text
put line set more none = line ∷ more set
put line set more (some p) = print_setting p ∷ more (p.0 ∷ set)

-- The loop of `ini_set`, over the lines with what they say.
unfoldable pub set_of :
    Text → List Setting → Bool → Bool → List Text → List (Text × Line) → List Text
unfolding ini_append_missing
set_of section kv inside seen set [] =
    (if inside then ini_append_missing kv set else [])
    ++ (if seen then [] else print_header section ∷ map print_setting kv)
set_of section kv inside seen set ((line, header name) ∷ rest) =
    let here = name == section in
    (if inside then ini_append_missing kv set else [])
    ++ (line ∷ set_of section kv here (seen || here) set rest)
set_of section kv inside seen set ((line, setting k v) ∷ rest) =
    put line set (λ s. set_of section kv inside seen s rest) (replacement inside k kv)
set_of section kv inside seen set ((line, other) ∷ rest) =
    line ∷ set_of section kv inside seen set rest

unfoldable pub ini_set : Text → Text → List Setting → Text
unfolding set_of lines join read_line
ini_set content section kv =
    let out = set_of section kv false false [] (map (λ l. (l, read_line l)) (lines content)) in
    join (b'\n' ∷ []) out ++ b'\n' ∷ []
