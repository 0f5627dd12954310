-- ===== src/Agent/Files/Listing.antt =====
-- `parse_ls_output` and `extract_filename` of agent/src/handlers/file_list.rs.
pub mod Fields
pub mod Sizes
pub mod Printed
use tenodera.Prelude.{
  ℕ, zero, suc, ◌^◌, Bool, true, false, ◌||◌, Option, none, some, List, [], ◌∷◌, ◌++◌, Text, nat_eq,
  text_eq, ◌==◌, is_empty, drop, codes, if◌then◌else◌,
}
use tenodera.Std.Str.{is_whitespace, trim_start, strip_prefix}
use tenodera.Std.Lines.{lines, words, starts_with}
use tenodera.Std.Number.{parse_unsigned}

pub record Entry : Type 0 where
  pub name : Text
  -- the entry's type, as text
  pub kind : Text
  pub size : ℕ
  pub perms : Text
  pub user : Text
  pub group : Text

-- What stands behind so many fields, from the blank that ends the last; `true` inside of a field.
unfoldable pub skip_fields : ℕ → Bool → Text → Option Text
skip_fields n in_field [] = none
skip_fields zero in_field (c ∷ s) = none
skip_fields (suc zero) in_field (c ∷ s) =
    let rest = skip_fields 1 (if is_whitespace c then in_field else true) s in
    if is_whitespace c then if in_field then some (c ∷ s) else rest else rest
skip_fields (suc (suc n)) in_field (c ∷ s) =
    let next = skip_fields (suc n) false s in
    let gap = skip_fields (suc (suc n)) false s in
    let inside = skip_fields (suc (suc n)) true s in
    if is_whitespace c then if in_field then next else gap else inside

-- The text before the first occurrence of a piece, or the whole.
unfoldable pub before_text : Text → Text → Text
unfolding strip_prefix
before_text piece [] = []
before_text piece (c ∷ s) =
    let rest = c ∷ before_text piece s in if starts_with piece (c ∷ s) then [] else rest

unfoldable pub extract_filename : Text → Text
unfolding skip_fields before_text trim_start
extract_filename line = elim (skip_fields 7 false line) as (λ _. Text) [
  | none ↦ []
  | some rest ↦ before_text (codes " -> ") (trim_start rest)
]

abbrev pub kind_of : Text → Text
unfolding strip_prefix
kind_of perms =
    if starts_with (codes "d") perms
    then codes "directory"
    else if starts_with (codes "l") perms
    then codes "symlink"
    else codes "file"

abbrev pub size_of : Text → ℕ
unfolding parse_unsigned
size_of s = elim (parse_unsigned (2 ^ 64) s) as (λ _. ℕ) [ none ↦ 0 | some n ↦ n ]

abbrev pub entry_of : Text → List Text → Option Entry
unfolding kind_of size_of
entry_of name (perms ∷ links ∷ user ∷ group ∷ size ∷ more) = some (record {
  name = name;
  kind = kind_of perms;
  size = size_of size;
  perms = perms;
  user = user;
  group = group;
})
entry_of name _ = none

unfoldable pub line_entry : Text → Option Entry
unfolding extract_filename words
line_entry line =
    let name = extract_filename line in
    let entry = entry_of name (words line) in
    if is_empty name || name == codes "." || name == codes ".." then none else entry

abbrev pub keep : Option Entry → List Entry → List Entry
keep none entries = entries
keep (some e) entries = e ∷ entries

unfoldable pub parse_lines : List Text → List Entry
unfolding line_entry
parse_lines [] = []
parse_lines (line ∷ rest) = keep (line_entry line) (parse_lines rest)

unfoldable pub parse_ls_output : Text → List Entry
unfolding parse_lines lines
parse_ls_output out = parse_lines (drop 1 (lines out))
