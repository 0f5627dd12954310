-- ===== src/Agent/Files/Listing/Printed.antt =====
-- The listing that `ls -la` prints is read back.
use tenodera.Prelude.{
  ◌≡◌, refl, ap, ◌∙◌, ℕ, zero, suc, ◌^◌, ◌<◌, Bool, true, false, not, ◌&&◌, ◌||◌, none, some,
  retain, if◌then◌else◌, Bool-cases, inl, inr, List, [], ◌∷◌, Text, nat_eq, text_eq, ◌==◌, ==_iff,
  map, All, is_empty, drop, codes, arith,
}
use tenodera.Std.Str.{trim_start, strip_prefix}
use tenodera.Std.Number.{decimal}
use tenodera.Std.Lines.{words, starts_with, contains_text}
use tenodera.Std.Lines.Laws.{is_line, print_lines, lines-print_lines, is_word, blanks}
use tenodera.Agent.Files.Listing.{
  Entry, skip_fields, before_text, extract_filename, kind_of, size_of, entry_of, line_entry,
  parse_lines, parse_ls_output,
}
use tenodera.Agent.Files.Listing.Sizes.{parse_unsigned-decimal, is_word-decimal}
use tenodera.Agent.Files.Listing.Fields.{
  Field, put_field, skip_fields-field, skip_fields-last_field, words-field,
}

-- A row that `ls` prints.
pub record Row : Type 0 where
  pub perms : Field
  pub links : Field
  pub user : Field
  pub group : Field
  -- the size, and the blanks behind it, beyond the first
  pub size : ℕ
  pub size_gap : ℕ
  pub date : Field
  pub time : Field
  pub name : Text

unfoldable pub row_text : Row → Text
row_text r = put_field r.perms (
    put_field r.links (
      put_field r.user (
        put_field r.group
          (put_field (decimal r.size, r.size_gap) (put_field r.date (put_field r.time r.name))))))

-- A name that can be read back: no white space in front, and no arrow.
abbrev pub is_plain_name : Text → Bool
is_plain_name name =
    not (is_empty name) && trim_start name == name && not (contains_text (codes " -> ") name)

pub record IsRow (r : Row) : Type 0 where
  pub perms_ok : is_word r.perms.0 ≡ true
  pub links_ok : is_word r.links.0 ≡ true
  pub user_ok : is_word r.user.0 ≡ true
  pub group_ok : is_word r.group.0 ≡ true
  pub size_ok : r.size < 2 ^ 64
  pub date_ok : is_word r.date.0 ≡ true
  pub time_ok : is_word r.time.0 ≡ true
  pub name_ok : is_plain_name r.name ≡ true
  pub line_ok : is_line (row_text r) ≡ true

-- The type that the first letter of the permissions stands for.
abbrev pub type_name : Text → Text
type_name [] = codes "file"
type_name (c ∷ s) =
    if c == b'd' then codes "directory" else if c == b'l' then codes "symlink" else codes "file"

kind_of-type_name : (perms : Text) → kind_of perms ≡ type_name perms
unfolding kind_of starts_with strip_prefix
kind_of-type_name [] = refl
kind_of-type_name (c ∷ s) = ground arith

size_of-decimal : (n : ℕ) → n < 2 ^ 64 → size_of (decimal n) ≡ n
unfolding size_of
size_of-decimal n l = rw (parse_unsigned-decimal (2 ^ 64) n l, size_of) refl

-- A row of the directory itself or of its parent.
abbrev pub is_dots : Row → Bool
is_dots r = r.name == codes "." || r.name == codes ".."

unfoldable pub row_entry : Row → Entry
row_entry r = record {
  name = r.name;
  kind = type_name r.perms.0;
  size = r.size;
  perms = r.perms.0;
  user = r.user.0;
  group = r.group.0;
}

trim_start-blanks : (n : ℕ) (t : Text) → trim_start (blanks n t) ≡ trim_start t
unfolding trim_start blanks
trim_start-blanks zero t = refl
trim_start-blanks (suc n) t = trim_start-blanks n t

before_text_free : (piece s : Text) → contains_text piece s ≡ false → before_text piece s ≡ s
unfolding before_text contains_text
before_text_free piece [] h = refl
before_text_free piece (c ∷ s) h =
    let off : starts_with piece (c ∷ s) ≡ false = ground arith in
    rw off (ap (λ r. c ∷ r) (before_text_free piece s (ground arith)))

plain_name_parts :
    (name : Text)
    → is_plain_name name ≡ true
    → (is_empty name ≡ false)
      × (trim_start name ≡ name)
      × (contains_text (codes " -> ") name ≡ false)
plain_name_parts name h =
    (ground arith, (==_iff (trim_start name) name).0 (ground arith), ground arith)

module _ (r : Row) (ok : IsRow r) where
  skip_fields-row : skip_fields 7 false (row_text r) ≡ some (b' ' ∷ blanks r.time.1 r.name)
  unfolding row_text
  skip_fields-row =
      skip_fields-field 5 r.perms _ ok.perms_ok
      ∙ skip_fields-field 4 r.links _ ok.links_ok
      ∙ skip_fields-field 3 r.user _ ok.user_ok
      ∙ skip_fields-field 2 r.group _ ok.group_ok
      ∙ skip_fields-field 1 (decimal r.size, r.size_gap) _ (is_word-decimal r.size)
      ∙ skip_fields-field 0 r.date _ ok.date_ok
      ∙ skip_fields-last_field r.time r.name ok.time_ok

  extract_filename-row : extract_filename (row_text r) ≡ r.name
  unfolding extract_filename blanks
  extract_filename-row =
      let (_, start, free) = plain_name_parts r.name ok.name_ok in
      let bare = before_text_free (codes " -> ") r.name free in
      rw (skip_fields-row, extract_filename)
        (ap (before_text (codes " -> ")) (trim_start-blanks (suc r.time.1) r.name ∙ start) ∙ bare)

  words-row :
      words (row_text r)
      ≡ r.perms.0
        ∷ r.links.0
        ∷ r.user.0
        ∷ r.group.0
        ∷ decimal r.size
        ∷ r.date.0
        ∷ r.time.0
        ∷ words r.name
  unfolding row_text
  words-row =
      words-field r.perms _ ok.perms_ok
      ∙ ap (λ w. r.perms.0 ∷ w) (words-field r.links _ ok.links_ok)
      ∙ ap (λ w. r.perms.0 ∷ r.links.0 ∷ w) (words-field r.user _ ok.user_ok)
      ∙ ap (λ w. r.perms.0 ∷ r.links.0 ∷ r.user.0 ∷ w) (words-field r.group _ ok.group_ok)
      ∙ ap (λ w. r.perms.0 ∷ r.links.0 ∷ r.user.0 ∷ r.group.0 ∷ w)
          (words-field (decimal r.size, r.size_gap) _ (is_word-decimal r.size))
      ∙ ap (λ w. r.perms.0 ∷ r.links.0 ∷ r.user.0 ∷ r.group.0 ∷ decimal r.size ∷ w)
          (words-field r.date _ ok.date_ok)
      ∙ ap (λ w. r.perms.0 ∷ r.links.0 ∷ r.user.0 ∷ r.group.0 ∷ decimal r.size ∷ r.date.0 ∷ w)
          (words-field r.time r.name ok.time_ok)

  line_entry-row : line_entry (row_text r) ≡ (if is_dots r then none else some (row_entry r))
  unfolding line_entry row_entry entry_of
  line_entry-row =
      let (full, _, _) = plain_name_parts r.name ok.name_ok in
      let kind = kind_of-type_name r.perms.0 in
      let size = size_of-decimal r.size ok.size_ok in
      elim (Bool-cases (r.name == codes ".")) [
        | inl dot ↦ rw (extract_filename-row, words-row) (rw (full, dot) refl)
        | inr other ↦ elim (Bool-cases (r.name == codes "..")) [
          | inl dots ↦ rw (extract_filename-row, words-row) (rw (full, other, dots) refl)
          | inr plain ↦
              rw (extract_filename-row, words-row) (rw (full, other, plain, kind, size) refl)
        ]
      ]

parse_lines-rows :
    (rows : List Row)
    → All IsRow rows
    → parse_lines (map row_text rows) ≡ map row_entry (retain (λ r. not (is_dots r)) rows)
unfolding parse_lines
parse_lines-rows [] h = refl
parse_lines-rows (r ∷ rows) (h, hs) = elim (Bool-cases (is_dots r)) [
  | inl dots ↦
      let skipped : line_entry (row_text r) ≡ none = line_entry-row r h ∙ rw dots refl in
      rw (skipped, dots) (parse_lines-rows rows hs)
  | inr plain ↦
      let read : line_entry (row_text r) ≡ some (row_entry r) =
        line_entry-row r h ∙ rw plain refl in
      rw (read, plain) (ap (λ es. row_entry r ∷ es) (parse_lines-rows rows hs))
]

All-is_line : (rows : List Row) → All IsRow rows → All (λ s. is_line s ≡ true) (map row_text rows)
All-is_line [] h = tt
All-is_line (r ∷ rows) (h, hs) = (h.line_ok, All-is_line rows hs)

-- What `ls -la` prints behind its first line, one row for each entry that is no link, is read back
-- as the entries but for `.` and `..`, whatever the widths of the columns: the name, the type that
-- the first letter of the permissions stands for, the size, the permissions and the owners. The
-- columns are words, the sizes are below 2^64, and the names are not empty and have no white space
-- in front, no arrow, no line feed, and no carriage return at the end.
pub parse_ls_output-print_lines :
    (total : Text) (rows : List Row)
    → is_line total ≡ true
    → All IsRow rows
    → parse_ls_output (print_lines (total ∷ map row_text rows))
      ≡ map row_entry (retain (λ r. not (is_dots r)) rows)
unfolding parse_ls_output
parse_ls_output-print_lines total rows t h =
    ap (λ ls. parse_lines (drop 1 ls))
      (lines-print_lines (total ∷ map row_text rows) (t, All-is_line rows h))
    ∙ parse_lines-rows rows h
