-- ===== src/Agent/Ssh/Keys.antt =====
-- What the edits of authorized_keys make of its lines.
use tenodera.Prelude.{
  ◌≡◌, refl, sym, ap, ◌∙◌, true, false, not, List, [], ◌∷◌, ◌++◌, append_assoc, Text, nat_eq,
  text_eq, ◌==◌, any, All, All-retain, map, retain, is_empty, arith, if◌then◌else◌, Bool-cases, inl,
  inr,
}
use tenodera.Std.Str.{trim, ends_with}
use tenodera.Std.Lines.{lines, join}
use tenodera.Std.Lines.Laws.{print_lines}
use tenodera.Std.Lines.Trim.{no_feed, trim_idem, no_feed-lines}
use tenodera.Std.Lines.Edits.{
  trimmed_lines, trimmed_lines_none, trimmed_lines-print_lines, trimmed_lines-ended,
  trimmed_lines-unended, join_lines,
}
use tenodera.Agent.Ssh.{holds_key, with_key, without_key, replace_line, with_edit}

-- The first line that is the old one becomes the new one.
abbrev pub replace_first : Text → Text → List Text → List Text
replace_first old key [] = []
replace_first old key (l ∷ ls) = if l == old then key ∷ ls else l ∷ replace_first old key ls

trimmed_lines_single :
    (key : Text) → no_feed key ≡ true → trimmed_lines (key ++ b'\n' ∷ []) ≡ trim key ∷ []
unfolding print_lines
trimmed_lines_single key h = trimmed_lines-print_lines (key ∷ []) (h, tt)

with_key-lines :
    (content key : Text)
    → no_feed key ≡ true
    → trimmed_lines (with_key content key) ≡ trimmed_lines content ++ trim key ∷ []
unfolding with_key
with_key-lines [] key h =
    trimmed_lines_single key h ∙ ap (λ ls. ls ++ trim key ∷ []) (sym trimmed_lines_none)
with_key-lines (c ∷ s) key h = elim (Bool-cases (ends_with (b'\n' ∷ []) (c ∷ s))) [
  | inl ended ↦ rw ended (
      ap trimmed_lines (append_assoc (c ∷ s) key (b'\n' ∷ []))
      ∙ trimmed_lines-ended (c ∷ s) (key ++ b'\n' ∷ []) ended
      ∙ ap (λ ls. trimmed_lines (c ∷ s) ++ ls) (trimmed_lines_single key h))
  | inr unended ↦ rw unended (
      ap (λ x. trimmed_lines (x ++ b'\n' ∷ [])) (append_assoc (c ∷ s) (b'\n' ∷ []) key)
      ∙ ap trimmed_lines (append_assoc (c ∷ s) (b'\n' ∷ key) (b'\n' ∷ []))
      ∙ trimmed_lines-unended (c ∷ s) (key ++ b'\n' ∷ []) refl unended
      ∙ ap (λ ls. trimmed_lines (c ∷ s) ++ ls) (trimmed_lines_single key h))
]

map-retain :
    (key : Text) (ls : List Text)
    → map trim (retain (λ l. not (trim l == key)) ls) ≡ retain (λ l. not (l == key)) (map trim ls)
map-retain key [] = refl
map-retain key (l ∷ ls) = elim (Bool-cases (trim l == key)) [
  | inl same ↦ rw same (map-retain key ls)
  | inr other ↦ rw other (ap (λ r. trim l ∷ r) (map-retain key ls))
]

print_kept :
    (kept : List Text)
    → (if is_empty kept then [] else join (b'\n' ∷ []) kept ++ b'\n' ∷ []) ≡ print_lines kept
unfolding print_lines
print_kept [] = refl
print_kept (l ∷ ls) = join_lines (l ∷ ls) refl

without_key-lines :
    (content key : Text)
    → trimmed_lines (without_key content key) ≡ retain (λ l. not (l == key)) (trimmed_lines content)
unfolding without_key
without_key-lines content key =
    let kept = retain (λ l. not (trim l == key)) (lines content) in
    ap trimmed_lines (print_kept kept)
    ∙ trimmed_lines-print_lines kept (
        All-retain (λ s. no_feed s ≡ true) (λ l. not (trim l == key)) (lines content)
          (no_feed-lines content))
    ∙ map-retain key (lines content)

map-replace_line :
    (old key : Text) (ls : List Text)
    → trim key ≡ key
    → map trim (replace_line old key ls) ≡ replace_first old key (map trim ls)
unfolding replace_line
map-replace_line old key [] h = refl
map-replace_line old key (l ∷ ls) h = elim (Bool-cases (trim l == old)) [
  | inl same ↦ rw same (ap (λ k. k ∷ map trim ls) h)
  | inr other ↦ rw other (ap (λ r. trim l ∷ r) (map-replace_line old key ls h))
]

no_feed-replace_line :
    (old key : Text) (ls : List Text)
    → no_feed key ≡ true
    → All (λ s. no_feed s ≡ true) ls
    → All (λ s. no_feed s ≡ true) (replace_line old key ls)
unfolding replace_line
no_feed-replace_line old key [] h hs = tt
no_feed-replace_line old key (l ∷ ls) h (hl, hs) = elim (Bool-cases (trim l == old)) [
  | inl same ↦ rw same (h, hs)
  | inr other ↦ rw other (hl, no_feed-replace_line old key ls h hs)
]

is_empty-replace_line :
    (old key : Text) (ls : List Text)
    → any (λ l. trim l == old) ls ≡ true
    → is_empty (replace_line old key ls) ≡ false
unfolding replace_line
is_empty-replace_line old key [] h = cc
is_empty-replace_line old key (l ∷ ls) h = elim (Bool-cases (trim l == old)) [
  | inl same ↦ rw same refl
  | inr other ↦ rw other refl
]

with_edit-lines :
    (content old key : Text)
    → no_feed key ≡ true
    → trim key ≡ key
    → holds_key content old ≡ true
    → trimmed_lines (with_edit content old key) ≡ replace_first old key (trimmed_lines content)
unfolding with_edit holds_key
with_edit-lines content old key h trimmed holds =
    let replaced = replace_line old key (lines content) in
    ap trimmed_lines (join_lines replaced (is_empty-replace_line old key (lines content) holds))
    ∙ trimmed_lines-print_lines replaced
        (no_feed-replace_line old key (lines content) h (no_feed-lines content))
    ∙ map-replace_line old key (lines content) trimmed

replace_first_none :
    (old key : Text) (ls : List Text)
    → any (λ l. trim l == old) ls ≡ false
    → map trim ls ≡ replace_first old key (map trim ls)
replace_first_none old key [] h = refl
replace_first_none old key (l ∷ ls) h =
    let other : (trim l == old) ≡ false = ground arith in
    rw other (ap (λ r. trim l ∷ r) (replace_first_none old key ls (ground arith)))

edit-lines :
    (content old key : Text)
    → no_feed key ≡ true
    → trim key ≡ key
    → trimmed_lines (if holds_key content old then with_edit content old key else content)
      ≡ replace_first old key (trimmed_lines content)
edit-lines content old key h trimmed = elim (Bool-cases (holds_key content old)) [
  | inl holds ↦ rw holds (with_edit-lines content old key h trimmed holds)
  | inr lacks ↦ rw lacks (replace_first_none old key (lines content) (unfold holds_key in lacks))
]

-- Let a key that is given hold no line break once it is trimmed. Then, up to the white space
-- around lines and whatever the file held, adding it puts it behind the lines of the file,
-- removing it leaves the other lines in their order, and editing it into the place of a line,
-- where a line that the file lacks leaves the file as it is, replaces the first such line and no
-- other.
pub keys_edited :
    (content given old : Text)
    → no_feed (trim given) ≡ true
    → (trimmed_lines (with_key content (trim given)) ≡ trimmed_lines content ++ trim given ∷ [])
      × (trimmed_lines (without_key content (trim given))
          ≡ retain (λ l. not (l == trim given)) (trimmed_lines content))
      × (trimmed_lines
            (if holds_key content old then with_edit content old (trim given) else content)
          ≡ replace_first old (trim given) (trimmed_lines content))
keys_edited content given old h = (
  with_key-lines content (trim given) h
      ∙ ap (λ k. trimmed_lines content ++ k ∷ []) (trim_idem given),
  without_key-lines content (trim given),
  edit-lines content old (trim given) h (trim_idem given),
)
