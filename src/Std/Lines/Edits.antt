-- ===== src/Std/Lines/Edits.antt =====
-- Files that are edited line by line: their lines up to the white space around them.
use tenodera.Prelude.{
  ◌≡◌, refl, sym, ap, ◌∙◌, ℕ, Bool, true, false, not, List, [], ◌∷◌, ◌++◌, append_assoc, append-nil,
  Text, nat_eq, text_eq, text_beq, All, map, is_empty, arith, Bool-cases, inl, inr,
}
use tenodera.Std.Str.{trim, ends_with}
use tenodera.Std.Lines.{extend, split_by, ended_lines, strip_cr, lines, join}
use tenodera.Std.Lines.Laws.{split_by_free, print_lines}
use tenodera.Std.Lines.Trim.{feed, no_feed, trim-strip_cr, map-strip_cr, map-append}

-- The lines of a file, trimmed.
abbrev pub trimmed_lines : Text → List Text
trimmed_lines content = map trim (lines content)

-- Pieces come with a last one.
is_empty-split_by : (p : ℕ → Bool) (s : Text) → is_empty (split_by p s) ≡ false
unfolding split_by
is_empty-split_by p [] = refl
is_empty-split_by p (c ∷ s) = elim (Bool-cases (p c)) [
  | inl e ↦ rw e refl
  | inr e ↦ rw e (full (split_by p s))
]
  where
    full : (ps : List Text) → is_empty (extend c ps) ≡ false
    full [] = refl
    full (piece ∷ ps) = refl

extend-append :
    (c : ℕ) (ps qs : List Text) → is_empty ps ≡ false → extend c (ps ++ qs) ≡ extend c ps ++ qs
extend-append c [] qs h = cc
extend-append c (piece ∷ ps) qs h = refl

-- A separator parts the pieces.
split_by-append_any :
    (p : ℕ → Bool) (s t : Text) (c : ℕ)
    → p c ≡ true
    → split_by p (s ++ c ∷ t) ≡ split_by p s ++ split_by p t
unfolding split_by
split_by-append_any p [] t c e = rw e refl
split_by-append_any p (d ∷ s) t c e = elim (Bool-cases (p d)) [
  | inl cut ↦ rw cut (ap (λ r. [] ∷ r) (split_by-append_any p s t c e))
  | inr off ↦ rw off (
      ap (extend d) (split_by-append_any p s t c e)
      ∙ extend-append d (split_by p s) (split_by p t) (is_empty-split_by p s))
]

ended_lines-append :
    (ps qs : List Text)
    → is_empty qs ≡ false
    → ended_lines (ps ++ qs) ≡ map strip_cr ps ++ ended_lines qs
unfolding ended_lines
ended_lines-append [] qs h = refl
ended_lines-append (s ∷ []) [] h = cc
ended_lines-append (s ∷ []) (t ∷ qs) h = refl
ended_lines-append (s ∷ t ∷ ps) qs h = ap (λ r. strip_cr s ∷ r) (ended_lines-append (t ∷ ps) qs h)

-- A line feed ends the lines before it.
pub lines-append : (s t : Text) → lines (s ++ b'\n' ∷ t) ≡ map strip_cr (split_by feed s) ++ lines t
unfolding lines
lines-append s t =
    ap ended_lines (split_by-append_any feed s t b'\n' refl)
    ∙ ended_lines-append (split_by feed s) (split_by feed t) (is_empty-split_by feed t)

trimmed_lines-append :
    (s t : Text) → trimmed_lines (s ++ b'\n' ∷ t) ≡ map trim (split_by feed s) ++ trimmed_lines t
trimmed_lines-append s t =
    ap (map trim) (lines-append s t)
    ∙ map-append trim (map strip_cr (split_by feed s)) (lines t)
    ∙ ap (λ ls. ls ++ trimmed_lines t) (map-strip_cr (split_by feed s))

-- Lines that are printed are read back, up to the white space at their ends.
pub trimmed_lines-print_lines :
    (ls : List Text) → All (λ s. no_feed s ≡ true) ls → trimmed_lines (print_lines ls) ≡ map trim ls
unfolding print_lines
trimmed_lines-print_lines [] h = unfold lines split_by ended_lines in refl
trimmed_lines-print_lines (s ∷ ls) (h, hs) =
    trimmed_lines-append s (print_lines ls)
    ∙ ap (λ ps. map trim ps ++ trimmed_lines (print_lines ls)) (split_by_free feed s h)
    ∙ ap (λ r. trim s ∷ r) (trimmed_lines-print_lines ls hs)

-- The last piece is not empty.
abbrev full_last : List Text → Bool
full_last [] = false
full_last (s ∷ []) = not (is_empty s)
full_last (s ∷ t ∷ ps) = full_last (t ∷ ps)

trimmed-ended_lines :
    (ps : List Text) → full_last ps ≡ true → map trim (ended_lines ps) ≡ map trim ps
unfolding ended_lines
trimmed-ended_lines [] h = refl
trimmed-ended_lines (s ∷ []) h = let full : is_empty s ≡ false = ground arith in rw full refl
trimmed-ended_lines (s ∷ t ∷ ps) h = rw (trim-strip_cr s, trimmed-ended_lines (t ∷ ps) h) refl

full_last-extend : (c : ℕ) (ps : List Text) → full_last ps ≡ true → full_last (extend c ps) ≡ true
full_last-extend c [] h = refl
full_last-extend c (s ∷ []) h = refl
full_last-extend c (s ∷ t ∷ ps) h = h

full_last-cons : (s : Text) (ps : List Text) → full_last ps ≡ true → full_last (s ∷ ps) ≡ true
full_last-cons s [] h = cc
full_last-cons s (t ∷ ps) h = h

full_last-split_by :
    (s : Text)
    → is_empty s ≡ false
    → ends_with (b'\n' ∷ []) s ≡ false
    → full_last (split_by feed s) ≡ true
unfolding split_by ends_with text_beq
full_last-split_by [] e h = cc
full_last-split_by (c ∷ []) e h = let off : feed c ≡ false = ground arith in rw off refl
full_last-split_by (c ∷ d ∷ s) e h =
    let later = full_last-split_by (d ∷ s) refl (ground arith) in
    elim (Bool-cases (feed c)) [
      | inl cut ↦ rw cut (full_last-cons [] (split_by feed (d ∷ s)) later)
      | inr off ↦ rw off (full_last-extend c (split_by feed (d ∷ s)) later)
    ]

-- A text that ends in a line feed, without it.
chop : Text → Text
chop [] = []
chop (c ∷ []) = []
chop (c ∷ d ∷ s) = c ∷ chop (d ∷ s)

chop_sound : (s : Text) → ends_with (b'\n' ∷ []) s ≡ true → s ≡ chop s ++ b'\n' ∷ []
unfolding ends_with text_beq chop
chop_sound [] h = cc
chop_sound (c ∷ []) h = ground arith
chop_sound (c ∷ d ∷ s) h = ground (arith, chop_sound (d ∷ s))

pub trimmed_lines_none : trimmed_lines [] ≡ []
unfolding lines split_by ended_lines
trimmed_lines_none = refl

-- What follows a text that ends in a line feed.
pub trimmed_lines-ended :
    (s t : Text)
    → ends_with (b'\n' ∷ []) s ≡ true
    → trimmed_lines (s ++ t) ≡ trimmed_lines s ++ trimmed_lines t
trimmed_lines-ended s t h =
    let front = chop_sound s h in
    let alone : trimmed_lines s ≡ map trim (split_by feed (chop s)) =
      ap trimmed_lines front
      ∙ trimmed_lines-append (chop s) []
      ∙ ap (λ ls. map trim (split_by feed (chop s)) ++ ls) trimmed_lines_none
      ∙ append-nil (map trim (split_by feed (chop s))) in
    ap (λ x. trimmed_lines (x ++ t)) front
    ∙ ap trimmed_lines (append_assoc (chop s) (b'\n' ∷ []) t)
    ∙ trimmed_lines-append (chop s) t
    ∙ ap (λ ls. ls ++ trimmed_lines t) (sym alone)

-- What follows the line feed behind a text that does not end in one.
pub trimmed_lines-unended :
    (s t : Text)
    → is_empty s ≡ false
    → ends_with (b'\n' ∷ []) s ≡ false
    → trimmed_lines (s ++ b'\n' ∷ t) ≡ trimmed_lines s ++ trimmed_lines t
unfolding lines
trimmed_lines-unended s t e h =
    trimmed_lines-append s t
    ∙ ap (λ ls. ls ++ trimmed_lines t)
        (sym (trimmed-ended_lines (split_by feed s) (full_last-split_by s e h)))

-- `kept.join("\n") + "\n"`
pub join_lines :
    (ls : List Text) → is_empty ls ≡ false → join (b'\n' ∷ []) ls ++ b'\n' ∷ [] ≡ print_lines ls
unfolding join print_lines
join_lines [] h = cc
join_lines (s ∷ []) h = refl
join_lines (s ∷ t ∷ ls) h =
    append_assoc s (b'\n' ∷ join (b'\n' ∷ []) (t ∷ ls)) (b'\n' ∷ [])
    ∙ ap (λ r. s ++ b'\n' ∷ r) (join_lines (t ∷ ls) refl)
