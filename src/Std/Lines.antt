-- ===== src/Std/Lines.antt =====
-- What the code uses of `str` to take texts apart into lines, words and pieces.
pub mod Laws
pub mod Trim
pub mod Edits
use tenodera.Prelude.{
  ℕ, zero, suc, Bool, true, false, not, ◌||◌, Option, none, some, List, [], ◌∷◌, ◌++◌, Text, nat_eq,
  ◌==◌, map, retain, is_empty, is_some, length, if◌then◌else◌,
}
use tenodera.Std.Str.{strip_prefix, is_whitespace}

-- A carriage return at the end is dropped.
unfoldable pub strip_cr : Text → Text
strip_cr [] = []
strip_cr (c ∷ []) = if c == b'\r' then [] else c ∷ []
strip_cr (c ∷ d ∷ s) = c ∷ strip_cr (d ∷ s)

-- One more character for the first piece.
abbrev pub extend : ℕ → List Text → List Text
extend c [] = (c ∷ []) ∷ []
extend c (piece ∷ pieces) = (c ∷ piece) ∷ pieces

-- `s.split(p)`
unfoldable pub split_by : (ℕ → Bool) → Text → List Text
split_by p [] = [] ∷ []
split_by p (c ∷ s) = let rest = split_by p s in if p c then [] ∷ rest else extend c rest

-- A line break ends a line; behind the last one there is only a line if there is text.
unfoldable pub ended_lines : List Text → List Text
unfolding strip_cr
ended_lines [] = []
ended_lines (s ∷ []) = if is_empty s then [] else s ∷ []
ended_lines (s ∷ t ∷ pieces) = strip_cr s ∷ ended_lines (t ∷ pieces)

-- `s.lines()`
unfoldable pub lines : Text → List Text
unfolding split_by ended_lines
lines s = ended_lines (split_by (λ c. c == b'\n') s)

-- `s.split_whitespace()`
unfoldable pub words : Text → List Text
unfolding split_by
words s = retain (λ w. not (is_empty w)) (split_by is_whitespace s)

-- `pieces.join(separator)`
unfoldable pub join : Text → List Text → Text
join separator [] = []
join separator (s ∷ []) = s
join separator (s ∷ t ∷ pieces) = s ++ (separator ++ join separator (t ∷ pieces))

unfoldable pub starts_with : Text → Text → Bool
unfolding strip_prefix
starts_with prefix s = is_some (strip_prefix prefix s)

-- `s.contains(piece)`
unfoldable pub contains_text : Text → Text → Bool
unfolding starts_with
contains_text piece [] = is_empty piece
contains_text piece (c ∷ s) = starts_with piece (c ∷ s) || contains_text piece s

-- `s.trim_start_matches(c)`
unfoldable pub trim_start_char : ℕ → Text → Text
trim_start_char c [] = []
trim_start_char c (d ∷ s) = if d == c then trim_start_char c s else d ∷ s

-- `s.trim_start_matches(prefix)`, which strips at most as often as the text is long.
unfoldable pub strip_repeated : ℕ → Text → Text → Text
unfolding strip_prefix
strip_repeated zero prefix s = s
strip_repeated (suc n) prefix s = elim (strip_prefix prefix s) [
  | none ↦ s
  | some rest ↦ strip_repeated n prefix rest
]

unfoldable pub trim_start_text : Text → Text → Text
unfolding strip_repeated
trim_start_text prefix s = strip_repeated (length s) prefix s
