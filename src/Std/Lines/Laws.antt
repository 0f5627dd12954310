-- ===== src/Std/Lines/Laws.antt =====
-- Lines, words and separated pieces are read back.
use tenodera.Prelude.{
  ◌≡◌, refl, ap, ◌∙◌, ℕ, zero, suc, Bool, true, false, not, ◌&&◌, List, [], ◌∷◌, ◌++◌, Text, nat_eq,
  text_eq, ◌==◌, ==_iff, all, All, is_empty, arith,
}
use tenodera.Std.Str.{is_whitespace}
use tenodera.Std.Lines.{extend, split_by, ended_lines, strip_cr, lines, words}

-- A piece up to the next separator.
pub split_by-append :
    (p : ℕ → Bool) (s t : Text) (c : ℕ)
    → all (λ d. not (p d)) s ≡ true
    → p c ≡ true
    → split_by p (s ++ c ∷ t) ≡ s ∷ split_by p t
unfolding split_by
split_by-append p [] t c h e = rw e refl
split_by-append p (d ∷ s) t c h e =
    let off : p d ≡ false = ground arith in
    rw off (ap (extend d) (split_by-append p s t c (ground arith) e))

-- A last piece.
pub split_by_free :
    (p : ℕ → Bool) (s : Text) → all (λ c. not (p c)) s ≡ true → split_by p s ≡ s ∷ []
unfolding split_by
split_by_free p [] h = refl
split_by_free p (c ∷ s) h =
    let off : p c ≡ false = ground arith in
    rw off (ap (extend c) (split_by_free p s (ground arith)))

-- A line that is kept as it is: no line feed in it, no carriage return at its end.
abbrev pub is_line : Text → Bool
is_line s = all (λ c. not (c == b'\n')) s && strip_cr s == s

-- Each line with its line feed.
unfoldable pub print_lines : List Text → Text
print_lines [] = []
print_lines (s ∷ rest) = s ++ b'\n' ∷ print_lines rest

-- The pieces of printed lines: the lines, and an empty one.
abbrev with_last : List Text → List Text
with_last [] = [] ∷ []
with_last (s ∷ rest) = s ∷ with_last rest

split_by-print_lines :
    (ls : List Text)
    → All (λ s. is_line s ≡ true) ls
    → split_by (λ c. c == b'\n') (print_lines ls) ≡ with_last ls
unfolding print_lines split_by
split_by-print_lines [] h = refl
split_by-print_lines (s ∷ ls) (h, hs) =
    split_by-append (λ c. c == b'\n') s (print_lines ls) b'\n' (ground arith) refl
    ∙ ap (λ r. s ∷ r) (split_by-print_lines ls hs)

ended_lines-with_last :
    (ls : List Text) → All (λ s. is_line s ≡ true) ls → ended_lines (with_last ls) ≡ ls
unfolding ended_lines
ended_lines-with_last [] h = refl
ended_lines-with_last (s ∷ []) (h, hs) =
    let same = (==_iff (strip_cr s) s).0 (ground arith) in ap (λ l. l ∷ []) same
ended_lines-with_last (s ∷ t ∷ ls) (h, hs) =
    let same = (==_iff (strip_cr s) s).0 (ground arith) in
    ap (λ l. l ∷ ended_lines (t ∷ with_last ls)) same
    ∙ ap (λ r. s ∷ r) (ended_lines-with_last (t ∷ ls) hs)

-- Printed lines are read back.
pub lines-print_lines :
    (ls : List Text) → All (λ s. is_line s ≡ true) ls → lines (print_lines ls) ≡ ls
unfolding lines
lines-print_lines ls h = ap ended_lines (split_by-print_lines ls h) ∙ ended_lines-with_last ls h

-- A word: not empty, without white space.
abbrev pub is_word : Text → Bool
is_word s = not (is_empty s) && all (λ c. not (is_whitespace c)) s

-- So many blanks in front.
unfoldable pub blanks : ℕ → Text → Text
blanks zero t = t
blanks (suc n) t = b' ' ∷ blanks n t

pub words-append : (s t : Text) → is_word s ≡ true → words (s ++ b' ' ∷ t) ≡ s ∷ words t
unfolding words
words-append s t h =
    let full : is_empty s ≡ false = ground arith in
    rw (split_by-append is_whitespace s t b' ' (ground arith) refl) (rw full refl)

pub words-blanks : (n : ℕ) (t : Text) → words (blanks n t) ≡ words t
unfolding words blanks split_by
words-blanks zero t = refl
words-blanks (suc n) t = words-blanks n t

pub words_single : (s : Text) → is_word s ≡ true → words s ≡ s ∷ []
unfolding words
words_single s h =
    let full : is_empty s ≡ false = ground arith in
    rw (split_by_free is_whitespace s (ground arith)) (rw full refl)
