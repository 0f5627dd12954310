-- ===== src/Std/Lines/Trim.antt =====
-- Trimming and line breaks: what `trim` makes of a line, and lines without line feeds.
use tenodera.Prelude.{
  ◌≡◌, refl, ap, ◌∙◌, ℕ, Bool, true, false, not, List, [], ◌∷◌, ◌++◌, Text, nat_eq, text_eq,
  text_beq, ◌==◌, all, All, map, is_empty, arith, Bool-cases, inl, inr,
}
use tenodera.Std.Str.{trim, trim_start, trim_end}
use tenodera.Std.Lines.{extend, split_by, ended_lines, strip_cr, lines}

abbrev pub feed : ℕ → Bool
feed c = c == b'\n'

abbrev pub no_feed : Text → Bool
no_feed s = all (λ c. not (feed c)) s

trim_start-strip_cr : (s : Text) → trim_start (strip_cr s) ≡ strip_cr (trim_start s)
unfolding trim_start strip_cr
trim_start-strip_cr [] = refl
trim_start-strip_cr (c ∷ []) = ground arith
trim_start-strip_cr (c ∷ d ∷ s) = ground (arith, trim_start-strip_cr (d ∷ s))

trim_end-strip_cr : (s : Text) → trim_end (strip_cr s) ≡ trim_end s
unfolding trim_end strip_cr text_beq
trim_end-strip_cr [] = refl
trim_end-strip_cr (c ∷ []) = ground arith
trim_end-strip_cr (c ∷ d ∷ s) = rw (trim_end-strip_cr (d ∷ s))

pub trim-strip_cr : (s : Text) → trim (strip_cr s) ≡ trim s
unfolding trim
trim-strip_cr s = ap trim_end (trim_start-strip_cr s) ∙ trim_end-strip_cr (trim_start s)

pub map-strip_cr : (ls : List Text) → map trim (map strip_cr ls) ≡ map trim ls
map-strip_cr [] = refl
map-strip_cr (s ∷ ls) = rw (trim-strip_cr s, map-strip_cr ls)

pub map-append {ℓ κ} :
    {A : Type ℓ} {B : Type κ} (f : A → B) (xs ys : List A) → map f (xs ++ ys) ≡ map f xs ++ map f ys
map-append f [] ys = refl
map-append f (x ∷ xs) ys = ap (λ zs. f x ∷ zs) (map-append f xs ys)

no_feed-extend :
    (c : ℕ) (ps : List Text)
    → feed c ≡ false
    → All (λ s. no_feed s ≡ true) ps
    → All (λ s. no_feed s ≡ true) (extend c ps)
no_feed-extend c [] off h = (ground arith, tt)
no_feed-extend c (s ∷ ps) off (h, hs) = (ground arith, hs)

no_feed-split_by : (s : Text) → All (λ s. no_feed s ≡ true) (split_by feed s)
unfolding split_by
no_feed-split_by [] = (refl, tt)
no_feed-split_by (c ∷ s) = elim (Bool-cases (feed c)) [
  | inl cut ↦ rw cut (refl, no_feed-split_by s)
  | inr off ↦ rw off (no_feed-extend c (split_by feed s) off (no_feed-split_by s))
]

no_feed-strip_cr : (s : Text) → no_feed s ≡ true → no_feed (strip_cr s) ≡ true
unfolding strip_cr
no_feed-strip_cr [] h = refl
no_feed-strip_cr (c ∷ []) h = ground arith
no_feed-strip_cr (c ∷ d ∷ s) h = ground (arith, no_feed-strip_cr (d ∷ s))

no_feed-ended_lines :
    (ps : List Text) → All (λ s. no_feed s ≡ true) ps → All (λ s. no_feed s ≡ true) (ended_lines ps)
unfolding ended_lines
no_feed-ended_lines [] h = tt
no_feed-ended_lines (s ∷ []) (h, hs) = elim (Bool-cases (is_empty s)) [
  | inl e ↦ rw e tt
  | inr e ↦ rw e (h, tt)
]
no_feed-ended_lines (s ∷ t ∷ ps) (h, hs) = (no_feed-strip_cr s h, no_feed-ended_lines (t ∷ ps) hs)

-- No line holds a line feed.
pub no_feed-lines : (content : Text) → All (λ s. no_feed s ≡ true) (lines content)
unfolding lines
no_feed-lines content = no_feed-ended_lines (split_by feed content) (no_feed-split_by content)

trim_start-trim : (s : Text) → trim_start (trim s) ≡ trim s
unfolding trim trim_start trim_end text_beq
trim_start-trim [] = refl
trim_start-trim (c ∷ s) = ground (arith, trim_start-trim s)

pub trim_end_idem : (s : Text) → trim_end (trim_end s) ≡ trim_end s
unfolding trim_end text_beq
trim_end_idem [] = refl
trim_end_idem (c ∷ s) = ground (arith, trim_end_idem s)

pub trim_idem : (s : Text) → trim (trim s) ≡ trim s
trim_idem s = unfold trim in (ap trim_end (trim_start-trim s) ∙ trim_end_idem (trim_start s))
