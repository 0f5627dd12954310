-- ===== src/Agent/Files/Listing/Fields.antt =====
-- The columns of a printed row are passed over, and are its words.
use tenodera.Prelude.{
  ◌≡◌, refl, ap, ◌∙◌, ℕ, zero, suc, true, false, not, some, [], ◌∷◌, ◌++◌, Text, nat_eq, text_eq,
  all, arith,
}
use tenodera.Std.Str.{is_whitespace}
use tenodera.Std.Lines.{words}
use tenodera.Std.Lines.Laws.{is_word, blanks, words-append, words-blanks}
use tenodera.Agent.Files.Listing.{skip_fields}

-- From inside of a field, its rest is passed over.
skip_fields-inside :
    (n : ℕ) (s t : Text)
    → all (λ c. not (is_whitespace c)) s ≡ true
    → skip_fields (suc (suc n)) true (s ++ b' ' ∷ t) ≡ skip_fields (suc n) false t
unfolding skip_fields
skip_fields-inside n [] t h = refl
skip_fields-inside n (c ∷ s) t h =
    let e : is_whitespace c ≡ false = ground arith in rw e (skip_fields-inside n s t (ground arith))

skip_fields-last :
    (s t : Text)
    → all (λ c. not (is_whitespace c)) s ≡ true
    → skip_fields 1 true (s ++ b' ' ∷ t) ≡ some (b' ' ∷ t)
unfolding skip_fields
skip_fields-last [] t h = refl
skip_fields-last (c ∷ s) t h =
    let e : is_whitespace c ≡ false = ground arith in rw e (skip_fields-last s t (ground arith))

skip_fields-blanks :
    (n m : ℕ) (t : Text) → skip_fields (suc n) false (blanks m t) ≡ skip_fields (suc n) false t
unfolding skip_fields blanks
skip_fields-blanks n zero t = refl
skip_fields-blanks zero (suc m) t = skip_fields-blanks zero m t
skip_fields-blanks (suc n) (suc m) t = skip_fields-blanks (suc n) m t

-- A field with the blanks behind it, beyond the first.
abbrev pub Field : Type 0
Field = Text × ℕ

abbrev pub put_field : Field → Text → Text
put_field (s, gap) t = s ++ b' ' ∷ blanks gap t

pub skip_fields-field :
    (n : ℕ) (f : Field) (t : Text)
    → is_word f.0 ≡ true
    → skip_fields (suc (suc n)) false (put_field f t) ≡ skip_fields (suc n) false t
unfolding skip_fields
skip_fields-field n ([], gap) t h = cc
skip_fields-field n (c ∷ s, gap) t h =
    let e : is_whitespace c ≡ false = ground arith in
    rw e (skip_fields-inside n s (blanks gap t) (ground arith)) ∙ skip_fields-blanks n gap t

pub skip_fields-last_field :
    (f : Field) (t : Text)
    → is_word f.0 ≡ true
    → skip_fields 1 false (put_field f t) ≡ some (b' ' ∷ blanks f.1 t)
unfolding skip_fields
skip_fields-last_field ([], gap) t h = cc
skip_fields-last_field (c ∷ s, gap) t h =
    let e : is_whitespace c ≡ false = ground arith in
    rw e (skip_fields-last s (blanks gap t) (ground arith))

pub words-field :
    (f : Field) (t : Text) → is_word f.0 ≡ true → words (put_field f t) ≡ f.0 ∷ words t
words-field (s, gap) t h = words-append s (blanks gap t) h ∙ ap (λ r. s ∷ r) (words-blanks gap t)
