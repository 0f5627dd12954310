-- ===== src/Std/Str.antt =====
-- What the code uses of `str`, over the code points of a text.
use tenodera.Prelude.{
  ◌≡◌, refl, ℕ, ◌+◌, Bool, true, false, not, ◌&&◌, ◌||◌, Option, none, some, [], ◌∷◌, ◌++◌, Text,
  nat_eq, text_eq, text_beq, ◌==◌, ==_iff, ==_refl, arith, leb, all, if◌then◌else◌,
}

-- `s.strip_prefix(prefix)`
unfoldable pub strip_prefix : Text → Text → Option Text
strip_prefix [] s = some s
strip_prefix (p ∷ prefix) [] = none
strip_prefix (p ∷ prefix) (c ∷ s) =
    let rest = strip_prefix prefix s in if p == c then rest else none

-- `s.split(c).next()`, which is never `None`.
unfoldable pub until : ℕ → Text → Text
until c [] = []
until c (d ∷ s) = if d == c then [] else d ∷ until c s

-- `char::to_ascii_lowercase`
abbrev pub to_ascii_lowercase : ℕ → ℕ
to_ascii_lowercase c = if leb b'A' c && leb c b'Z' then c + 32 else c

unfoldable pub eq_ignore_ascii_case : Text → Text → Bool
eq_ignore_ascii_case [] [] = true
eq_ignore_ascii_case [] (d ∷ t) = false
eq_ignore_ascii_case (c ∷ s) [] = false
eq_ignore_ascii_case (c ∷ s) (d ∷ t) =
    to_ascii_lowercase c == to_ascii_lowercase d && eq_ignore_ascii_case s t

-- `char::is_whitespace`: the code points with the property White_Space.
abbrev pub is_whitespace : ℕ → Bool
is_whitespace c =
    (leb 9 c && leb c 13)
    || c == 32
    || c == 0x85
    || c == 0xa0
    || c == 0x1680
    || (leb 0x2000 c && leb c 0x200a)
    || c == 0x2028
    || c == 0x2029
    || c == 0x202f
    || c == 0x205f
    || c == 0x3000

unfoldable pub trim_start : Text → Text
trim_start [] = []
trim_start (c ∷ s) = if is_whitespace c then trim_start s else c ∷ s

unfoldable pub trim_end : Text → Text
trim_end [] = []
trim_end (c ∷ s) = let rest = trim_end s in if is_whitespace c && rest == [] then [] else c ∷ rest

unfoldable pub trim : Text → Text
unfolding trim_start trim_end
trim s = trim_end (trim_start s)

pub strip_prefix-append : (p s : Text) → strip_prefix p (p ++ s) ≡ some s
unfolding strip_prefix
strip_prefix-append [] s = refl
strip_prefix-append (c ∷ p) s = ground (arith, ==_refl c, strip_prefix-append p s)

pub strip_prefix_sound : (p s t : Text) → strip_prefix p s ≡ some t → s ≡ p ++ t
unfolding strip_prefix
strip_prefix_sound [] s t h = ground arith
strip_prefix_sound (c ∷ p) [] t h = ground arith
strip_prefix_sound (c ∷ p) (d ∷ s) t h = ground (arith, ==_iff c d, strip_prefix_sound p s t)

-- A text without the character is not cut.
pub until_free : (c : ℕ) (s : Text) → all (λ d. not (d == c)) s ≡ true → until c s ≡ s
unfolding until
until_free c [] h = refl
until_free c (d ∷ s) h = ground (arith, until_free c s)

-- A text up to the character, whatever follows.
pub until-append :
    (c : ℕ) (s t : Text) → all (λ d. not (d == c)) s ≡ true → until c (s ++ c ∷ t) ≡ s
unfolding until
until-append c [] t h = ground (arith, ==_refl c)
until-append c (d ∷ s) t h = ground (arith, until-append c s t)

-- `s.ends_with(suffix)`
unfoldable pub ends_with : Text → Text → Bool
unfolding text_beq
ends_with suffix [] = suffix == []
ends_with suffix (c ∷ s) = (c ∷ s) == suffix || ends_with suffix s
