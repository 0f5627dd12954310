-- ===== src/Agent/Files/Listing/Sizes.antt =====
-- The sizes in a listing: a printed number is a word, and is read back.
use tenodera.Prelude.{
  ◌≡◌, refl, ap, ◌∙◌, ℕ, zero, suc, ◌+◌, ◌-◌, ◌*◌, ◌/◌, ◌%◌, ◌<◌, Bool, true, false, not, some, [],
  ◌∷◌, ◌++◌, Text, nat_eq, ◌==◌, ltb, all, is_empty, arith, Bool-cases, inl, inr,
}
use tenodera.Std.Str.{is_whitespace}
use tenodera.Std.Number.{is_digit, digits_value, parse_unsigned, decimal_from, decimal}
use tenodera.Std.Lines.Laws.{is_word}

digits_value-append :
    (m : ℕ) (s : Text) (c : ℕ) → digits_value m (s ++ c ∷ []) ≡ digits_value m s * 10 + (c - b'0')
digits_value-append m [] c = refl
digits_value-append m (d ∷ s) c = digits_value-append (m * 10 + (d - b'0')) s c

all-snoc :
    (p : ℕ → Bool) (s : Text) (c : ℕ) → all p s ≡ true → p c ≡ true → all p (s ++ c ∷ []) ≡ true
all-snoc p [] c h e = ground arith
all-snoc p (d ∷ s) c h e = ground (arith, all-snoc p s c)

digit_of : (n : ℕ) → n < 10 → is_digit (b'0' + n) ≡ true
digit_of n h = ground arith

digits_value-decimal_from : (fuel n : ℕ) → n < fuel → digits_value 0 (decimal_from fuel n) ≡ n
digits_value-decimal_from zero n h = absurd (omega arith)
digits_value-decimal_from (suc fuel) n h = elim (Bool-cases (ltb n 10)) [
  | inl small ↦ rw small (omega arith)
  | inr big ↦
      let less : n / 10 < fuel = ground arith in
      let front = digits_value-decimal_from fuel (n / 10) less in
      let last = digits_value-append 0 (decimal_from fuel (n / 10)) (b'0' + n % 10) in
      rw big (last ∙ rw front (omega arith))
]

all-decimal_from : (fuel n : ℕ) → all is_digit (decimal_from fuel n) ≡ true
all-decimal_from zero n = refl
all-decimal_from (suc fuel) n = elim (Bool-cases (ltb n 10)) [
  | inl small ↦ rw small (ground (arith, digit_of n))
  | inr big ↦
      let digit : n % 10 < 10 = omega arith in
      rw big (
        all-snoc is_digit (decimal_from fuel (n / 10)) (b'0' + n % 10)
          (all-decimal_from fuel (n / 10)) (digit_of (n % 10) digit))
]

is_empty-snoc : (s : Text) (c : ℕ) → is_empty (s ++ c ∷ []) ≡ false
is_empty-snoc [] c = refl
is_empty-snoc (d ∷ s) c = refl

is_empty-decimal_from : (fuel n : ℕ) → is_empty (decimal_from (suc fuel) n) ≡ false
is_empty-decimal_from fuel n = elim (Bool-cases (ltb n 10)) [
  | inl small ↦ rw small refl
  | inr big ↦ rw big (is_empty-snoc (decimal_from fuel (n / 10)) (b'0' + n % 10))
]

is_digit-is_whitespace : (c : ℕ) → is_digit c ≡ true → is_whitespace c ≡ false
is_digit-is_whitespace c h = ground arith

all-is_whitespace : (s : Text) → all is_digit s ≡ true → all (λ c. not (is_whitespace c)) s ≡ true
all-is_whitespace [] h = refl
all-is_whitespace (c ∷ s) h = ground (arith, is_digit-is_whitespace c, all-is_whitespace s)

parse_unsigned-digits :
    (bound n : ℕ) (s : Text)
    → is_empty s ≡ false
    → all is_digit s ≡ true
    → digits_value 0 s ≡ n
    → n < bound
    → parse_unsigned bound s ≡ some n
unfolding parse_unsigned
parse_unsigned-digits bound n [] e d v l = absurd (ground arith)
parse_unsigned-digits bound n (c ∷ s) e d v l =
    let sign : (c == b'+') ≡ false = ground arith in
    let low : ltb n bound ≡ true = ground arith in rw (sign, d, v, low) refl

decimal_steps : (n : ℕ) → decimal n ≡ decimal_from (suc n) n
unfolding decimal
decimal_steps n = let e : n + 1 ≡ suc n = omega arith in ap (λ f. decimal_from f n) e

-- A number below a bound is parsed back.
pub parse_unsigned-decimal : (bound n : ℕ) → n < bound → parse_unsigned bound (decimal n) ≡ some n
parse_unsigned-decimal bound n l =
    let e = decimal_steps n in
    ap (parse_unsigned bound) e
    ∙ parse_unsigned-digits bound n (decimal_from (suc n) n) (is_empty-decimal_from n n)
        (all-decimal_from (suc n) n) (digits_value-decimal_from (suc n) n (omega arith)) l

pub is_word-decimal : (n : ℕ) → is_word (decimal n) ≡ true
is_word-decimal n =
    let full = is_empty-decimal_from n n in
    let dark = all-is_whitespace (decimal_from (suc n) n) (all-decimal_from (suc n) n) in
    ap is_word (decimal_steps n) ∙ rw (full, dark) refl
