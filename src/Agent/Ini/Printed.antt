-- ===== src/Agent/Ini/Printed.antt =====
-- How printed settings and headers are read.
use tenodera.Prelude.{
  ◌≡◌, Bool-cases, inl, inr, append_assoc, refl, sym, ap, ◌∙◌, ℕ, ◌-◌, Bool, true, false, not, ◌&&◌,
  some, [], ◌∷◌, ◌++◌, Text, nat_eq, text_eq, text_beq, ◌==◌, ==_iff, ==_refl, all, length, take,
  is_empty, codes, arith, length-append, take-length_append,
}
use tenodera.Std.Str.{is_whitespace, trim, trim_start, trim_end, ends_with, strip_prefix}
use tenodera.Std.Lines.{starts_with}
use tenodera.Std.Lines.Trim.{trim_end_idem}
use tenodera.Agent.Ini.{
  split_once, header, setting, setting_of, read_trimmed, read_line, print_setting, print_header,
}

-- No white space, no sign of equality, no bracket.
abbrev pub key_char : ℕ → Bool
key_char c = not (is_whitespace c) && not (c == b'=') && not (b'[' == c)

abbrev pub is_key : Text → Bool
is_key k = not (is_empty k) && all key_char k

trim_end-append :
    (s t : Text) (c : ℕ) → is_whitespace c ≡ false → trim_end (s ++ c ∷ t) ≡ s ++ c ∷ trim_end t
unfolding trim_end text_beq
trim_end-append [] t c h = rw h refl
trim_end-append (d ∷ []) t c h = ground (arith, trim_end-append [] t c h)
trim_end-append (d ∷ e ∷ s) t c h = ground (arith, trim_end-append (e ∷ s) t c h)

trim_start-trim_end : (s : Text) → trim_start (trim_end s) ≡ trim_end (trim_start s)
unfolding trim_start trim_end
trim_start-trim_end [] = refl
trim_start-trim_end (c ∷ s) = elim (Bool-cases (is_whitespace c)) [
  | inr black ↦ rw black (rw black refl)
  | inl white ↦ elim (Bool-cases (trim_end s == [])) [
    | inl blank ↦
        rw (white, blank)
          (ap trim_start (sym ((==_iff (trim_end s) []).0 blank)) ∙ trim_start-trim_end s)
    | inr text ↦ rw (white, text) (rw white (trim_start-trim_end s))
  ]
]

trim-trim_end : (s : Text) → trim (trim_end s) ≡ trim s
unfolding trim
trim-trim_end s = ap trim_end (trim_start-trim_end s) ∙ trim_end_idem (trim_start s)

trim_end_key : (k : Text) → all key_char k ≡ true → trim_end (k ++ b' ' ∷ []) ≡ k
unfolding trim_end text_beq
trim_end_key [] h = refl
trim_end_key (c ∷ k) h =
    let black : is_whitespace c ≡ false = ground arith in
    rw black (ap (λ t. c ∷ t) (trim_end_key k (ground arith)))

trim_start_key : (k t : Text) → is_key k ≡ true → trim_start (k ++ t) ≡ k ++ t
unfolding trim_start
trim_start_key [] t h = cc
trim_start_key (c ∷ k) t h = let black : is_whitespace c ≡ false = ground arith in rw black refl

-- A key, with a blank behind it.
trim_key : (k : Text) → is_key k ≡ true → trim (k ++ b' ' ∷ []) ≡ k
unfolding trim
trim_key k h = ap trim_end (trim_start_key k (b' ' ∷ []) h) ∙ trim_end_key k (ground arith)

split_once-append :
    (k t : Text) (c : ℕ)
    → all (λ d. not (d == c)) k ≡ true
    → split_once c (k ++ c ∷ t) ≡ some (k, t)
unfolding split_once
split_once-append [] t c h = rw (==_refl c) refl
split_once-append (d ∷ k) t c h =
    let off : (d == c) ≡ false = ground arith in
    rw (off, split_once-append k t c (ground arith)) refl

all_no_equals :
    (k : Text) → all key_char k ≡ true → all (λ d. not (d == b'=')) (k ++ b' ' ∷ []) ≡ true
all_no_equals [] h = refl
all_no_equals (c ∷ k) h = ground (arith, all_no_equals k (ground arith))

print_setting-equals : (k v : Text) → print_setting (k, v) ≡ (k ++ b' ' ∷ []) ++ b'=' ∷ b' ' ∷ v
print_setting-equals k v = sym (append_assoc k (b' ' ∷ []) (b'=' ∷ b' ' ∷ v))

trim-print_setting :
    (k v : Text)
    → is_key k ≡ true
    → trim (print_setting (k, v)) ≡ (k ++ b' ' ∷ []) ++ b'=' ∷ trim_end (b' ' ∷ v)
unfolding trim
trim-print_setting k v h =
    ap trim_end (trim_start_key k (codes " = " ++ v) h ∙ print_setting-equals k v)
    ∙ trim_end-append (k ++ b' ' ∷ []) (b' ' ∷ v) b'=' refl

and_left : (a b : Bool) → (a && b) ≡ true → a ≡ true
and_left true b h = refl
and_left false b h = h

starts_with_other :
    (c : ℕ) (s : Text) → (b'[' == c) ≡ false → starts_with (codes "[") (c ∷ s) ≡ false
unfolding starts_with strip_prefix
starts_with_other c s h = rw h refl

no_bracket : (c : ℕ) → key_char c ≡ true → (b'[' == c) ≡ false
no_bracket c h = ground arith

-- No key begins like a header.
starts_with-key :
    (k t : Text) → is_key k ≡ true → starts_with (codes "[") ((k ++ b' ' ∷ []) ++ t) ≡ false
starts_with-key [] t h = cc
starts_with-key (c ∷ k) t h =
    starts_with_other c ((k ++ b' ' ∷ []) ++ t)
      (no_bracket c (and_left (key_char c) (all key_char k) h))

trim_blank : (v : Text) → trim (b' ' ∷ v) ≡ trim v
unfolding trim trim_start
trim_blank v = refl

-- A printed setting is read back, its value without the white space around it.
pub read_line-print_setting :
    (k v : Text) → is_key k ≡ true → read_line (print_setting (k, v)) ≡ setting k (trim v)
unfolding read_trimmed
read_line-print_setting k v h =
    let tail = trim_end (b' ' ∷ v) in
    ap read_trimmed (trim-print_setting k v h)
    ∙ (rw (starts_with-key k (b'=' ∷ tail) h) (
        ap setting_of
          (split_once-append (k ++ b' ' ∷ []) tail b'=' (all_no_equals k (ground arith)))))
    ∙ ap (λ x. setting x (trim tail)) (trim_key k h)
    ∙ ap (setting k) (trim-trim_end (b' ' ∷ v) ∙ trim_blank v)

ends_with-print_header : (s : Text) → ends_with (codes "]") (s ++ codes "]") ≡ true
unfolding ends_with text_beq
ends_with-print_header [] = refl
ends_with-print_header (c ∷ s) = ground (arith, ends_with-print_header s)

trim-print_header : (section : Text) → trim (print_header section) ≡ print_header section
unfolding trim trim_start
trim-print_header section = trim_end-append (b'[' ∷ section) [] b']' refl

take-print_header :
    (section : Text) → take (length (print_header section) - 2) (section ++ codes "]") ≡ section
take-print_header section =
    let n : length (print_header section) - 2 ≡ length section =
      omega (arith, length-append section (codes "]")) in
    ap (λ m. take m (section ++ codes "]")) n ∙ take-length_append section (codes "]")

pub read_line-print_header : (section : Text) → read_line (print_header section) ≡ header section
unfolding read_trimmed
read_line-print_header section =
    ap read_trimmed (trim-print_header section)
    ∙ rw (ends_with-print_header section) (ap header (take-print_header section))
