-- ===== src/Agent/Ini/OneLine.antt =====
-- The lines that are written hold no line breaks.
use tenodera.Prelude.{
  ◌≡◌, refl, Bool, true, false, ◌||◌, Option, none, some, List, [], ◌∷◌, ◌++◌, Text, nat_eq,
  text_eq, ◌==◌, all, All, All-append, map, arith, codes, if◌then◌else◌, Bool-cases, inl, inr,
}
use tenodera.Std.Lines.Trim.{no_feed}
use tenodera.Agent.Ini.{
  Line, header, setting, other, Setting, print_setting, print_header, ini_append_missing, put,
  replacement, set_of,
}
use tenodera.Agent.Ini.Printed.{is_key, key_char}
use tenodera.Agent.Ini.Update.{named}
use tenodera.Agent.Ini.Update.Others.{value_for-All}

-- A setting that can be written: a key without white space, `=` and `[`, and a value on one line.
abbrev pub IsPlain : Setting → Type 0
IsPlain p = (is_key p.0 ≡ true) × (no_feed p.1 ≡ true)

no_feed-key : (k : Text) → all key_char k ≡ true → no_feed k ≡ true
no_feed-key [] h = refl
no_feed-key (c ∷ k) h = ground (arith, no_feed-key k (ground arith))

no_feed-append : (s t : Text) → no_feed s ≡ true → no_feed t ≡ true → no_feed (s ++ t) ≡ true
no_feed-append [] t hs ht = ht
no_feed-append (c ∷ s) t hs ht = ground (arith, no_feed-append s t (ground arith) ht)

abbrev pub OneLine : Text → Type 0
OneLine s = no_feed s ≡ true

print_setting-OneLine : (p : Setting) → IsPlain p → OneLine (print_setting p)
print_setting-OneLine (k, v) (is, one) =
    no_feed-append k (codes " = " ++ v) (no_feed-key k (ground arith))
      (no_feed-append (codes " = ") v refl one)

map-OneLine : (kv : List Setting) → All IsPlain kv → All OneLine (map print_setting kv)
map-OneLine [] h = tt
map-OneLine (p ∷ kv) (h, hs) = (print_setting-OneLine p h, map-OneLine kv hs)

missing-OneLine :
    (kv : List Setting) (set : List Text) → All IsPlain kv → All OneLine (ini_append_missing kv set)
unfolding ini_append_missing
missing-OneLine [] set h = tt
missing-OneLine (p ∷ kv) set (h, hs) = elim (Bool-cases (named p.0 set)) [
  | inl done ↦ rw done (missing-OneLine kv set hs)
  | inr new ↦ rw new (print_setting-OneLine p h, missing-OneLine kv set hs)
]

optional-OneLine :
    (b : Bool) (xs ys : List Text)
    → All OneLine xs
    → All OneLine ys
    → All OneLine (if b then xs else ys)
optional-OneLine true xs ys hx hy = hx
optional-OneLine false xs ys hx hy = hy

module _ (section : Text) (kv : List Setting) (one : OneLine section) (plain : All IsPlain kv) where
  put-OneLine :
      (line : Text) (set : List Text) (more : List Text → List Text) (o : Option Setting)
      → OneLine line
      → ((s : List Text) → All OneLine (more s))
      → ((p : Setting) → o ≡ some p → IsPlain p)
      → All OneLine (put line set more o)
  put-OneLine line set more none h hs hp = (h, hs set)
  put-OneLine line set more (some p) h hs hp = (print_setting-OneLine p (hp p refl), hs (p.0 ∷ set))

  replacement-IsPlain :
      (inside : Bool) (k : Text) (p : Setting) → replacement inside k kv ≡ some p → IsPlain p
  replacement-IsPlain false k p e = cc
  replacement-IsPlain true k p e = value_for-All IsPlain kv k p plain e

  pub set_of-OneLine :
      (inside seen : Bool) (set : List Text) (ls : List (Text × Line))
      → All (λ (q : Text × Line). OneLine q.0) ls
      → All OneLine (set_of section kv inside seen set ls)
  unfolding set_of
  set_of-OneLine inside seen set [] h =
      All-append OneLine (if inside then ini_append_missing kv set else [])
        (if seen then [] else print_header section ∷ map print_setting kv)
        (optional-OneLine inside (ini_append_missing kv set) [] (missing-OneLine kv set plain) tt)
        (optional-OneLine seen [] (print_header section ∷ map print_setting kv) tt
          (no_feed-append section (codes "]") one refl, map-OneLine kv plain))
  set_of-OneLine inside seen set ((line, header name) ∷ rest) (h, hs) =
      All-append OneLine (if inside then ini_append_missing kv set else []) _
        (optional-OneLine inside (ini_append_missing kv set) [] (missing-OneLine kv set plain) tt)
        (h, set_of-OneLine (name == section) (seen || name == section) set rest hs)
  set_of-OneLine inside seen set ((line, other) ∷ rest) (h, hs) =
      (h, set_of-OneLine inside seen set rest hs)
  set_of-OneLine inside seen set ((line, setting k v) ∷ rest) (h, hs) =
      put-OneLine line set (λ s. set_of section kv inside seen s rest) (replacement inside k kv) h
        (λ s. set_of-OneLine inside seen s rest hs) (replacement-IsPlain inside k)
