-- ===== src/Agent/Ini/Update.antt =====
-- What lines of written settings say.
pub mod Others
pub mod Written
use tenodera.Prelude.{
  ◌≡◌, refl, ap, ◌∙◌, Bool, true, false, ◌&&◌, ◌||◌, Option, some, List, [], ◌∷◌, ◌++◌, Text,
  nat_eq, text_eq, ◌==◌, ==_iff, any, All, map, find, is_some, arith, if◌then◌else◌, Bool-cases,
  inl, inr,
}
use tenodera.Std.Str.{trim}
use tenodera.Agent.Ini.{Line, read_line, get_of, Setting, print_setting, ini_append_missing}
use tenodera.Agent.Ini.Printed.{is_key, read_line-print_setting}

abbrev pub value_for : List Setting → Text → Option Setting
value_for kv k = find (λ p. p.0 == k) kv

abbrev pub named : Text → List Text → Bool
named k set = any (λ x. x == k) set

-- The lines of a file, with what they say.
abbrev pub told : List Text → List (Text × Line)
told ls = map (λ l. (l, read_line l)) ls

pub some_injective {ℓ} : {A : Type ℓ} (a b : A) → some a ≡ some b → a ≡ b
some_injective a b e = cc

module _ (section key : Text) where
  -- A printed setting of another key, or outside the section, is passed over.
  pub get_of_skip :
      (inside : Bool) (p : Setting) (rest : List Line)
      → is_key p.0 ≡ true
      → (inside && p.0 == key) ≡ false
      → get_of section key inside (read_line (print_setting p) ∷ rest)
        ≡ get_of section key inside rest
  get_of_skip inside (k, v) rest h off =
      ap (λ l. get_of section key inside (l ∷ rest)) (read_line-print_setting k v h) ∙ rw off refl

  pub get_of_hit :
      (p : Setting) (rest : List Line)
      → is_key p.0 ≡ true
      → (p.0 == key) ≡ true
      → get_of section key true (read_line (print_setting p) ∷ rest) ≡ some (trim p.1)
  get_of_hit (k, v) rest h on =
      ap (λ l. get_of section key true (l ∷ rest)) (read_line-print_setting k v h) ∙ rw on refl

  pub get_of-map :
      (inside : Bool) (kv : List Setting) (rest : List Line)
      → All (λ p. is_key p.0 ≡ true) kv
      → (inside && is_some (value_for kv key)) ≡ false
      → get_of section key inside (map read_line (map print_setting kv) ++ rest)
        ≡ get_of section key inside rest
  get_of-map inside [] rest h off = refl
  get_of-map inside (p ∷ kv) rest (h, hs) off =
      get_of_skip inside p (map read_line (map print_setting kv) ++ rest) h (ground (arith, off))
      ∙ get_of-map inside kv rest hs (ground (arith, off))

  pub get_of-map_hit :
      (kv : List Setting) (rest : List Line) (p : Setting)
      → All (λ p. is_key p.0 ≡ true) kv
      → value_for kv key ≡ some p
      → get_of section key true (map read_line (map print_setting kv) ++ rest) ≡ some (trim p.1)
  get_of-map_hit [] rest p h e = cc
  get_of-map_hit (q ∷ kv) rest p (h, hs) e = elim (Bool-cases (q.0 == key)) [
    | inl on ↦
        get_of_hit q (map read_line (map print_setting kv) ++ rest) h on
        ∙ ap (λ o. some (trim o.1)) (some_injective q p (rw on at e))
    | inr off ↦
        get_of_skip true q (map read_line (map print_setting kv) ++ rest) h off
        ∙ get_of-map_hit kv rest p hs (rw off at e)
  ]

  pub get_of-missing :
      (inside : Bool) (kv : List Setting) (set : List Text) (rest : List Line)
      → All (λ p. is_key p.0 ≡ true) kv
      → (inside && is_some (value_for kv key)) ≡ false
      → get_of section key inside (map read_line (ini_append_missing kv set) ++ rest)
        ≡ get_of section key inside rest
  unfolding ini_append_missing
  get_of-missing inside [] set rest h off = refl
  get_of-missing inside (p ∷ kv) set rest (h, hs) off =
      let later = get_of-missing inside kv set rest hs (ground (arith, off)) in
      elim (Bool-cases (named p.0 set)) [
        | inl done ↦ rw done later
        | inr new ↦ rw new (
            get_of_skip inside p (map read_line (ini_append_missing kv set) ++ rest) h
              (ground (arith, off))
            ∙ later)
      ]

  pub get_of-missing_hit :
      (kv : List Setting) (set : List Text) (rest : List Line) (p : Setting)
      → All (λ p. is_key p.0 ≡ true) kv
      → value_for kv key ≡ some p
      → named key set ≡ false
      → get_of section key true (map read_line (ini_append_missing kv set) ++ rest)
        ≡ some (trim p.1)
  unfolding ini_append_missing
  get_of-missing_hit [] set rest p h e free = cc
  get_of-missing_hit (q ∷ kv) set rest p (h, hs) e free = elim (Bool-cases (q.0 == key)) [
    | inl on ↦
        let same = (==_iff q.0 key).0 on in
        rw (ap (λ k. named k set) same ∙ free) (
          get_of_hit q (map read_line (ini_append_missing kv set) ++ rest) h on
          ∙ ap (λ o. some (trim o.1)) (some_injective q p (rw on at e)))
    | inr off ↦
        let later = get_of-missing_hit kv set rest p hs (rw off at e) free in
        elim (Bool-cases (named q.0 set)) [
          | inl done ↦ rw done later
          | inr new ↦
              rw new (
                get_of_skip true q (map read_line (ini_append_missing kv set) ++ rest) h off
                ∙ later)
        ]
  ]
