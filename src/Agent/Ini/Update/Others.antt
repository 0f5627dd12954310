-- ===== src/Agent/Ini/Update/Others.antt =====
-- Settings that are not written keep their values.
use tenodera.Prelude.{
  ◌≡◌, refl, sym, ap, ◌∙◌, Bool, true, false, ◌&&◌, ◌||◌, none, some, List, [], ◌∷◌, ◌++◌,
  append-nil, Text, nat_eq, text_eq, ◌==◌, ==_iff, All, map, is_some, if◌then◌else◌, Bool-cases,
  Option-cases, inl, inr,
}
use mathlib.Core.Path.{subst}
use tenodera.Std.Lines.Trim.{map-append}
use tenodera.Agent.Ini.{
  Line, header, setting, other, read_line, get_of, Setting, print_setting, print_header,
  ini_append_missing, set_of,
}
use tenodera.Agent.Ini.Printed.{is_key, read_line-print_header}
use tenodera.Agent.Ini.Update.{some_injective, value_for, get_of_skip, get_of-map, get_of-missing}

-- Lines with what they say.
abbrev pub Told : List (Text × Line) → Type 0
Told ls = All (λ (q : Text × Line). read_line q.0 ≡ q.1) ls

abbrev pub said : List (Text × Line) → List Line
said ls = map (λ q. q.1) ls

-- A setting that is found has the key that is looked for.
value_for_key : (kv : List Setting) (k : Text) (p : Setting) → value_for kv k ≡ some p → p.0 ≡ k
value_for_key [] k p e = cc
value_for_key (q ∷ kv) k p e = elim (Bool-cases (q.0 == k)) [
  | inl on ↦ ap (λ r. r.0) (sym (some_injective q p (rw on at e))) ∙ (==_iff q.0 k).0 on
  | inr off ↦ value_for_key kv k p (rw off at e)
]

-- What holds of all settings holds of the one that is found.
pub value_for-All :
    (P : Setting → Type 0) (kv : List Setting) (k : Text) (p : Setting)
    → All P kv
    → value_for kv k ≡ some p
    → P p
value_for-All P [] k p h e = cc
value_for-All P (q ∷ kv) k p (h, hs) e = elim (Bool-cases (q.0 == k)) [
  | inl on ↦ subst P (some_injective q p (rw on at e)) h
  | inr off ↦ value_for-All P kv k p hs (rw off at e)
]

pub value_for_sound :
    (kv : List Setting) (k : Text) (p : Setting)
    → All (λ p. is_key p.0 ≡ true) kv
    → value_for kv k ≡ some p
    → (p.0 ≡ k) × (is_key p.0 ≡ true)
value_for_sound kv k p h e =
    (value_for_key kv k p e, value_for-All (λ p. is_key p.0 ≡ true) kv k p h e)

module _ (section : Text) (kv : List Setting) (keys : All (λ p. is_key p.0 ≡ true) kv) where
  module _ (at key : Text) (off : (section == at && is_some (value_for kv key)) ≡ false) where
    abbrev Apart : Bool → Bool → Type 0
    Apart inside here = (inside && (here && is_some (value_for kv key))) ≡ false

    get_of_optional :
        (inside here : Bool) (set : List Text) (rest : List Text)
        → Apart inside here
        → get_of at key here
            (map read_line ((if inside then ini_append_missing kv set else []) ++ rest))
          ≡ get_of at key here (map read_line rest)
    get_of_optional false here set rest h = refl
    get_of_optional true here set rest h =
        ap (get_of at key here) (map-append read_line (ini_append_missing kv set) rest)
        ∙ get_of-missing at key here kv set (map read_line rest) keys h

    get_of_end :
        (seen here : Bool)
        → get_of at key here
            (map read_line (if seen then [] else print_header section ∷ map print_setting kv))
          ≡ none
    get_of_end true here = refl
    get_of_end false here =
        ap (λ l. get_of at key here (l ∷ map read_line (map print_setting kv)))
          (read_line-print_header section)
        ∙ ap (get_of at key (section == at))
            (sym (append-nil (map read_line (map print_setting kv))))
        ∙ get_of-map at key (section == at) kv [] keys off

    Apart-header : (name : Text) → Apart (name == section) (name == at)
    Apart-header name = elim (Bool-cases (name == section)) [
      | inr out ↦ rw out refl
      | inl on ↦
          let same = (==_iff name section).0 on in
          rw on (ap (λ n. n == at && is_some (value_for kv key)) same ∙ off)
    ]

    written_hidden :
        (k : Text) (p : Setting) (here : Bool)
        → value_for kv k ≡ some p
        → Apart true here
        → (here && k == key) ≡ false
    written_hidden k p false e apart = refl
    written_hidden k p true e apart = elim (Bool-cases (k == key)) [
      | inr different ↦ different
      | inl on ↦
          let same = (==_iff k key).0 on in
          let clash : true ≡ false =
            ap is_some (sym e) ∙ ap (λ x. is_some (value_for kv x)) same ∙ apart in
          absurd (cc)
    ]

    kept :
        (line k v : Text) (here : Bool) (out : List Text) (rest : List Line)
        → read_line line ≡ setting k v
        → get_of at key here (map read_line out) ≡ get_of at key here rest
        → get_of at key here (map read_line (line ∷ out)) ≡ get_of at key here (setting k v ∷ rest)
    kept line k v here out rest h same =
        ap (λ l. get_of at key here (l ∷ map read_line out)) h
        ∙ ap (λ r. if here && k == key then some v else r) same

    pub set_of_others :
        (inside seen here : Bool) (set : List Text) (ls : List (Text × Line))
        → Told ls
        → Apart inside here
        → get_of at key here (map read_line (set_of section kv inside seen set ls))
          ≡ get_of at key here (said ls)
    unfolding set_of
    set_of_others inside seen here set [] h apart =
        get_of_optional inside here set
          (if seen then [] else print_header section ∷ map print_setting kv) apart
        ∙ get_of_end seen here
    set_of_others inside seen here set ((line, header name) ∷ rest) (h, hs) apart =
        let inner = name == section in
        let later = set_of section kv inner (seen || inner) set rest in
        get_of_optional inside here set (line ∷ later) apart
        ∙ ap (λ l. get_of at key here (l ∷ map read_line later)) h
        ∙ set_of_others inner (seen || inner) (name == at) set rest hs (Apart-header name)
    set_of_others inside seen here set ((line, other) ∷ rest) (h, hs) apart =
        ap (λ l. get_of at key here (l ∷ map read_line (set_of section kv inside seen set rest))) h
        ∙ set_of_others inside seen here set rest hs apart
    set_of_others false seen here set ((line, setting k v) ∷ rest) (h, hs) apart =
        kept line k v here _ (said rest) h (set_of_others false seen here set rest hs apart)
    set_of_others true seen here set ((line, setting k v) ∷ rest) (h, hs) apart =
        elim (Option-cases (value_for kv k)) [
          | inl free ↦
              rw free (
                kept line k v here _ (said rest) h (set_of_others true seen here set rest hs apart))
          | inr (p, e) ↦
              let (same, is) = value_for_sound kv k p keys e in
              let hidden = written_hidden k p here e apart in
              rw (e, hidden)
                (get_of_skip at key here p
                    (map read_line (set_of section kv true seen (p.0 ∷ set) rest)) is
                    (ap (λ x. here && x == key) same ∙ hidden)
                  ∙ set_of_others true seen here (p.0 ∷ set) rest hs apart)
        ]
