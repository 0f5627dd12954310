-- ===== src/Agent/Ini/Update/Written.antt =====
-- Settings that are written are found with their new values.
use tenodera.Prelude.{
  ◌≡◌, refl, sym, ap, ◌∙◌, Bool, true, false, not, ◌||◌, none, some, List, [], ◌∷◌, ◌++◌,
  append-nil, Text, nat_eq, text_eq, ◌==◌, ==_iff, ==_refl, All, map, if◌then◌else◌, Bool-cases,
  Option-cases, inl, inr,
}
use tenodera.Std.Str.{trim}
use tenodera.Std.Lines.Trim.{map-append}
use tenodera.Agent.Ini.{
  Line, header, setting, other, read_line, get_of, Setting, print_setting, print_header,
  ini_append_missing, set_of,
}
use tenodera.Agent.Ini.Printed.{is_key, read_line-print_header}
use tenodera.Agent.Ini.Update.{
  some_injective, value_for, named, get_of_skip, get_of_hit, get_of-map_hit, get_of-missing_hit,
}
use tenodera.Agent.Ini.Update.Others.{Told, value_for_sound}

module _ (section : Text) (kv : List Setting) (keys : All (λ p. is_key p.0 ≡ true) kv) (key : Text)
    (p : Setting) (e : value_for kv key ≡ some p) where
  not_free : (k : Text) → value_for kv k ≡ none → (k == key) ≡ false
  not_free k free = elim (Bool-cases (k == key)) [
    | inr different ↦ different
    | inl on ↦
        let same = (==_iff k key).0 on in
        let clash : none ≡ some p = sym free ∙ ap (value_for kv) same ∙ e in absurd (cc)
  ]

  at_end :
      get_of section key false (map read_line (print_header section ∷ map print_setting kv))
      ≡ some (trim p.1)
  at_end =
      ap (λ l. get_of section key false (l ∷ map read_line (map print_setting kv)))
        (read_line-print_header section)
      ∙ ap (λ b. get_of section key b (map read_line (map print_setting kv))) (==_refl section)
      ∙ ap (get_of section key true) (sym (append-nil (map read_line (map print_setting kv))))
      ∙ get_of-map_hit section key kv [] p keys e

  leaving :
      (set : List Text) (rest : List Text)
      → named key set ≡ false
      → get_of section key true (map read_line (ini_append_missing kv set ++ rest))
        ≡ some (trim p.1)
  leaving set rest free =
      ap (get_of section key true) (map-append read_line (ini_append_missing kv set) rest)
      ∙ get_of-missing_hit section key kv set (map read_line rest) p keys e free

  behind :
      (line : Text) (l : Line) (inside : Bool) (out : List Text)
      → read_line line ≡ l
      → get_of section key inside (map read_line (line ∷ out))
        ≡ get_of section key inside (l ∷ map read_line out)
  behind line l inside out h = ap (λ x. get_of section key inside (x ∷ map read_line out)) h

  either : (b : Bool) → (b || not b) ≡ true
  either true = refl
  either false = refl

  pub set_of_written :
      (inside seen : Bool) (set : List Text) (ls : List (Text × Line))
      → Told ls
      → named key set ≡ false
      → (inside || not seen) ≡ true
      → get_of section key inside (map read_line (set_of section kv inside seen set ls))
        ≡ some (trim p.1)
  unfolding set_of
  set_of_written true seen set [] h free open_yet =
      leaving set (if seen then [] else print_header section ∷ map print_setting kv) free
  set_of_written false false set [] h free open_yet = at_end
  set_of_written false true set [] h free open_yet = cc
  set_of_written true seen set ((line, header name) ∷ rest) (h, hs) free open_yet =
      leaving set _ free
  set_of_written false false set ((line, header name) ∷ rest) (h, hs) free open_yet =
      let inner = name == section in
      behind line (header name) false (set_of section kv inner inner set rest) h
      ∙ set_of_written inner inner set rest hs free (either inner)
  set_of_written false true set ((line, header name) ∷ rest) (h, hs) free open_yet = cc
  set_of_written inside seen set ((line, other) ∷ rest) (h, hs) free open_yet =
      behind line other inside (set_of section kv inside seen set rest) h
      ∙ set_of_written inside seen set rest hs free open_yet
  set_of_written false seen set ((line, setting k v) ∷ rest) (h, hs) free open_yet =
      behind line (setting k v) false (set_of section kv false seen set rest) h
      ∙ set_of_written false seen set rest hs free open_yet
  set_of_written true seen set ((line, setting k v) ∷ rest) (h, hs) free open_yet =
      elim (Option-cases (value_for kv k)) [
        | inl none_for ↦ rw none_for (
            behind line (setting k v) true (set_of section kv true seen set rest) h
            ∙ rw (not_free k none_for) (set_of_written true seen set rest hs free open_yet))
        | inr (q, f) ↦
            let (same, is) = value_for_sound kv k q keys f in
            let later = set_of section kv true seen (q.0 ∷ set) rest in
            rw f (elim (Bool-cases (q.0 == key)) [
              | inl on ↦
                  let there = (==_iff q.0 key).0 on in
                  let one : q ≡ p =
                    some_injective q p (sym f ∙ ap (value_for kv) (sym same ∙ there) ∙ e) in
                  get_of_hit section key q (map read_line later) is on
                  ∙ ap (λ r. some (trim r.1)) one
              | inr off ↦
                  get_of_skip section key true q (map read_line later) is off
                  ∙ set_of_written true seen (q.0 ∷ set) rest hs (rw off free) open_yet
            ])
      ]
