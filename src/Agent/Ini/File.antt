-- ===== src/Agent/Ini/File.antt =====
-- What is read from a file after settings are written to it.
use tenodera.Prelude.{
  ◌≡◌, refl, sym, ap, ◌∙◌, true, false, ◌&&◌, Option, none, some, List, [], ◌∷◌, Text, nat_eq,
  text_eq, ◌==◌, ==_iff, All, All-map, map, is_some, is_empty, if◌then◌else◌, Bool-cases,
  Option-cases, inl, inr,
}
use tenodera.Std.Str.{trim}
use tenodera.Std.Lines.{lines}
use tenodera.Std.Lines.Laws.{print_lines}
use tenodera.Std.Lines.Trim.{no_feed, no_feed-lines}
use tenodera.Std.Lines.Edits.{trimmed_lines, trimmed_lines-print_lines, join_lines}
use tenodera.Agent.Ini.{
  Line, header, setting, other, read_trimmed, read_line, get_of, ini_get, Setting, set_of, ini_set,
}
use tenodera.Agent.Ini.Printed.{is_key}
use tenodera.Agent.Ini.Update.{value_for, told}
use tenodera.Agent.Ini.Update.Others.{Told, said, set_of_others}
use tenodera.Agent.Ini.Update.Written.{set_of_written}
use tenodera.Agent.Ini.OneLine.{IsPlain, OneLine, set_of-OneLine}

Told-told : (ls : List Text) → Told (told ls)
Told-told [] = tt
Told-told (l ∷ ls) = (refl, Told-told ls)

said-told : (ls : List Text) → said (told ls) ≡ map read_line ls
said-told [] = refl
said-told (l ∷ ls) = ap (λ r. read_line l ∷ r) (said-told ls)

map-read_trimmed : (ls : List Text) → map read_trimmed (map trim ls) ≡ map read_line ls
unfolding read_trimmed read_line
map-read_trimmed [] = refl
map-read_trimmed (l ∷ ls) = ap (λ r. read_line l ∷ r) (map-read_trimmed ls)

told-OneLine : (ls : List Text) → All OneLine ls → All (λ (q : Text × Line). OneLine q.0) (told ls)
told-OneLine [] h = tt
told-OneLine (l ∷ ls) (h, hs) = (h, told-OneLine ls hs)

keys_of : (kv : List Setting) → All IsPlain kv → All (λ p. is_key p.0 ≡ true) kv
keys_of kv h = All-map IsPlain (λ p. is_key p.0 ≡ true) (λ p plain. plain.0) kv h

-- Something is written.
is_empty-set_of :
    (section : Text) (kv : List Setting) (ls : List Text)
    → is_empty (set_of section kv false false [] (told ls)) ≡ false
unfolding set_of
is_empty-set_of section kv [] = refl
is_empty-set_of section kv (l ∷ ls) = of_line (read_line l)
  where
    of_line : (x : Line) → is_empty (set_of section kv false false [] ((l, x) ∷ told ls)) ≡ false
    of_line (header name) = refl
    of_line (setting k v) = refl
    of_line other = refl

ini_get-lines :
    (content section key : Text)
    → ini_get content section key
      ≡ get_of section key false (map read_trimmed (trimmed_lines content))
unfolding ini_get
ini_get-lines content section key =
    ap (get_of section key false) (sym (map-read_trimmed (lines content)))

-- The new value, or the old one.
abbrev pub or_old : Option Setting → Option Text → Option Text
or_old none old = old
or_old (some p) old = some (trim p.1)

module _ (content section : Text) (kv : List Setting) (one : no_feed section ≡ true)
    (plain : All IsPlain kv) where
  abbrev out : List Text
  out = set_of section kv false false [] (told (lines content))

  ini_get-out :
      (at key : Text)
      → ini_get (ini_set content section kv) at key ≡ get_of at key false (map read_line out)
  unfolding ini_set
  ini_get-out at key =
      let whole = join_lines out (is_empty-set_of section kv (lines content)) in
      let safe =
        set_of-OneLine section kv one plain false false [] (told (lines content))
          (told-OneLine (lines content) (no_feed-lines content)) in
      ap (λ c. ini_get c at key) whole
      ∙ ini_get-lines (print_lines out) at key
      ∙ ap (λ ls. get_of at key false (map read_trimmed ls)) (trimmed_lines-print_lines out safe)
      ∙ ap (get_of at key false) (map-read_trimmed out)

  get_of-others :
      (at key : Text)
      → (section == at && is_some (value_for kv key)) ≡ false
      → get_of at key false (map read_line out) ≡ ini_get content at key
  unfolding ini_get
  get_of-others at key off =
      set_of_others section kv (keys_of kv plain) at key off false false false []
        (told (lines content)) (Told-told (lines content)) refl
      ∙ ap (get_of at key false) (said-told (lines content))

  -- Let settings be written whose keys are not empty and hold no white space, `=` or `[`, and
  -- whose values hold no line feed, to a section whose name holds none. Whatever the file held, a
  -- key of that section is then read as the first value written for it, without the white space
  -- around it, if there is one; and any other key, or a key of another section, is read as before.
  pub ini_get-ini_set :
      (at key : Text)
      → ini_get (ini_set content section kv) at key ≡ (
          if section == at
          then or_old (value_for kv key) (ini_get content at key)
          else ini_get content at key)
  ini_get-ini_set at key = elim (Bool-cases (section == at)) [
    | inr elsewhere ↦ rw elsewhere (ini_get-out at key ∙ get_of-others at key (rw elsewhere refl))
    | inl here ↦ rw here (elim (Option-cases (value_for kv key)) [
      | inl free ↦ rw free (ini_get-out at key ∙ get_of-others at key (rw (here, free) refl))
      | inr (p, e) ↦
          let same = (==_iff section at).0 here in
          rw e (
            ini_get-out at key
            ∙ ap (λ s. get_of s key false (map read_line out)) (sym same)
            ∙ set_of_written section kv (keys_of kv plain) key p e false false []
                (told (lines content)) (Told-told (lines content)) refl refl)
    ])
  ]
