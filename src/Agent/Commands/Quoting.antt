-- ===== src/Agent/Commands/Quoting.antt =====
-- A POSIX shell that reads the pipeline of `sudo_stdin_write_as_user` runs what was asked for.
use tenodera.Prelude.{
  ◌≡◌, refl, sym, ap, ◌∙◌, ℕ, Bool, true, false, ◌&&◌, ◌||◌, Option, none, some, List, [], ◌∷◌,
  ◌++◌, Text, nat_eq, ◌==◌, ==_iff, leb, map, all, append_assoc, append-nil, codes, arith,
  Bool-cases, inl, inr, if◌then◌else◌,
}
use tenodera.Std.Lines.{join}
use tenodera.Agent.Util.{replace_quotes, shell_escape}
use tenodera.Agent.Util.Shell.{Mode, bare, quoted, escaped}
use tenodera.Agent.Commands.{Host, pipeline}

-- The stages of a pipeline, each a list of words.
abbrev Stages : Type 0
Stages = List (List Text)

-- A character in front of the first word of the first stage.
abbrev put : ℕ → Option Stages → Option Stages
put c none = none
put c (some []) = none
put c (some ([] ∷ stages)) = none
put c (some ((w ∷ ws) ∷ stages)) = some (((c ∷ w) ∷ ws) ∷ stages)

abbrev put_all : Text → Option Stages → Option Stages
put_all [] r = r
put_all (c ∷ s) r = put c (put_all s r)

-- The end of a word in front of what follows.
abbrev end_word : Option Stages → Option Stages
end_word none = none
end_word (some []) = none
end_word (some (ws ∷ stages)) = some (([] ∷ ws) ∷ stages)

-- The end of a stage, with the word that the reader stands in.
abbrev end_stage : Bool → Option Stages → Option Stages
end_stage in_word none = none
end_stage in_word (some stages) = some ((if in_word then [] ∷ [] else []) ∷ stages)

-- What has no meaning of its own in a shell, outside of quotes.
abbrev is_plain : ℕ → Bool
is_plain c =
    (leb b'a' c && leb c b'z')
    || (leb b'A' c && leb c b'Z')
    || (leb b'0' c && leb c b'9')
    || c == b'-'

-- The reader, with whether it stands in a word; `none` where it meets anything but quotes, escaped
-- quotes, blanks, bars and plain characters.
unfoldable pub stages : Mode → Bool → Text → Option Stages
stages bare in_word [] = end_stage in_word (some [])
stages quoted in_word [] = none
stages escaped in_word [] = none
stages bare in_word (c ∷ s) =
    let quote = stages quoted true s in
    let backslash = stages escaped true s in
    let blank = if in_word then end_word (stages bare false s) else stages bare false s in
    let bar = end_stage in_word (stages bare false s) in
    let plain = put c (stages bare true s) in
    if c == b'\''
    then quote
    else if c == b'\\'
    then backslash
    else if c == b' '
    then blank
    else if c == b'|'
    then bar
    else if is_plain c
    then plain
    else none
stages quoted in_word (c ∷ s) =
    let close_quote = stages bare true s in
    let rest = put c (stages quoted true s) in if c == b'\'' then close_quote else rest
stages escaped in_word (c ∷ s) =
    let rest = put c (stages bare true s) in if c == b'\'' then rest else none

quoted-replace :
    (s t : Text)
    → stages quoted true (replace_quotes s ++ b'\'' ∷ t) ≡ put_all s (stages bare true t)
unfolding stages replace_quotes
quoted-replace [] t = refl
quoted-replace (c ∷ s) t = elim (Bool-cases (c == b'\'')) [
  | inl e ↦ let same = (==_iff c b'\'').0 e in rw same (ap (put b'\'') (quoted-replace s t))
  | inr e ↦ rw (e, stages) (rw e (ap (put c) (quoted-replace s t)))
]

stages-shell_escape :
    (b : Bool) (s t : Text) → stages bare b (shell_escape s ++ t) ≡ put_all s (stages bare true t)
unfolding shell_escape stages
stages-shell_escape b s t = rw (append_assoc (replace_quotes s) (b'\'' ∷ []) t) (quoted-replace s t)

-- A word behind which the text ends is one of the stage.
put_all-word :
    (s : Text) (ws : List Text) (later : Stages)
    → put_all s (some (([] ∷ ws) ∷ later)) ≡ some ((s ∷ ws) ∷ later)
put_all-word [] ws later = refl
put_all-word (c ∷ s) ws later = ap (put c) (put_all-word s ws later)

stages-join :
    (arg : Text) (args : List Text)
    → stages bare false (join (b' ' ∷ []) (map shell_escape (arg ∷ args)))
      ≡ some ((arg ∷ args) ∷ [])
unfolding join stages
stages-join arg [] =
    rw (← append-nil (shell_escape arg)) (stages-shell_escape false arg [] ∙ put_all-word arg [] [])
stages-join arg (next ∷ args) =
    stages-shell_escape false arg (b' ' ∷ join (b' ' ∷ []) (map shell_escape (next ∷ args)))
    ∙ ap (λ r. put_all arg (end_word r)) (stages-join next args)
    ∙ put_all-word arg (next ∷ args) []

-- The alphabet of base64.
abbrev pub is_base64 : ℕ → Bool
is_base64 c =
    (leb b'a' c && leb c b'z')
    || (leb b'A' c && leb c b'Z')
    || (leb b'0' c && leb c b'9')
    || c == b'+'
    || c == b'/'
    || c == b'='

replace_quotes-base64 : (s : Text) → all is_base64 s ≡ true → replace_quotes s ≡ s
unfolding replace_quotes
replace_quotes-base64 [] h = refl
replace_quotes-base64 (c ∷ s) h = ground (arith, replace_quotes-base64 s)

-- A shell that reads the script of sudo_stdin_write_as_user for a command of at least one word
-- finds three commands in a pipeline: `printf` with the encoded content, `base64 -d`, and the very
-- command with its arguments, whatever characters these hold.
pub stages-pipeline :
    (host : Host) (arg : Text) (args : List Text) (content : Text)
    → all is_base64 (host.encode content) ≡ true
    → stages bare false (pipeline host (arg ∷ args) content)
      ≡ some (
          (codes "printf" ∷ host.encode content ∷ [])
          ∷ (codes "base64" ∷ codes "-d" ∷ [])
          ∷ (arg ∷ args)
          ∷ [])
unfolding pipeline stages
stages-pipeline host arg args content clean =
    let encoded = host.encode content in
    let command = join (b' ' ∷ []) (map shell_escape (arg ∷ args)) in
    let rest = codes " | base64 -d | " ++ command in
    let inside : stages quoted true (encoded ++ b'\'' ∷ rest)
        ≡ put_all encoded (stages bare true rest) =
      ap (λ t. stages quoted true (t ++ b'\'' ∷ rest)) (sym (replace_quotes-base64 encoded clean))
      ∙ quoted-replace encoded rest in
    let tail : stages bare true rest
        ≡ some (([] ∷ []) ∷ (codes "base64" ∷ codes "-d" ∷ []) ∷ (arg ∷ args) ∷ []) =
      rw (stages-join arg args) refl in
    let word : stages quoted true (encoded ++ b'\'' ∷ rest)
        ≡ some ((encoded ∷ []) ∷ (codes "base64" ∷ codes "-d" ∷ []) ∷ (arg ∷ args) ∷ []) =
      inside ∙ ap (put_all encoded) tail ∙ put_all-word encoded [] _ in
    rw word refl
