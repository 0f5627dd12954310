-- ===== src/Agent/Util/Shell.antt =====
-- A POSIX shell reads back what `shell_escape` wrote.
use tenodera.Prelude.{
  ◌≡◌, refl, ℕ, Option, none, some, [], ◌∷◌, ◌++◌, Text, nat_eq, ◌==◌, ==_iff, arith, Bool-cases,
  inl, inr, if◌then◌else◌,
}
use tenodera.Agent.Util.{replace_quotes, shell_escape}

-- How a shell reads a word: outside of quotes, between single quotes, or behind a backslash.
pub data Mode : Type 0 where
  bare quoted escaped : Mode

abbrev pub followed_by : ℕ → Option Text → Option Text
followed_by c none = none
followed_by c (some s) = some (c ∷ s)

-- The text of a word, if every character of it stands in quotes or behind a backslash, so that the
-- shell gives it no meaning.
unfoldable pub word : Mode → Text → Option Text
word bare [] = some []
word quoted [] = none
word escaped [] = none
word bare (c ∷ s) =
    let open_quote = word quoted s in
    let behind = word escaped s in
    if c == b'\'' then open_quote else if c == b'\\' then behind else none
word quoted (c ∷ s) =
    let close_quote = word bare s in
    let rest = followed_by c (word quoted s) in if c == b'\'' then close_quote else rest
word escaped (c ∷ s) = followed_by c (word bare s)

quoted-replace : (s : Text) → word quoted (replace_quotes s ++ b'\'' ∷ []) ≡ some s
unfolding replace_quotes word
quoted-replace [] = refl
quoted-replace (c ∷ s) = elim (Bool-cases (c == b'\'')) [
  | inl e ↦ ground (arith, ==_iff c b'\'', quoted-replace s, e)
  | inr e ↦ ground (arith, ==_iff c b'\'', quoted-replace s, e)
]

-- A shell that reads what shell_escape makes of a text takes it for one word, that very text,
-- every character of which stands in quotes or behind a backslash.
pub word-shell_escape : (s : Text) → word bare (shell_escape s) ≡ some s
unfolding shell_escape word
word-shell_escape s = quoted-replace s
