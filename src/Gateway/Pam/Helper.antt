-- ===== src/Gateway/Pam/Helper.antt =====
-- What the helper makes of the two lines that the gateway writes.
use tenodera.Prelude.{
  ◌≡◌, refl, ap, ◌∙◌, ℕ, Bool, true, false, not, ◌&&◌, ◌||◌, some, [], ◌∷◌, ◌++◌, Text, nat_eq,
  ◌==◌, ==_refl, all, arith, if◌then◌else◌, is_empty, Bool-cases, inl, inr,
}
use tenodera.Std.Str.{until, until-append}
use tenodera.Std.Lines.{strip_cr}
use tenodera.Gateway.Pam.{
  after, contains, next_line, PamLibrary, password_code, user_code, pam_auth_mode, exited,
  authenticate,
}

free_of : (c : ℕ) (s : Text) → contains c s ≡ false → all (λ d. not (d == c)) s ≡ true
free_of c [] h = refl
free_of c (d ∷ s) h = ground (arith, free_of c s)

contains-append : (c : ℕ) (s t : Text) → contains c (s ++ c ∷ t) ≡ true
contains-append c [] t = ground (arith, ==_refl c)
contains-append c (d ∷ s) t = ground (arith, contains-append c s t)

after-append : (c : ℕ) (s t : Text) → contains c s ≡ false → after c (s ++ c ∷ t) ≡ t
unfolding after
after-append c [] t h = ground (arith, ==_refl c)
after-append c (d ∷ s) t h = ground (arith, after-append c s t)

-- A line that the gateway wrote.
next_line-append :
    (s t : Text) → contains b'\n' s ≡ false → next_line (s ++ b'\n' ∷ t) ≡ some (strip_cr s, t)
unfolding next_line until after strip_cr
next_line-append [] t h = refl
next_line-append (c ∷ s) t h =
    let line = until-append b'\n' (c ∷ s) t (free_of b'\n' (c ∷ s) h) in
    let found = contains-append b'\n' (c ∷ s) t in
    let rest = after-append b'\n' (c ∷ s) t h in
    ap
      (λ b. some (
        if b
            then strip_cr (until b'\n' ((c ∷ s) ++ b'\n' ∷ t))
            else until b'\n' ((c ∷ s) ++ b'\n' ∷ t),
        after b'\n' ((c ∷ s) ++ b'\n' ∷ t),
      ))
      found
    ∙ ap (λ l. some (strip_cr l, after b'\n' ((c ∷ s) ++ b'\n' ∷ t))) line
    ∙ ap (λ r. some (strip_cr (c ∷ s), r)) rest

-- What the helper decides by PAM for two lines.
abbrev pub accepts : PamLibrary → Text → Text → Bool
accepts pam user password =
    not (is_empty user)
    && pam.start user password
    && pam.check_password user password
    && pam.check_account user password

pam_auth_mode-lines :
    (pam : PamLibrary) (user password : Text)
    → contains b'\n' user ≡ false
    → contains b'\n' password ≡ false
    → (pam_auth_mode pam (user ++ b'\n' ∷ (password ++ b'\n' ∷ [])) == 0)
      ≡ accepts pam (strip_cr user) (strip_cr password)
unfolding pam_auth_mode user_code
pam_auth_mode-lines pam user password hu hp =
    let first = next_line-append user (password ++ b'\n' ∷ []) hu in
    let second = next_line-append password [] hp in
    ap (λ o. user_code pam o == 0) first
    ∙ ap (λ o. (if is_empty (strip_cr user) then 3 else password_code pam (strip_cr user) o) == 0)
        second
    ∙ ground arith

-- An input that the gateway passes on.
abbrev pub is_clean : Text → Text → Bool
is_clean user password =
    not (is_empty user || contains 0 user || contains b'\n' user)
    && not (contains 0 password || contains b'\n' password)

-- With the helper as the process that is run, authenticate succeeds exactly if the user is not
-- empty, neither the user nor the password holds a zero or a line feed, and PAM accepts the two
-- without a carriage return at their ends, the user still not being empty.
pub authenticate_exact :
    (pam : PamLibrary) (user password : Text)
    → (authenticate (λ stdin. exited (some (pam_auth_mode pam stdin))) user password).success
      ≡ (is_clean user password && accepts pam (strip_cr user) (strip_cr password))
unfolding authenticate
authenticate_exact pam user password = elim (Bool-cases (is_clean user password)) [
  | inl clean ↦
      let lines =
        pam_auth_mode-lines pam user password (ground (arith, clean)) (ground (arith, clean)) in
      ground (arith, clean, lines)
  | inr dirty ↦ ground (arith, dirty)
]
