-- ===== src/Gateway/Pam/Tests.antt =====
-- Logins through the helper, and the theorem about them.
use tenodera.Prelude.{◌≡◌, refl, true, ◌&&◌, some, [], ◌∷◌, ◌++◌, text_eq, text_beq, ◌==◌, codes}
use tenodera.Std.Str.{until}
use tenodera.Std.Lines.{strip_cr}
use tenodera.Gateway.Pam.{
  PamLibrary, exited, authenticate, pam_auth_mode, user_code, next_line, after,
}
use tenodera.Gateway.Pam.Helper.{accepts, is_clean, authenticate_exact}

-- Only Alice has an account, with one password.
abbrev pam : PamLibrary
pam = record {
  start = λ u p. true;
  check_password = λ u p. u == codes "alice" && p == codes "secret";
  check_account = λ u p. true;
}

-- A carriage return behind the name is lost on the way to PAM.
carriage_return :
    (authenticate
      (λ stdin. exited (some (pam_auth_mode pam stdin)))
      (codes "alice" ++ b'\r' ∷ [])
      (codes "secret")).success
    ≡ true
unfolding authenticate pam_auth_mode user_code next_line until after strip_cr text_beq
carriage_return = refl

authenticate_exact_example :
    (authenticate
      (λ stdin. exited (some (pam_auth_mode pam stdin)))
      (codes "alice")
      (codes "guess")).success
    ≡ (is_clean (codes "alice") (codes "guess")
        && accepts pam (strip_cr (codes "alice")) (strip_cr (codes "guess")))
authenticate_exact_example = authenticate_exact pam (codes "alice") (codes "guess")
