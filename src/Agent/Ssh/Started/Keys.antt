-- ===== src/Agent/Ssh/Started/Keys.antt =====
-- The commands that edit keys.
use tenodera.Prelude.{
  ◌≡◌, refl, inl, inr, not, ◌&&◌, Option, none, some, List, [], ◌∷◌, ◌++◌, Text, nat_eq, text_eq,
  ◌==◌, codes, Bool-cases,
}
use tenodera.Std.Str.{trim}
use tenodera.Agent.Commands.{Call, fed, M, sudo_as_user, sudo_stdin_write_as_user}
use tenodera.Agent.Commands.Gate.{Keeps, perform-Keeps}
use tenodera.Agent.Ssh.{
  Parsed, no_key, panics, parse_key_line, key_of, SshKey, holds_key, with_key, without_key,
  with_edit,
}
use tenodera.Agent.Ssh.Manage.{
  Account, SshHost, Answer, error_of, authkeys, hand_over, write_keys, at_account, known,
  append_key, replace_key, checked_as, install_args, chown_args, chmod_args, apply_authkeys,
  key_fingerprint, apply, checked, add_key, remove_key, edit_key,
}
use tenodera.Agent.Ssh.Started.{
  Edited, added, removed, edited, Started, asked_keygen, made_directory, wrote_keys, set_owner,
  set_mode, unless-Keeps, sudo-Keeps, tee-Keeps,
}

module _ (w : SshHost) (operator password user content : Text) where
  abbrev P : Call → Type 0
  P = Started w operator password user content

  key_fingerprint-Keeps : (key : Text) → Keeps P (key_fingerprint w key)
  unfolding key_fingerprint
  key_fingerprint-Keeps key log h =
      perform-Keeps P w.host
        (fed (codes "ssh-keygen" ∷ codes "-l" ∷ codes "-f" ∷ codes "/dev/stdin" ∷ [])
          (key ++ b'\n' ∷ []))
        (asked_keygen key) log h

  module _ (a : Account) (e : w.account user ≡ some a) where
    hand_over-Keeps : Keeps P (hand_over w operator password a)
    unfolding hand_over
    hand_over-Keeps log h =
        sudo-Keeps w operator password user content (chmod_args a) (set_mode a e)
          (sudo_as_user w.host operator password (chown_args a) log).1
          (sudo-Keeps w operator password user content (chown_args a) (set_owner a e) log h)

    apply-Keeps :
        (before : List Call) (edit : Text)
        → Edited (w.read before (authkeys a)) edit
        → Keeps P (apply w operator password a edit)
    unfolding apply apply_authkeys write_keys
    apply-Keeps before edit ed log h =
        let mk = sudo_as_user w.host operator password (install_args a) log in
        let tee =
          sudo_stdin_write_as_user w.host operator password (codes "tee" ∷ authkeys a ∷ []) edit in
        unless-Keeps w operator password user content (error_of mk.0)
          (write_keys w operator password a edit)
          (λ log h.
            unless-Keeps w operator password user content (error_of (tee log).0)
              (hand_over w operator password a) hand_over-Keeps (tee log).1
              (tee-Keeps w operator password user content (authkeys a) edit
                (wrote_keys a before edit e ed) log h))
          mk.1
          (sudo-Keeps w operator password user content (install_args a) (made_directory a e) log h)

  at_account-Keeps :
      (m : Account → M Answer) (o : Option Account)
      → ((a : Account) → o ≡ some a → Keeps P (m a))
      → Keeps P (at_account m o)
  at_account-Keeps m none km log h = h
  at_account-Keeps m (some a) km log h = km a refl log h

  known-Keeps :
      (m : Account → M Answer)
      → ((a : Account) → w.account user ≡ some a → Keeps P (m a))
      → Keeps P (known w user m)
  known-Keeps m km = at_account-Keeps m (w.account user) km

  checked_as-Keeps :
      (key : Text) (m : M Answer) (p : Parsed)
      → ((k : SshKey) → p ≡ key_of k → Keeps P m)
      → Keeps P (checked_as w key m p)
  unfolding checked_as
  checked_as-Keeps key m no_key km log h = h
  checked_as-Keeps key m panics km log h = h
  checked_as-Keeps key m (key_of k) km log h =
      let asked = key_fingerprint-Keeps key log h in
      elim (Bool-cases (key_fingerprint w key log).0) [
        | inl good ↦ rw good (km k refl (key_fingerprint w key log).1 asked)
        | inr bad ↦ rw bad asked
      ]

  checked-Keeps :
      (key : Text) (m : M Answer)
      → ((k : SshKey) → parse_key_line key ≡ key_of k → Keeps P m)
      → Keeps P (checked w key m)
  unfolding checked
  checked-Keeps key m km = checked_as-Keeps key m (parse_key_line key) km

  append_key-Keeps :
      (key : Text) (k : SshKey) (a : Account)
      → parse_key_line key ≡ key_of k
      → w.account user ≡ some a
      → Keeps P (append_key w operator password key a)
  unfolding append_key
  append_key-Keeps key k a e at log h =
      let existing = w.read log (authkeys a) in
      elim (Bool-cases (holds_key existing key)) [
        | inl there ↦ rw there h
        | inr new ↦ rw new (apply-Keeps a at log (with_key existing key) (added key k e new) log h)
      ]

  pub add_key-Keeps : (given : Text) → Keeps P (add_key w user given operator password)
  unfolding add_key
  add_key-Keeps given =
      known-Keeps (λ a. checked w (trim given) (append_key w operator password (trim given) a))
        (λ a at.
          checked-Keeps (trim given) (append_key w operator password (trim given) a)
            (λ k e. append_key-Keeps (trim given) k a e at))

  pub remove_key-Keeps : (given : Text) → Keeps P (remove_key w user given operator password)
  unfolding remove_key
  remove_key-Keeps given = known-Keeps _ (λ a at log h.
      let content = w.read log (authkeys a) in
      apply-Keeps a at log (without_key content (trim given)) (removed (trim given)) log h)

  replace_key-Keeps :
      (old key : Text) (k : SshKey) (a : Account)
      → parse_key_line key ≡ key_of k
      → w.account user ≡ some a
      → Keeps P (replace_key w operator password old key a)
  unfolding replace_key
  replace_key-Keeps old key k a e at log h =
      let content = w.read log (authkeys a) in
      elim (Bool-cases (holds_key content old)) [
        | inr lacks ↦ rw lacks h
        | inl holds ↦ rw holds (elim (Bool-cases (not (key == old) && holds_key content key)) [
          | inl there ↦ rw there h
          | inr new ↦ rw new (
              apply-Keeps a at log (with_edit content old key) (edited old key k e holds new) log h)
        ])
      ]

  pub edit_key-Keeps :
      (given_old given_new : Text) → Keeps P (edit_key w user given_old given_new operator password)
  unfolding edit_key
  edit_key-Keeps given_old given_new = known-Keeps _ (λ a at.
      checked-Keeps (trim given_new)
        (replace_key w operator password (trim given_old) (trim given_new) a)
        (λ k e. replace_key-Keeps (trim given_old) (trim given_new) k a e at))
