-- ===== src/Agent/Hosts/Scan.antt =====
-- The scan of host keys by `hosts.manage`.
use tenodera.Prelude.{
  ℕ, not, ◌&&◌, ◌||◌, Option, none, some, List, [], ◌∷◌, ◌++◌, Text, nat_eq, text_eq, ◌==◌, all,
  any, find, retain, is_empty, unwrap_or, codes, if◌then◌else◌,
}
use tenodera.Std.Str.{trim}
use tenodera.Std.Lines.{lines, starts_with, contains_text}
use tenodera.Std.Number.{decimal}
use tenodera.Agent.Commands.{
  Host, M, pure, ◌>>=◌, Ending, broken, timed_out, exited, as_root, fed, perform,
}
use tenodera.Agent.Hosts.{as_u16}

-- The answer to a scan: an error, or a host key with its fingerprint.
pub data Scan : Type 0 where
  no_address : Scan
  bad_address : Scan
  not_started : Scan
  no_keys : Scan
  found : Text → Text → Scan

abbrev pub preferred : List Text
preferred = codes "ssh-ed25519" ∷ codes "ecdsa-sha2-nistp256" ∷ codes "ssh-rsa" ∷ []

-- The first line with the first algorithm that any line has.
unfoldable pub find_preferred : List Text → List Text → Option Text
unfolding contains_text
find_preferred [] ls = none
find_preferred (alg ∷ algs) ls =
    let later = find_preferred algs ls in
    elim (find (contains_text alg) ls) [ none ↦ later | some l ↦ some l ]

module _ (host : Host) where
  abbrev pub stdout_of : Ending → Option Text
  stdout_of (broken e) = none
  stdout_of timed_out = none
  stdout_of (exited success stdout stderr cut) = some stdout

  unfoldable pub fingerprint : Text → M Scan
  unfolding perform trim
  fingerprint line = do
    ending ←
        perform host
          (fed (codes "ssh-keygen" ∷ codes "-l" ∷ codes "-f" ∷ codes "-" ∷ []) (line ++ b'\n' ∷ []))
    pure (found line (trim (unwrap_or (stdout_of ending) [])))

  unfoldable pub key_of : List Text → M Scan
  unfolding find_preferred fingerprint
  key_of [] = pure no_keys
  key_of (l ∷ ls) = fingerprint (unwrap_or (find_preferred preferred (l ∷ ls)) l)

  unfoldable pub scanned : Option Text → M Scan
  unfolding key_of lines starts_with
  scanned none = pure not_started
  scanned (some stdout) =
      key_of (retain (λ l. not (starts_with (codes "#") l) && not (is_empty l)) (lines stdout))

  unfoldable pub action_keyscan : Text → ℕ → M Scan
  unfolding perform scanned decimal
  action_keyscan address ssh_port =
      let scan = (do
        ending ← perform host (
            as_root (
              codes "ssh-keyscan"
              ∷ codes "-p"
              ∷ decimal (as_u16 ssh_port)
              ∷ codes "-T"
              ∷ codes "5"
              ∷ codes "--"
              ∷ address
              ∷ []))
        scanned (stdout_of ending)) in
      if is_empty address
      then pure no_address
      else if not (all (λ c. host.is_alphanumeric c || any (λ d. d == c) (codes ".-:[]")) address)
      then pure bad_address
      else scan
