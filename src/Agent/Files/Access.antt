-- ===== src/Agent/Files/Access.antt =====
-- What the file handlers start on behalf of a request.
pub mod Reads
pub mod Requests
use tenodera.Prelude.{
  ℕ, ◌+◌, ◌-◌, Bool, Option-cases, ◌>>=◌, ◌≡◌, ◌≢◌, ◌⊎◌, inl, inr, refl, ap, ◌∙◌, true, false, not,
  ◌&&◌, ◌||◌, Option, none, some, List, [], ◌∷◌, ◌++◌, Text, nat_eq, text_eq, ◌==◌, ==_iff, all,
  is_empty, codes, arith, All, Bool-cases,
}
use tenodera.Std.Str.{trim}
use tenodera.Std.Number.{decimal}
use tenodera.Agent.Util.{shell_escape}
use tenodera.Std.FilePath.{
  FilePath, components, join_path, parent, file_name, root_dir, normal, path_text,
  starts_with_path_sound, join_path-name,
}
use tenodera.Agent.Commands.{Host, Call, pipeline, as_root, is_valid_username, run_cmd, sudo_n}
use tenodera.Agent.Commands.Gate.{
  by_sudo, Keeps, run_cmd-Keeps, sudo_as_user-Keeps, sudo_output_as_user-Keeps,
  sudo_stdin_write_as_user-Keeps, spawn_as-Keeps,
}
use tenodera.Agent.Files.{
  FileSystem, Request, Operation, read, write, mkdir, delete, list, home_of, in_home, page_range,
  page_lines, is_failure, mime_command, is_text_mime, needs_path, rm_command, ls_command,
}
use tenodera.Agent.Files.Reading.{read_command, read_page, read_granted, read_resolved, read_file}
use tenodera.Agent.Files.Changes.{
  target_of, limited, write_as_user, mkdir_as_user, delete_resolved, delete_as_user,
}
use tenodera.Agent.Files.Handlers.{
  list_home, list_as_user, list_elevated, elevated, unelevated, open_file,
}

module _ (host : Host) (fs : FileSystem) (request : Request) where
  -- The request's path, with its parent resolved if that can be.
  abbrev pub IsBeside : FilePath → Type 0
  IsBeside target =
      ((dir : FilePath) × (canonical : FilePath) × (parent (components request.path) ≡ some dir)
        × (fs.canonicalize_dir dir ≡ some canonical)
        × (target ≡ join_path canonical (file_name (components request.path))))
      ⊎ ((((parent (components request.path)) >>= fs.canonicalize_dir) ≡ none)
          × (target ≡ components request.path))

  -- What an operation works on.
  abbrev pub IsTarget : Operation → FilePath → Type 0
  IsTarget write target = IsBeside target
  IsTarget mkdir target = IsBeside target
  IsTarget read target = fs.canonicalize request.path ≡ some target
  IsTarget delete target = fs.canonicalize request.path ≡ some target
  IsTarget list target = fs.canonicalize request.path ≡ some target

  -- Counting the lines of a file, or printing 200 of them.
  abbrev pub Reads : FilePath → List Text → Type 0
  Reads target args =
      (args ≡ codes "wc" ∷ codes "-l" ∷ codes "--" ∷ path_text target ∷ [])
      ⊎ (args
          ≡ codes "sed"
            ∷ codes "-n"
            ∷ (decimal (request.offset + 1)
                ++ (b',' ∷ (decimal (request.offset + 200) ++ b'p' ∷ [])))
            ∷ codes "--"
            ∷ path_text target
            ∷ [])

  abbrev pub Lists : FilePath → List Text → Type 0
  Lists target args =
      args
      ≡ codes "ls"
        ∷ codes "-laH"
        ∷ codes "--time-style=long-iso"
        ∷ codes "--"
        ∷ path_text target
        ∷ []

  -- A removal, of a directory with all in it.
  abbrev pub Removes : Bool → List Text → Type 0
  Removes is_dir args =
      (args ≡ codes "rm" ∷ codes "--" ∷ request.path ∷ [])
      ⊎ ((is_dir ≡ true) × (args ≡ codes "rm" ∷ codes "-r" ∷ codes "--" ∷ request.path ∷ []))

  -- The commands of an operation on its target, without a password.
  abbrev pub Own : Operation → FilePath → List Text → Type 0
  Own read target args = Reads target args
  Own list target args = Lists target args
  Own write target args =
      args
      ≡ codes "sh"
        ∷ codes "-c"
        ∷ (codes "printf '"
            ++ (host.encode request.content
                ++ (codes "' | base64 -d | tee -- " ++ shell_escape request.path)))
        ∷ []
  Own mkdir target args = args ≡ codes "mkdir" ∷ codes "--" ∷ request.path ∷ []
  Own delete target args = Removes (fs.is_dir_path target) args

  -- The commands of an operation with a password.
  abbrev pub Elevated : Operation → List Text → Type 0
  Elevated read args =
      (target : FilePath) × (fs.canonicalize request.path ≡ some target) × Reads target args
  Elevated list args =
      (target : FilePath) × (fs.canonicalize request.path ≡ some target) × Lists target args
  Elevated write args =
      args
      ≡ codes "sh"
        ∷ codes "-c"
        ∷ pipeline host (codes "tee" ∷ codes "--" ∷ request.path ∷ []) request.content
        ∷ []
  Elevated mkdir args = args ≡ codes "mkdir" ∷ codes "--" ∷ request.path ∷ []
  Elevated delete args = Removes (fs.is_dir request.path) args

  -- The processes that a request may start.
  pub data Brokered (operation : Operation) : Call → Type 0 where
    -- the look at the type of the file
    typed :
        (path : FilePath)
        → operation ≡ read
        → fs.canonicalize request.path ≡ some path
        → Brokered operation (
            as_root
              (codes "file" ∷ codes "-b" ∷ codes "--mime-type" ∷ codes "--" ∷ path_text path ∷ []))
    -- without a password: as the user, on a target in the user's home
    at_home :
        (target : FilePath) (rest : FilePath) (args : List Text)
        → is_empty request.password ≡ true
        → is_valid_username host request.user ≡ true
        → IsTarget operation target
        → target ≡ root_dir ∷ normal (codes "home") ∷ normal request.user ∷ rest
        → Own operation target args
        → Brokered operation
            (as_root (codes "sudo" ∷ codes "-n" ∷ codes "-u" ∷ request.user ∷ codes "--" ∷ args))
    -- with one: by the host's sudo, as the user, who has an account
    by_host :
        (args : List Text)
        → is_empty request.password ≡ false
        → host.knows request.user ≡ true
        → Elevated operation args
        → Brokered operation (by_sudo request.user request.password args)

  pub target_of-IsBeside : IsBeside (target_of host fs request.path)
  unfolding target_of
  target_of-IsBeside = elim (Option-cases (parent (components request.path))) [
    | inl top ↦ inr (ap (λ o. o >>= fs.canonicalize_dir) top, rw (top, target_of) refl)
    | inr (dir, up) ↦
        let at = ap (λ o. o >>= fs.canonicalize_dir) up in
        elim (Option-cases (fs.canonicalize_dir dir)) [
          | inl lost ↦ inr (at ∙ lost, rw (up, lost, target_of) refl)
          | inr (canonical, found) ↦ inl (dir, canonical, up, found, rw (up, found, target_of) refl)
        ]
  ]

  pub rm_command-Removes : (is_dir : Bool) → Removes is_dir (rm_command is_dir request.path)
  rm_command-Removes true = inr (refl, refl)
  rm_command-Removes false = inl refl

  pub page_range_lem :
      page_range request.offset
      ≡ decimal (request.offset + 1) ++ (b',' ∷ (decimal (request.offset + 200) ++ b'p' ∷ []))
  page_range_lem =
      let last : request.offset + 1 + page_lines - 1 ≡ request.offset + 200 = omega arith in
      rw last refl

  -- A valid name has no slash.
  valid-free :
      (s : Text)
      → host.is_alphanumeric b'/' ≡ false
      → all (λ c. host.is_alphanumeric c || c == b'_' || c == b'-' || c == b'.') s ≡ true
      → all (λ c. not (c == b'/')) s ≡ true
  valid-free [] slash h = refl
  valid-free (c ∷ s) slash h = elim (Bool-cases (c == b'/')) [
    | inl e ↦
        let same = (==_iff c b'/').0 e in
        let bad : host.is_alphanumeric c ≡ false = rw same slash in
        absurd (ground (arith, same, bad))
    | inr e ↦ ground (arith, e, valid-free s slash)
  ]

  module _ (slash : host.is_alphanumeric b'/' ≡ false) (ne : request.user ≢ codes ".")
      (ne' : request.user ≢ codes "..") where
    pub in_home-shape :
        (target : FilePath)
        → is_valid_username host request.user ≡ true
        → in_home request.user target ≡ true
        → (rest : FilePath) × (target
            ≡ root_dir ∷ normal (codes "home") ∷ normal request.user ∷ rest)
    unfolding is_valid_username in_home home_of
    in_home-shape target valid inside =
        let full : is_empty request.user ≡ false = ground arith in
        let free = valid-free request.user slash (ground arith) in
        let home =
          join_path-name request.user free full ne ne' (root_dir ∷ normal (codes "home") ∷ []) in
        let (rest, e) = starts_with_path_sound target (home_of request.user) inside in
        (rest, e ∙ ap (λ h. h ++ rest) home)

    -- A command in the user's home.
    pub limited-Keeps :
        (operation : Operation) (target : FilePath) (args : List Text)
        → is_empty request.password ≡ true
        → IsTarget operation target
        → Own operation target args
        → Keeps (Brokered operation) (limited host fs request.user target args)
    unfolding limited
    limited-Keeps operation target args none_given at own log h =
        elim (Bool-cases (is_valid_username host request.user)) [
          | inr off ↦ rw off h
          | inl valid ↦ elim (Bool-cases (in_home request.user target)) [
            | inr off ↦ rw (valid, off) h
            | inl inside ↦
                let (rest, shape) = in_home-shape target valid inside in
                rw (valid, inside)
                  (spawn_as-Keeps (Brokered operation) host request.user args
                    (at_home target rest args none_given valid at shape own) log h)
          ]
        ]
