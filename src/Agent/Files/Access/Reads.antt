-- ===== src/Agent/Files/Access/Reads.antt =====
-- What a read starts.
use tenodera.Prelude.{
  ◌≡◌, refl, ap, ◌≢◌, ◌⊎◌, inl, inr, true, false, Option, none, some, List, [], ◌∷◌, Text, nat_eq,
  text_eq, is_empty, codes, Bool-cases,
}
use tenodera.Std.Str.{trim}
use tenodera.Std.FilePath.{FilePath, root_dir, normal, path_text}
use tenodera.Agent.Commands.{Host, is_valid_username, run_cmd}
use tenodera.Agent.Commands.Gate.{Keeps, run_cmd-Keeps, sudo_output_as_user-Keeps}
use tenodera.Agent.Files.{
  read, FileSystem, Request, in_home, page_range, is_failure, mime_command, is_text_mime,
}
use tenodera.Agent.Files.Reading.{read_command, read_page, read_granted, read_resolved}
use tenodera.Agent.Files.Access.{
  Reads, page_range_lem, Brokered, typed, at_home, by_host, in_home-shape,
}

module _ (host : Host) (fs : FileSystem) (request : Request)
    (slash : host.is_alphanumeric b'/' ≡ false) (ne : request.user ≢ codes ".")
    (ne' : request.user ≢ codes "..") where
  -- A read is granted with a password, or in the user's home.
  abbrev IsGranted : FilePath → Type 0
  IsGranted target =
      (is_empty request.password ≡ false)
      ⊎ ((rest : FilePath) × (is_valid_username host request.user ≡ true)
          × (target ≡ root_dir ∷ normal (codes "home") ∷ normal request.user ∷ rest))

  read_command-Keeps :
      (canonical : FilePath) (args : List Text)
      → fs.canonicalize request.path ≡ some canonical
      → Reads host fs request canonical args
      → IsGranted canonical
      → Keeps (Brokered host fs request read) (read_command host fs request args)
  unfolding read_command
  read_command-Keeps canonical args at own (inl given) log h = rw given (
      sudo_output_as_user-Keeps (Brokered host fs request read) host request.user request.password
        args (λ known. by_host args given known (canonical, at, own)) log h)
  read_command-Keeps canonical args at own (inr (rest, valid, shape)) log h =
      elim (Bool-cases (is_empty request.password)) [
        | inl none_given ↦ rw none_given (
            run_cmd-Keeps (Brokered host fs request read) host (codes "sudo")
              (codes "-n" ∷ codes "-u" ∷ request.user ∷ codes "--" ∷ args)
              (at_home canonical rest args none_given valid at shape own) log h)
        | inr given ↦ rw given (
            sudo_output_as_user-Keeps (Brokered host fs request read) host request.user
              request.password args (λ known. by_host args given known (canonical, at, own)) log h)
      ]

  read_page-Keeps :
      (canonical : FilePath)
      → fs.canonicalize request.path ≡ some canonical
      → IsGranted canonical
      → Keeps (Brokered host fs request read) (read_page host fs request (path_text canonical))
  unfolding read_page
  read_page-Keeps canonical at grant log h =
      let resolved = path_text canonical in
      let count_args = codes "wc" ∷ codes "-l" ∷ codes "--" ∷ resolved ∷ [] in
      let page_args =
        codes "sed" ∷ codes "-n" ∷ page_range request.offset ∷ codes "--" ∷ resolved ∷ [] in
      let printed : Reads host fs request canonical page_args = inr (
        ap (λ r. codes "sed" ∷ codes "-n" ∷ r ∷ codes "--" ∷ resolved ∷ [])
          (page_range_lem host fs request)) in
      let counted = read_command host fs request count_args log in
      let k = read_command-Keeps canonical count_args at (inl refl) grant log h in
      elim (Bool-cases (is_failure counted.0)) [
        | inl bad ↦ rw bad k
        | inr good ↦ rw good (read_command-Keeps canonical page_args at printed grant counted.1 k)
      ]

  read_granted-Keeps :
      (canonical : FilePath)
      → fs.canonicalize request.path ≡ some canonical
      → Keeps
          (Brokered host fs request read)
          (read_granted host fs request canonical (path_text canonical))
  unfolding read_granted
  read_granted-Keeps canonical at log h = elim (Bool-cases (is_empty request.password)) [
    | inr given ↦ rw given (read_page-Keeps canonical at (inl given) log h)
    | inl none_given ↦ elim (Bool-cases (is_valid_username host request.user)) [
      | inr off ↦ rw (none_given, off) h
      | inl valid ↦ elim (Bool-cases (in_home request.user canonical)) [
        | inr off ↦ rw (none_given, valid, off) h
        | inl inside ↦
            let (rest, shape) = in_home-shape host fs request slash ne ne' canonical valid inside in
            rw (none_given, valid, inside)
              (read_page-Keeps canonical at (inr (rest, valid, shape)) log h)
      ]
    ]
  ]

  pub read_resolved-Keeps :
      (o : Option FilePath)
      → fs.canonicalize request.path ≡ o
      → Keeps (Brokered host fs request read) (read_resolved host fs request o)
  unfolding read_resolved
  read_resolved-Keeps none at log h = h
  read_resolved-Keeps (some canonical) at log h =
      let resolved = path_text canonical in
      let args = mime_command resolved in
      let seen = run_cmd host (codes "file" ∷ args) log in
      let k =
        run_cmd-Keeps (Brokered host fs request read) host (codes "file") args
          (typed canonical refl at) log h in
      elim (Bool-cases (is_text_mime (trim seen.0))) [
        | inr off ↦ rw off k
        | inl on ↦ rw on (read_granted-Keeps canonical at seen.1 k)
      ]
