-- ===== src/Agent/Files/Changes.antt =====
-- Writing, making and deleting without a password: agent/src/handlers/file_ops.rs.
use tenodera.Prelude.{
  not, Option, none, some, List, [], ◌∷◌, ◌++◌, Text, nat_eq, text_eq, codes, if◌then◌else◌,
}
use tenodera.Std.FilePath.{FilePath, components, join_path, parent, file_name}
use tenodera.Agent.Util.{shell_escape}
use tenodera.Agent.Commands.{Host, M, ◌>>=◌, pure, is_valid_username, spawn_as}
use tenodera.Agent.Files.{
  FileSystem, Request, FileReply, in_home, restricted, no_context, rm_command, failed, command,
}

module _ (host : Host) (fs : FileSystem) where
  -- What a limited write or mkdir takes for the target: the parent resolved, with the name.
  unfoldable pub target_of : Text → FilePath
  unfolding components parent file_name join_path
  target_of path = elim (parent (components path)) as (λ _. FilePath) [
    | none ↦ components path
    | some dir ↦ elim (fs.canonicalize_dir dir) as (λ _. FilePath) [
      | none ↦ components path
      | some canonical ↦ join_path canonical (file_name (components path))
    ]
  ]

  -- `sudo -n -u user -- ..`, where the user is valid and the target in their home.
  unfoldable pub limited : Text → FilePath → List Text → M FileReply
  unfolding is_valid_username in_home spawn_as
  limited user target args =
      let start : M FileReply = (do reply ← spawn_as host user args; pure (command reply)) in
      if not (is_valid_username host user)
      then pure no_context
      else if not (in_home user target)
      then pure restricted
      else start

  unfoldable pub write_script : Text → Text → Text
  unfolding shell_escape
  write_script path content =
      codes "printf '"
      ++ (host.encode content ++ (codes "' | base64 -d | tee -- " ++ shell_escape path))

  unfoldable pub write_as_user : Request → M FileReply
  unfolding limited target_of
  write_as_user request =
      limited request.user (target_of request.path)
        (codes "sh" ∷ codes "-c" ∷ write_script request.path request.content ∷ [])

  unfoldable pub mkdir_as_user : Request → M FileReply
  unfolding limited target_of
  mkdir_as_user request =
      limited request.user (target_of request.path) (codes "mkdir" ∷ codes "--" ∷ request.path ∷ [])

  unfoldable pub delete_resolved : Request → Option FilePath → M FileReply
  unfolding limited
  delete_resolved request none = pure (failed (codes "file not found"))
  delete_resolved request (some canonical) =
      limited request.user canonical (rm_command (fs.is_dir_path canonical) request.path)

  unfoldable pub delete_as_user : Request → M FileReply
  unfolding delete_resolved
  delete_as_user request =
      let resolved = delete_resolved request (fs.canonicalize request.path) in
      if not (is_valid_username host request.user) then pure no_context else resolved
