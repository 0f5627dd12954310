-- ===== src/Agent/Files/Handlers.antt =====
-- Listing, and the `open` of the five handlers: agent/src/handlers/file_list.rs and file_ops.rs.
use tenodera.Prelude.{
  not, ◌&&◌, ◌||◌, Option, none, some, [], ◌∷◌, nat_eq, text_eq, is_empty, codes, if◌then◌else◌,
}
use tenodera.Std.Lines.{contains_text}
use tenodera.Std.FilePath.{FilePath, path_text}
use tenodera.Agent.Commands.{
  Host, M, ◌>>=◌, pure, run_cmd, sudo_as_user, sudo_output_as_user, sudo_stdin_write_as_user,
  is_valid_username, sudo_n,
}
use tenodera.Agent.Files.{
  FileSystem, Request, FileReply, in_home, restricted, no_context, is_failure, Operation,
  needs_path, rm_command, brokered, ls_command, listed, unresolved, failed, read, write, mkdir,
  delete, list,
}
use tenodera.Agent.Files.Reading.{read_file}
use tenodera.Agent.Files.Changes.{write_as_user, mkdir_as_user, delete_as_user}

module _ (host : Host) (fs : FileSystem) where
  unfoldable pub list_home : Request → Option FilePath → M FileReply
  unfolding in_home run_cmd
  list_home request none = pure unresolved
  list_home request (some canonical) =
      let resolved = path_text canonical in
      let listed_out : M FileReply = (do
        out ← run_cmd host (sudo_n request.user (ls_command resolved))
        pure (listed resolved (is_failure out || contains_text (codes "sudo:") out) out)) in
      if not (in_home request.user canonical) then pure restricted else listed_out

  unfoldable pub list_as_user : Request → M FileReply
  unfolding list_home is_valid_username
  list_as_user request =
      let resolved = list_home request (fs.canonicalize request.path) in
      if not (is_valid_username host request.user) then pure no_context else resolved

  unfoldable pub list_elevated : Request → Option FilePath → M FileReply
  unfolding sudo_output_as_user
  list_elevated request none = pure unresolved
  list_elevated request (some canonical) =
      let resolved = path_text canonical in
      (do
        out ← sudo_output_as_user host request.user request.password (ls_command resolved)
        pure (listed resolved (is_failure out) out))

  -- With a password, the operation runs as the user by sudo.
  unfoldable pub elevated : Operation → Request → M FileReply
  unfolding read_file sudo_stdin_write_as_user sudo_as_user list_elevated
  elevated read request = read_file host fs request
  elevated write request = brokered (
      sudo_stdin_write_as_user host request.user request.password
        (codes "tee" ∷ codes "--" ∷ request.path ∷ []) request.content)
  elevated mkdir request = brokered (
      sudo_as_user host request.user request.password
        (codes "mkdir" ∷ codes "--" ∷ request.path ∷ []))
  elevated delete request = brokered (
      sudo_as_user host request.user request.password
        (rm_command (fs.is_dir request.path) request.path))
  elevated list request = list_elevated request (fs.canonicalize request.path)

  unfoldable pub unelevated : Operation → Request → M FileReply
  unfolding read_file write_as_user mkdir_as_user delete_as_user list_as_user
  unelevated read request = read_file host fs request
  unelevated write request = write_as_user host fs request
  unelevated mkdir request = mkdir_as_user host fs request
  unelevated delete request = delete_as_user host fs request
  unelevated list request = list_as_user request

  -- The `open` of the five handlers.
  unfoldable pub open_file : Operation → Request → M FileReply
  unfolding elevated unelevated
  open_file operation request =
      if needs_path operation && is_empty request.path
      then pure (failed (codes "path required"))
      else if is_empty request.password
      then unelevated operation request
      else elevated operation request
