-- ===== src/Agent/Files/Reading.antt =====
-- `read_file` of agent/src/handlers/file_ops.rs.
use tenodera.Prelude.{
  not, ◌&&◌, Option, none, some, List, [], ◌∷◌, Text, nat_eq, text_eq, is_empty, codes,
  if◌then◌else◌,
}
use tenodera.Std.Str.{trim}
use tenodera.Std.Lines.{words}
use tenodera.Std.FilePath.{FilePath, path_text}
use tenodera.Agent.Commands.{
  Host, M, ◌>>=◌, pure, run_cmd, sudo_output_as_user, is_valid_username, sudo_n,
}
use tenodera.Agent.Files.{
  FileSystem, Request, FileReply, is_text_mime, in_home, restricted, no_context, is_failure,
  failure, first_number, page_range, mime_command, failed, binary, page,
}

module _ (host : Host) (fs : FileSystem) where
  -- A command of a read: as the user without a password, or brokered by sudo.
  unfoldable pub read_command : Request → List Text → M Text
  unfolding run_cmd sudo_output_as_user
  read_command request args =
      if is_empty request.password
      then run_cmd host (sudo_n request.user args)
      else sudo_output_as_user host request.user request.password args

  -- What is read once access is granted.
  unfoldable pub read_page : Request → Text → M FileReply
  unfolding read_command words
  read_page request resolved =
      let line_count =
        read_command request (codes "wc" ∷ codes "-l" ∷ codes "--" ∷ resolved ∷ []) in
      let content_of =
        read_command request
          (codes "sed" ∷ codes "-n" ∷ page_range request.offset ∷ codes "--" ∷ resolved ∷ []) in
      let finish = λ (wc_raw : Text) (content : Text).
        if is_failure content
        then failure content
        else page resolved content (first_number (words wc_raw)) request.offset in
      let rest = λ (wc_raw : Text). (do content ← content_of; pure (finish wc_raw content)) in
      do wc_raw ← line_count; if is_failure wc_raw then pure (failure wc_raw) else rest wc_raw

  unfoldable pub read_granted : Request → FilePath → Text → M FileReply
  unfolding in_home is_valid_username
  read_granted request canonical resolved =
      let granted = read_page request resolved in
      if is_empty request.password && not (is_valid_username host request.user)
      then pure no_context
      else if is_empty request.password && not (in_home request.user canonical)
      then pure restricted
      else granted

  unfoldable pub read_resolved : Request → Option FilePath → M FileReply
  unfolding read_granted run_cmd is_text_mime
  read_resolved request none = pure (failed (codes "file not found"))
  read_resolved request (some canonical) =
      let resolved = path_text canonical in
      let granted = read_granted request canonical resolved in
      do
        mime ← run_cmd host (codes "file" ∷ mime_command resolved)
        if not (is_text_mime (trim mime)) then pure (binary (trim mime) resolved) else granted

  unfoldable pub read_file : Request → M FileReply
  unfolding read_resolved
  read_file request = read_resolved request (fs.canonicalize request.path)
