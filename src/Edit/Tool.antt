-- ===== src/Edit/Tool.antt =====
-- tools/edit.go: runEdit, which reads a file, edits it and writes it, and what its failures say. The
-- diff and the patch that its Data holds are left out. W is the file system, E the type of Go errors.
use resolute_agent_core_go.Prelude.{
  ℕ, String, Bool, true, false, List, ◌++◌, Option, none, some, Outcome, ok, err, if◌then◌else◌,
  length,
}
use resolute_agent_core_go.Edit.Text.{
  Bytes, detect_line_ending, normalize_to_lf, restore_line_endings, strip_bom,
}
use resolute_agent_core_go.Edit.Fuzzy.{Unicode}
use resolute_agent_core_go.Edit.Apply.{Edit, EditError, apply_edits_to_normalized_content}

pub data FileKind : Type 0 where
  file directory symlink : FileKind

-- The codes of fileErrorCode.
pub data FileErrorCode : Type 0 where
  not_found permission_denied not_directory is_directory unknown : FileErrorCode

pub data EditFailure : Type 0 where
  aborted not_a_file : EditFailure
  access_error : FileErrorCode → EditFailure
  edit_error : EditError → EditFailure

-- The number of blocks that were replaced, the base and the new content; or what went wrong.
pub data EditResult : Type 0 where
  edited : ℕ → Bytes → Bytes → EditResult
  failed : EditFailure → EditResult

-- The ExecutionEnv, as far as runEdit calls it, the context's cancellation, and errors.Is.
pub record FileEnv (E W : Type 0) : Type 0 where
  pub cancelled : W → Bool × W
  pub file_info : String → W → Outcome E FileKind × W
  pub read_file : String → W → Outcome E Bytes × W
  pub write_file : String → Bytes → W → Option E × W
  pub is_not_exist : E → Bool
  pub is_permission : E → Bool
  pub is_not_directory : E → Bool
  pub is_is_directory : E → Bool

unfoldable pub is_editable : FileKind → Bool
is_editable file = true
is_editable directory = false
is_editable symlink = true

module _ {E W : Type 0} (env : FileEnv E W) (u : Unicode) where
  unfoldable pub file_error_code : E → FileErrorCode
  file_error_code e =
      if env.is_not_exist e
      then not_found
      else if env.is_permission e
      then permission_denied
      else if env.is_not_directory e
      then not_directory
      else if env.is_is_directory e
      then is_directory
      else unknown

  unfoldable pub access_failed : E → W → EditResult × W
  access_failed e w = (failed (access_error (file_error_code e)), w)

  -- A check of the context before what follows.
  unfoldable pub checked : (W → EditResult × W) → Bool × W → EditResult × W
  checked next (true, w) = (failed aborted, w)
  checked next (false, w) = next w

  unfoldable pub unless_aborted : (W → EditResult × W) → W → EditResult × W
  unless_aborted next w = checked next (env.cancelled w)

  unfoldable pub after_write : ℕ → Bytes × Bytes → Option E × W → EditResult × W
  after_write n contents (some e, w) = access_failed e w
  after_write n (base, updated) (none, w) = unless_aborted (λ w'. (edited n base updated, w')) w

  unfoldable pub write_edited :
      String → ℕ → Bytes → Bytes → Outcome EditError (Bytes × Bytes) → W → EditResult × W
  write_edited path n mark ending (err x) w = (failed (edit_error x), w)
  write_edited path n mark ending (ok (base, updated)) w =
      unless_aborted
        (λ w'.
          after_write n (base, updated)
            (env.write_file path (mark ++ restore_line_endings updated ending) w'))
        w

  unfoldable pub edit_content : String → List Edit → Bytes × Bytes → W → EditResult × W
  edit_content path es (mark, content) w =
      write_edited path (length es) mark (detect_line_ending content)
        (apply_edits_to_normalized_content u (normalize_to_lf content) es) w

  unfoldable pub after_read : String → List Edit → Outcome E Bytes × W → EditResult × W
  after_read path es (err e, w) = access_failed e w
  after_read path es (ok bytes, w) =
      unless_aborted (λ w'. edit_content path es (strip_bom bytes) w') w

  unfoldable pub after_info : String → List Edit → Outcome E FileKind × W → EditResult × W
  after_info path es (err e, w) = access_failed e w
  after_info path es (ok kind, w) =
      if is_editable kind then after_read path es (env.read_file path w) else (failed not_a_file, w)

  unfoldable pub run_edit : String → List Edit → W → EditResult × W
  run_edit path es w = unless_aborted (λ w'. after_info path es (env.file_info path w')) w
