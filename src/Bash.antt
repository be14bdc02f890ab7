-- ===== src/Bash.antt =====
-- tools/bash.go: the bash tool. The texts of its notices and status lines are data; a timeout, which is
-- a floating point number of seconds, is a parameter F.
pub mod Throttle
pub mod Emitted
pub mod Paced
pub mod Notices
pub mod Statuses
pub mod Report
pub mod Run
use resolute_agent_core_go.Prelude.{
  ℕ, zero, suc, ◌+◌, ◌-◌, String, Bool, true, false, ◌&&◌, not, List, [], ◌∷◌, ◌++◌, Option, none,
  some, ℤ, pos, negsuc, ltb_ℤ, Outcome, ok, err, if◌then◌else◌, str_eq,
}
use Prim.Native.String.{◌++◌ as concat}
use resolute_agent_core_go.Truncate.{TruncationResult, TruncatedBy, unlimited, by_lines, by_bytes}
use resolute_agent_core_go.Shell.{
  Bytes, ShellCapture, ShellCaptureOptions, ShellEnv, CaptureError, execute_shell_with_capture,
}

pub record BashExecution : Type 0 where
  pub command : String
  pub cwd : String
  pub variables : List (String × String)
  pub inherit_env : Bool

-- ExecutionEnv is a ShellEnv with its directory; Prepare is none where it is not set, and returns the
-- execution that it leaves.
pub record BashToolOptions (E W : Type 0) : Type 0 where
  pub env : ShellEnv E W
  pub cwd : String
  pub command_prefix : String
  pub prepare : Option (BashExecution → W → Outcome E BashExecution × W)

pub record BashParams (F : Type 0) : Type 0 where
  pub command : String
  pub timeout : Option F

-- What is asked of a timeout: that it is finite and positive, that it is at most maxTimeoutSeconds, and
-- its nanoseconds.
pub record Seconds (F : Type 0) : Type 0 where
  pub is_positive : F → Bool
  pub is_within : F → Bool
  pub nanoseconds : F → ℤ

-- bashTruncationNotice: the end of one line, or a range of lines, because of either limit, with the
-- path of the full output.
pub data Notice : Type 0 where
  end_of_line : ℕ → ℕ → ℕ → String → Notice
  line_range byte_range : ℕ → ℕ → ℕ → String → Notice

pub data Status (F : Type 0) : Type 0 where
  aborted terminated no_output : Status F
  timed_out : Option F → Status F
  exited : ℕ → Status F

-- The text of the result: the output, with the notice and the status behind it.
pub record BashContent (F : Type 0) : Type 0 where
  pub output : Bytes
  pub notice : Option Notice
  pub status : Option (Status F)

pub record BashToolDetails : Type 0 where
  pub truncation : Option TruncationResult
  pub full_output_path : String

-- A call that failed before the command's end, or a result with its IsError and its details.
pub data BashResult (F E : Type 0) : Type 0 where
  invalid_timeout timeout_too_long : BashResult F E
  prepare_failed : E → BashResult F E
  capture_failed : CaptureError E → BashResult F E
  ran : Bool → BashContent F → Option BashToolDetails → BashResult F E

unfoldable pub bash_details : TruncationResult → Bool → String → BashToolDetails
bash_details t include_truncation path = record {
  truncation = if include_truncation then some t else none;
  full_output_path = path;
}

-- The two notices on lines that are shown to the last.
unfoldable pub range_notice : TruncatedBy → ℕ → ℕ → String → Notice
range_notice by_lines start_line total path = line_range start_line total total path
range_notice by_bytes start_line total path = byte_range start_line total total path
range_notice unlimited start_line total path = byte_range start_line total total path

-- The output has no more lines than there are, so the first line's number is that of the code.
unfoldable pub notice_of : TruncationResult → ℕ → String → Notice
unfolding range_notice
notice_of t last_line_bytes path =
    if t.last_line_partial
    then end_of_line t.output_bytes t.total_lines last_line_bytes path
    else range_notice t.truncated_by (t.total_lines + 1 - t.output_lines) t.total_lines path

unfoldable pub bash_truncation_notice : ShellCapture → Notice
unfolding notice_of
bash_truncation_notice c = notice_of c.truncation c.last_line_bytes c.full_output_path

-- The status of a command that did not end well; `none` is a success.
unfoldable pub failure_status : {F : Type 0} → Option F → ShellCapture → Option (Status F)
failure_status timeout c =
    if c.cancelled
    then some aborted
    else if c.timed_out
    then some (timed_out timeout)
    else elim c.exit_code [
      | pos zero ↦ none
      | pos (suc n) ↦ some (exited (suc n))
      | negsuc n ↦ some terminated
    ]

is_empty : Bytes → Bool
is_empty [] = true
is_empty (b ∷ s) = false

-- What is said of a success: that there was no output, where the text would be empty.
unfoldable pub success_status : {F : Type 0} → Bytes → Option Notice → Option (Status F)
unfolding is_empty
success_status output (some n) = none
success_status output none = if is_empty output then some no_output else none

unfoldable pub notice_if : ShellCapture → Option Notice
notice_if c = if c.truncation.truncated then some (bash_truncation_notice c) else none

unfoldable pub details_if : ShellCapture → Option BashToolDetails
unfolding bash_details
details_if c =
    if c.truncation.truncated
    then some (bash_details c.truncation true c.full_output_path)
    else none

unfoldable pub with_status : {F E : Type 0} → Option (Status F) → ShellCapture → BashResult F E
with_status (some failed) c =
    ran true (record { output = c.output; notice = notice_if c; status = some failed }) none
with_status none c =
    ran false
      (record {
        output = c.output;
        notice = notice_if c;
        status = success_status c.output (notice_if c);
      })
      (details_if c)

unfoldable pub bash_result : {F E : Type 0} → Option F → ShellCapture → BashResult F E
bash_result timeout c = with_status (failure_status timeout c) c

module _ {F E W : Type 0} (seconds : Seconds F) (opts : BashToolOptions E W) where
  -- `none` is a valid timeout.
  unfoldable pub validate_bash_timeout : Option F → Option (BashResult F E)
  validate_bash_timeout none = none
  validate_bash_timeout (some v) =
      if not (seconds.is_positive v)
      then some invalid_timeout
      else if seconds.is_within v
      then none
      else some timeout_too_long

  unfoldable pub execution_of : BashParams F → BashExecution
  execution_of p = record {
    command =
        if str_eq opts.command_prefix ""
        then p.command
        else concat opts.command_prefix (concat "\n" p.command);
    cwd = opts.cwd;
    variables = [];
    inherit_env = true;
  }

  unfoldable pub prepared : BashExecution → W → Outcome E BashExecution × W
  prepared execution w = elim opts.prepare [
    | none ↦ (ok execution, w)
    | some prepare ↦ prepare execution w
  ]

  unfoldable pub timeout_of : Option F → ℤ
  timeout_of none = pos 0
  timeout_of (some v) = seconds.nanoseconds v

  unfoldable pub capture_options : BashParams F → BashExecution → ShellCaptureOptions
  capture_options p execution = record {
    dir = execution.cwd;
    variables = execution.variables;
    inherit_env = execution.inherit_env;
    timeout = timeout_of p.timeout;
  }

  unfoldable pub after_capture :
      BashParams F → Outcome (CaptureError E) ShellCapture → BashResult F E
  after_capture p (err e) = capture_failed e
  after_capture p (ok c) = bash_result p.timeout c

  unfoldable pub after_prepare : BashParams F → Outcome E BashExecution × W → BashResult F E × W
  after_prepare p (err e, w) = (prepare_failed e, w)
  after_prepare p (ok execution, w) =
      let captured =
        execute_shell_with_capture opts.env execution.command (capture_options p execution) w in
      (after_capture p captured.result, captured.world)

  unfoldable pub unless_refused : Option (BashResult F E) → BashParams F → W → BashResult F E × W
  unless_refused (some failed) p w = (failed, w)
  unless_refused none p w = after_prepare p (prepared (execution_of p) w)

  -- ExecuteStream, less the partial results that the throttle emits.
  unfoldable pub execute_bash : BashParams F → W → BashResult F E × W
  execute_bash p w = unless_refused (validate_bash_timeout p.timeout) p w
