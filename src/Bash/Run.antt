-- ===== src/Bash/Run.antt =====
-- The bash tool of tools/bash.go, from its arguments to its result.
use resolute_agent_core_go.Prelude.{
  String, Bool, true, Option, none, ◌≡◌, sym, ap, ◌∙◌, subst, ◌⊎◌, inl, inr, Outcome, ok, err,
}
use resolute_agent_core_go.Shell.{
  Bytes, ShellCapture, ExecSpec, ExecResult, CaptureError, exec_failed, spill_failed, SpillError,
  execute_shell_with_capture,
}
use resolute_agent_core_go.Shell.Snapshot.{over_limits}
use resolute_agent_core_go.Shell.Spilled.{KeepsFiles}
use resolute_agent_core_go.Shell.Execution.{
  stream_of, CaptureCase, execute_shell_with_capture-CaptureCase,
}
use resolute_agent_core_go.Bash.Report.{IsReport, bash_result-IsReport}
use resolute_agent_core_go.Bash.{
  BashExecution, BashToolOptions, BashParams, Seconds, BashContent, BashToolDetails, BashResult,
  capture_failed, ran, validate_bash_timeout, execution_of, prepared, timeout_of, capture_options,
  after_capture, after_prepare, unless_refused, execute_bash,
}

-- What may become of a command, by what Exec returned.
unfoldable pub RunCase :
    {F E W : Type 0}
    → (W → String → Bytes)
    → Bytes
    → Outcome E ExecResult
    → Option F
    → W
    → BashResult F E
    → Type 0
RunCase contents stream (err e) timeout w r = r ≡ capture_failed (exec_failed e)
RunCase {F = F} {E = E} contents stream (ok result) timeout w r =
    ((failed : SpillError E) × (r ≡ capture_failed (spill_failed failed))
      × (over_limits stream ≡ true))
    ⊎ ((is_error : Bool) × (content : BashContent F) × (details : Option BashToolDetails) × (r
          ≡ ran is_error content details)
        × IsReport contents stream result timeout w is_error content details)

module _ {F E W : Type 0} (seconds : Seconds F) (opts : BashToolOptions E W)
    (contents : W → String → Bytes) where
  after_capture-RunCase :
      (p : BashParams F) (stream : Bytes) (run : Outcome E ExecResult) (w : W)
      (captured : Outcome (CaptureError E) ShellCapture)
      → CaptureCase contents stream run w captured
      → RunCase contents stream run p.timeout w (after_capture seconds opts p captured)
  unfolding CaptureCase RunCase after_capture
  after_capture-RunCase p stream (err e) w captured h = ap (after_capture seconds opts p) h
  after_capture-RunCase p stream (ok result) w captured (inl (failed, is, over)) =
      inl (failed, ap (after_capture seconds opts p) is, over)
  after_capture-RunCase p stream (ok result) w captured (inr (c, is, good)) =
      let (is_error, content, details, said, report) =
        bash_result-IsReport contents stream result w c p.timeout good in
      inr (is_error, content, details, ap (after_capture seconds opts p) is ∙ said, report)

  -- What Exec is called with.
  abbrev pub bash_spec : BashParams F → BashExecution → ExecSpec
  bash_spec p execution = record {
    command = execution.command;
    dir = execution.cwd;
    variables = execution.variables;
    inherit_env = execution.inherit_env;
    timeout = timeout_of seconds opts p.timeout;
  }

  -- With a valid timeout and an execution that Prepare, where it is set, leaves without error, and
  -- where the environment creates and appends to files as it documents: an error of Exec fails the
  -- call, as does a file that could not be written, which only an output over the limits can meet;
  -- else the result is a success just where the command was not cancelled, did not time out and exited
  -- with 0, with a status just where there is no output and no notice, and with the truncation and the
  -- file as details where the output is over the limits; a failure has no details and says that the
  -- command was aborted, if it was cancelled, else that it timed out, after which timeout, if it did,
  -- else its exit code or that a signal ended it; an output within the limits is shown whole, and
  -- another with a notice that names truly the lines that are shown, or the last line, whose end is,
  -- out of how many, and a file that has all of the output.
  pub execute_bash-RunCase :
      KeepsFiles opts.env contents
      → (p : BashParams F) (w w1 : W) (execution : BashExecution)
      → validate_bash_timeout seconds opts p.timeout ≡ none
      → prepared seconds opts (execution_of seconds opts p) w ≡ (ok execution, w1)
      → (let run = opts.env.exec (bash_spec p execution) w1 in
          let r = execute_bash seconds opts p w in
          RunCase contents (stream_of run.0) run.1 p.timeout r.1 r.0)
  unfolding execute_bash unless_refused after_prepare capture_options
  execute_bash-RunCase files p w w1 execution valid ready =
      let run = opts.env.exec (bash_spec p execution) w1 in
      let captured =
        execute_shell_with_capture opts.env execution.command
          (capture_options seconds opts p execution) w1 in
      let is : execute_bash seconds opts p w ≡ after_prepare seconds opts p (ok execution, w1) =
        ap (λ o. unless_refused seconds opts o p w) valid
        ∙ ap (after_prepare seconds opts p) ready in
      subst (λ (r : BashResult F E × W). RunCase contents (stream_of run.0) run.1 p.timeout r.1 r.0)
        (sym is)
        (after_capture-RunCase p (stream_of run.0) run.1 captured.world captured.result (
          execute_shell_with_capture-CaptureCase opts.env contents files execution.command
            (capture_options seconds opts p execution) w1))
