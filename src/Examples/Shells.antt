-- ===== src/Examples/Shells.antt =====
-- Captures of a command's output.
use resolute_agent_core_go.Prelude.{
  String, true, false, List, [], ◌∷◌, ◌++◌, none, ok, ◌≡◌, refl, pos,
}
use resolute_agent_core_go.Shell.{
  Bytes, ShellCaptureOptions, ShellEnv, ExecResult, observe_all, empty_state,
  execute_shell_with_capture,
}
use resolute_agent_core_go.Shell.Text.{text_of}
use resolute_agent_core_go.Shell.Observed.{empty-Observed}
use resolute_agent_core_go.Shell.Spilled.{KeepsFiles}
use resolute_agent_core_go.Shell.Clean.{IsClean, text_of-IsClean}
use resolute_agent_core_go.Shell.Execution.{
  stream_of, updates_of, without_paths, CaptureCase, observe_all-updates,
  execute_shell_with_capture-CaptureCase,
}

-- "a", an escape, a carriage return and a newline; then "b".
abbrev output : List Bytes
output = (97 ∷ 27 ∷ 13 ∷ 10 ∷ []) ∷ (98 ∷ []) ∷ []

abbrev succeeded : ExecResult
succeeded = record { exit_code = pos 0; cancelled = false; timed_out = false }

-- The file system has one file.
abbrev shell : ShellEnv String Bytes
shell = record {
  create_temp = λ name_start name_end w. (ok "spill", []);
  append_file = λ path bytes w. (none, w ++ bytes);
  exec = λ spec w. (output, ok succeeded);
}

abbrev file_contents : Bytes → String → Bytes
file_contents w path = w

shell-KeepsFiles : KeepsFiles shell file_contents
shell-KeepsFiles = record {
  created = λ name_start name_end path w h. refl;
  appended = λ path bytes w h. refl;
}

abbrev options : ShellCaptureOptions
options = record { dir = ""; variables = []; inherit_env = true; timeout = pos 0 }

text_of-IsClean_example : IsClean (text_of (97 ∷ 27 ∷ 195 ∷ 169 ∷ 255 ∷ []))
text_of-IsClean_example = text_of-IsClean (97 ∷ 27 ∷ 195 ∷ 169 ∷ 255 ∷ [])

observe_all-updates_example :
    without_paths (observe_all shell output empty_state []).0 ≡ updates_of [] output
observe_all-updates_example = observe_all-updates shell [] output empty_state [] empty-Observed

execute_shell_with_capture-CaptureCase_example :
    (let captured = execute_shell_with_capture shell "ls" options [] in
      CaptureCase file_contents (stream_of output) (ok succeeded) captured.world captured.result)
execute_shell_with_capture-CaptureCase_example =
    execute_shell_with_capture-CaptureCase shell file_contents shell-KeepsFiles "ls" options []
