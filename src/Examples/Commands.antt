-- ===== src/Examples/Commands.antt =====
-- Calls of the bash tool, and its throttle.
use resolute_agent_core_go.Prelude.{
  ℕ, String, false, List, [], ◌∷◌, ◌++◌, none, some, ok, ◌≡◌, refl, ltb, pos,
}
use resolute_agent_core_go.Shell.{Bytes, ShellEnv, ExecResult}
use resolute_agent_core_go.Shell.Execution.{stream_of}
use resolute_agent_core_go.Shell.Spilled.{KeepsFiles}
use resolute_agent_core_go.Bash.{
  BashToolOptions, BashParams, Seconds, validate_bash_timeout, prepared, execution_of, execute_bash,
}
use resolute_agent_core_go.Bash.Run.{RunCase, execute_bash-RunCase}
use resolute_agent_core_go.Bash.Throttle.{
  BashThrottle, new_bash_throttle, final_flush, throttle_run, chunk, starts, runs, stopped,
  throttle_step, on_chunk, schedule_locked, schedule_since, emit_locked, emit_with,
  clear_timer_locked, clear_timer_at, arm, start_callback, is_due, disarm, timer_callback, stop,
}
use resolute_agent_core_go.Bash.Emitted.{final_flush-last}
use resolute_agent_core_go.Bash.Paced.{
  Apart, PromptEvent, arrives, rings, prompt_run, new_bash_throttle-Apart,
}

abbrev output : List Bytes
output = (97 ∷ 10 ∷ []) ∷ []

abbrev exited_two : ExecResult
exited_two = record { exit_code = pos 2; cancelled = false; timed_out = false }

-- The file system has one file.
abbrev shell : ShellEnv String Bytes
shell = record {
  create_temp = λ name_start name_end w. (ok "spill", []);
  append_file = λ path bytes w. (none, w ++ bytes);
  exec = λ spec w. (output, ok exited_two);
}

abbrev file_contents : Bytes → String → Bytes
file_contents w path = w

shell-KeepsFiles : KeepsFiles shell file_contents
shell-KeepsFiles = record {
  created = λ name_start name_end path w h. refl;
  appended = λ path bytes w h. refl;
}

abbrev bash : BashToolOptions String Bytes
bash = record { env = shell; cwd = "/"; command_prefix = ""; prepare = none }

-- Timeouts of whole seconds.
abbrev whole_seconds : Seconds ℕ
whole_seconds = record {
  is_positive = λ n. ltb 0 n;
  is_within = λ n. ltb n 2147484;
  nanoseconds = λ n. pos n;
}

abbrev listing : BashParams ℕ
listing = record { command = "ls"; timeout = some 5 }

execute_bash-RunCase_example :
    RunCase file_contents
      (stream_of output)
      (ok exited_two)
      listing.timeout
      (execute_bash whole_seconds bash listing []).1
      (execute_bash whole_seconds bash listing []).0
unfolding validate_bash_timeout prepared execution_of
execute_bash-RunCase_example =
    execute_bash-RunCase whole_seconds bash file_contents shell-KeepsFiles listing [] []
      (execution_of whole_seconds bash listing) refl refl

-- The world is what the progress function reads.
abbrev pending : BashThrottle ℕ ℕ
pending =
    throttle_run (chunk (λ w. w) 0 1 ∷ chunk (λ w. w) 1000 2 ∷ starts 0 100000000 ∷ [])
      new_bash_throttle

final_flush-last_example :
    (throttle_run (runs 200000000 3 ∷ stopped ∷ []) (final_flush 9 150000000 2 pending)).emitted
    ≡ pending.emitted ++ (150000000, 9) ∷ []
final_flush-last_example = final_flush-last 9 150000000 2 pending (runs 200000000 3 ∷ stopped ∷ [])

-- Without a last flush a callback that has started emits behind the stop.
late_emit :
    (throttle_run (stopped ∷ runs 200000000 3 ∷ []) pending).emitted ≡ (0, 1) ∷ (200000000, 3) ∷ []
unfolding throttle_run throttle_step new_bash_throttle on_chunk schedule_locked schedule_since
    emit_locked emit_with clear_timer_locked clear_timer_at arm start_callback is_due disarm
    timer_callback stop
late_emit = refl

abbrev events : List (PromptEvent ℕ ℕ)
events = arrives (λ w. w) 0 1 ∷ arrives (λ w. w) 1000 2 ∷ rings 0 100000000 3 ∷ []

new_bash_throttle-Apart_example : Apart none (prompt_run events new_bash_throttle).emitted
new_bash_throttle-Apart_example = new_bash_throttle-Apart events
