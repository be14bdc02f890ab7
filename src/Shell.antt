-- ===== src/Shell.antt =====
-- tools/shell_output.go: the capture of a command's output, in a tail buffer and in a file for what
-- exceeds the limits. Each call runs under the mutex, so it is one step. E is the type of Go errors
-- and W the file system. Exec is a parameter that gives the chunks in the order of their arrival.
pub mod Utf8
pub mod Text
pub mod Spacing
pub mod LastLine
pub mod Counters
pub mod Observed
pub mod Snapshot
pub mod Spilled
pub mod Clean
pub mod Execution
use resolute_agent_core_go.Prelude.{
  ℕ, zero, suc, ◌+◌, ◌-◌, ◌*◌, String, Bool, true, false, ◌&&◌, ◌||◌, not, List, [], ◌∷◌, ◌++◌,
  Option, none, some, ℤ, pos, Outcome, ok, err, if◌then◌else◌, leb, ltb, ◌==◌, length,
}
use resolute_agent_core_go.Truncate.{
  newline, default_max_lines, default_max_bytes, TruncatedBy, unlimited, by_lines, by_bytes,
  TruncationResult, TruncationOptions, truncate_tail, truncate_string_to_bytes_from_end,
}
use resolute_agent_core_go.Shell.Text.{text_of, count_newlines, trailing}

abbrev pub Bytes : Type 0
Bytes = List ℕ

abbrev pub max_tail_bytes : ℕ
max_tail_bytes = 2 * default_max_bytes

pub record ShellProgress : Type 0 where
  pub output : Bytes
  pub truncation : TruncationResult
  pub full_output_path : String

pub record ShellCapture : Type 0 where
  pub output : Bytes
  pub truncation : TruncationResult
  pub full_output_path : String
  pub last_line_bytes : ℕ
  pub exit_code : ℤ
  pub cancelled : Bool
  pub timed_out : Bool

-- The environment of the command is an association list, the timeout a number of nanoseconds.
pub record ShellCaptureOptions : Type 0 where
  pub dir : String
  pub variables : List (String × String)
  pub inherit_env : Bool
  pub timeout : ℤ

-- env.go
pub record ExecSpec : Type 0 where
  pub command : String
  pub dir : String
  pub variables : List (String × String)
  pub inherit_env : Bool
  pub timeout : ℤ

pub record ExecResult : Type 0 where
  pub exit_code : ℤ
  pub cancelled : Bool
  pub timed_out : Bool

-- The errors that are wrapped, by their texts, with the path that two of them name.
pub data SpillError (E : Type 0) : Type 0 where
  creating : E → SpillError E
  writing appending : String → E → SpillError E

pub record ShellCaptureState (E : Type 0) : Type 0 where
  pub tail : Bytes
  pub total_bytes : ℕ
  pub completed_lines : ℕ
  pub has_open_line : Bool
  pub current_line_bytes : ℕ
  pub full_output_path : String
  pub full_output_started : Bool
  pub spill_err : Option (SpillError E)

unfoldable pub empty_state : {E : Type 0} → ShellCaptureState E
empty_state = record {
  tail = [];
  total_bytes = 0;
  completed_lines = 0;
  has_open_line = false;
  current_line_bytes = 0;
  full_output_path = "";
  full_output_started = false;
  spill_err = none;
}

-- The ExecutionEnv, as far as the capture calls it. Exec hands over chunks, then it returns.
pub record ShellEnv (E W : Type 0) : Type 0 where
  pub create_temp : String → String → W → Outcome E String × W
  pub append_file : String → Bytes → W → Option E × W
  pub exec : ExecSpec → W → List Bytes × Outcome E ExecResult

-- The line counters, by what follows the text's last newline.
unfoldable pub count_line :
    {E : Type 0} → Option Bytes → Bytes → ShellCaptureState E → ShellCaptureState E
count_line (some t) text st = record st {
  current_line_bytes = length t;
  has_open_line = ltb 0 (length t);
}
count_line none [] st = st
count_line none (b ∷ s) st = record st {
  current_line_bytes = st.current_line_bytes + length (b ∷ s);
  has_open_line = true;
}

-- The counters and the tail buffer with a text, before it is spilled and trimmed.
unfoldable pub count_text : {E : Type 0} → Bytes → ShellCaptureState E → ShellCaptureState E
unfolding count_newlines trailing count_line
count_text text st =
    let counted = record st {
      total_bytes = st.total_bytes + length text;
      completed_lines = st.completed_lines + count_newlines text;
    } in
    let lined = count_line (trailing text) text counted in record lined { tail = st.tail ++ text }

unfoldable pub total_lines : {E : Type 0} → ShellCaptureState E → ℕ
total_lines st = if st.has_open_line then suc st.completed_lines else st.completed_lines

unfoldable pub is_overflowing : {E : Type 0} → ShellCaptureState E → Bool
unfolding total_lines
is_overflowing st = ltb default_max_bytes st.total_bytes || ltb default_max_lines (total_lines st)

unfoldable pub trim : {E : Type 0} → ShellCaptureState E → ShellCaptureState E
unfolding truncate_string_to_bytes_from_end
trim st = record st { tail = truncate_string_to_bytes_from_end st.tail (pos max_tail_bytes) }

module _ {E W : Type 0} (env : ShellEnv E W) where
  -- The result of a write to the spill file.
  unfoldable pub note_write :
      (E → SpillError E) → ShellCaptureState E → Option E × W → ShellCaptureState E × W
  note_write failed st (none, w) = (st, w)
  note_write failed st (some e, w) = (record st { spill_err = some (failed e) }, w)

  -- The first overflow: the file is created, and the tail buffer, not trimmed yet, is written.
  unfoldable pub start_spill : ShellCaptureState E → Outcome E String × W → ShellCaptureState E × W
  unfolding note_write
  start_spill st (err e, w) =
      (record st { full_output_started = true; spill_err = some (creating e) }, w)
  start_spill st (ok path, w) =
      note_write (writing path) (record st { full_output_started = true; full_output_path = path })
        (env.append_file path st.tail w)

  unfoldable pub spill :
      Bytes → ShellCaptureState E → Option (SpillError E) → W → ShellCaptureState E × W
  unfolding is_overflowing start_spill note_write
  spill text st (some failed) w = (st, w)
  spill text st none w =
      if is_overflowing st && not st.full_output_started
      then start_spill st (env.create_temp "bash-" ".log" w)
      else if st.full_output_started
      then note_write (appending st.full_output_path) st
          (env.append_file st.full_output_path text w)
      else (st, w)

  unfoldable pub observe_chunk : Bytes → ShellCaptureState E → W → Bytes × ShellCaptureState E × W
  unfolding text_of count_text spill trim
  observe_chunk chunk st w =
      let text = text_of chunk in
      let counted = count_text text st in
      let (spilled, w') = spill text counted counted.spill_err w in (text, trim spilled, w')

-- Which limit the snapshot names: the tail's, or by the counters of the whole stream.
unfoldable pub named_limit : Bool → TruncatedBy → ℕ → TruncatedBy
named_limit false tail_limit bytes = unlimited
named_limit true by_lines bytes = by_lines
named_limit true by_bytes bytes = by_bytes
named_limit true unlimited bytes = if ltb default_max_bytes bytes then by_bytes else by_lines

abbrev pub default_options : TruncationOptions
default_options = record { max_lines = pos 0; max_bytes = pos 0 }

unfoldable pub snapshot_locked : {E : Type 0} → ShellCaptureState E → ShellProgress
unfolding is_overflowing total_lines named_limit truncate_tail
snapshot_locked st =
    let tail_truncation = truncate_tail st.tail default_options in
    let truncated = is_overflowing st in
    record {
      output = if truncated then tail_truncation.content else st.tail;
      truncation = record tail_truncation {
        truncated = truncated;
        total_lines = total_lines st;
        total_bytes = st.total_bytes;
        truncated_by = named_limit truncated tail_truncation.truncated_by st.total_bytes;
      };
      full_output_path = st.full_output_path;
    }

pub data CaptureError (E : Type 0) : Type 0 where
  exec_failed : E → CaptureError E
  spill_failed : SpillError E → CaptureError E

-- The result, what OnChunk is called with, where it is set, and the file system that is left.
pub record Captured (E W : Type 0) : Type 0 where
  pub result : Outcome (CaptureError E) ShellCapture
  pub updates : List (Bytes × ShellProgress)
  pub world : W

module _ {E W : Type 0} (env : ShellEnv E W) where
  -- The chunks of one Exec, each handed to OnChunk with a snapshot behind it.
  unfoldable pub observe_all :
      List Bytes → ShellCaptureState E → W → List (Bytes × ShellProgress) × ShellCaptureState E × W
  observe_all [] st w = ([], st, w)
  observe_all (chunk ∷ chunks) st w =
      let (text, observed, w1) = observe_chunk env chunk st w in
      let (updates, final, w2) = observe_all chunks observed w1 in
      ((text, snapshot_locked observed) ∷ updates, final, w2)

unfoldable pub capture_of : {E : Type 0} → ShellCaptureState E → ExecResult → ShellCapture
capture_of st result =
    let progress = snapshot_locked st in
    record {
      output = progress.output;
      truncation = progress.truncation;
      full_output_path = progress.full_output_path;
      last_line_bytes = st.current_line_bytes;
      exit_code = result.exit_code;
      cancelled = result.cancelled;
      timed_out = result.timed_out;
    }

unfoldable pub finish :
    {E : Type 0}
    → ShellCaptureState E
    → Option (SpillError E)
    → Outcome E ExecResult
    → Outcome (CaptureError E) ShellCapture
finish st failed (err e) = err (exec_failed e)
finish st (some failed) (ok result) = err (spill_failed failed)
finish st none (ok result) = ok (capture_of st result)

unfoldable pub execute_shell_with_capture :
    {E W : Type 0} → ShellEnv E W → String → ShellCaptureOptions → W → Captured E W
execute_shell_with_capture env command opts w =
    let (chunks, result) =
      env.exec
        (record {
          command = command;
          dir = opts.dir;
          variables = opts.variables;
          inherit_env = opts.inherit_env;
          timeout = opts.timeout;
        })
        w in
    let (updates, st, w') = observe_all env chunks empty_state w in
    record { result = finish st st.spill_err result; updates = updates; world = w' }
