-- ===== src/Shell/Execution.antt =====
-- ExecuteShellWithCapture of tools/shell_output.go: its result, on every branch, and the progress that
-- OnChunk is given.
use mathlib.Core.Path.{ap₂}
use resolute_agent_core_go.Prelude.{
  String, Bool, true, false, List, [], ◌∷◌, ◌++◌, Option, none, some, ◌≡◌, refl, ap, ◌∙◌, ◌⊎◌, inl,
  inr, length, append_assoc, append-nil, Outcome, ok, err,
}
use resolute_agent_core_go.Truncate.{TruncationResult, truncate_tail}
use resolute_agent_core_go.Shell.{
  Bytes, ShellProgress, ShellCapture, ShellCaptureOptions, ShellCaptureState, ShellEnv, ExecSpec,
  ExecResult, SpillError, CaptureError, exec_failed, spill_failed, observe_chunk, observe_all,
  snapshot_locked, default_options, empty_state, finish, capture_of, execute_shell_with_capture,
}
use resolute_agent_core_go.Shell.Text.{text_of}
use resolute_agent_core_go.Shell.LastLine.{open_line}
use resolute_agent_core_go.Shell.Observed.{Observed, observe_chunk-Observed, empty-Observed}
use resolute_agent_core_go.Shell.Snapshot.{over_limits, reported, snapshot-reported}
use resolute_agent_core_go.Shell.Spilled.{
  KeepsFiles, SpillCase, Spilled, empty-Spilled, observe_chunk-Spilled,
}

-- The whole sanitized output.
abbrev pub stream_of : List Bytes → Bytes
stream_of [] = []
stream_of (chunk ∷ chunks) = text_of chunk ++ stream_of chunks

-- What OnChunk is to be given, behind the output so far: each text, and what TruncateTail makes of all
-- the output up to it.
pub updates_of : Bytes → List Bytes → List (Bytes × Bytes × TruncationResult)
updates_of before [] = []
updates_of before (chunk ∷ chunks) =
    let whole = truncate_tail (before ++ text_of chunk) default_options in
    (text_of chunk, whole.content, whole) ∷ updates_of (before ++ text_of chunk) chunks

-- An update without the path of the file.
pub without_paths : List (Bytes × ShellProgress) → List (Bytes × Bytes × TruncationResult)
without_paths [] = []
without_paths ((text, p) ∷ updates) = (text, p.output, p.truncation) ∷ without_paths updates

module _ {E W : Type 0} (env : ShellEnv E W) where
  text-observe_chunk :
      (chunk : Bytes) (st : ShellCaptureState E) (w : W)
      → (observe_chunk env chunk st w).0 ≡ text_of chunk
  unfolding observe_chunk
  text-observe_chunk chunk st w = refl

  -- From a state that is that of a capture of the stream so far: each call of OnChunk, in order, has
  -- the text of its chunk and the output and the truncation that TruncateTail makes of the whole stream
  -- up to it, although the buffer holds no more than its end.
  pub observe_all-updates :
      (stream : Bytes) (chunks : List Bytes) (st : ShellCaptureState E) (w : W)
      → Observed stream st
      → without_paths (observe_all env chunks st w).0 ≡ updates_of stream chunks
  unfolding observe_all without_paths updates_of
  observe_all-updates stream [] st w o = refl
  observe_all-updates stream (chunk ∷ chunks) st w o =
      let r = observe_chunk env chunk st w in
      let next = observe_chunk-Observed env stream chunk st w o in
      let now : snapshot_locked r.1 ≡ reported (stream ++ text_of chunk) r.1.full_output_path =
        snapshot-reported (stream ++ text_of chunk) r.1 next in
      let later = observe_all-updates (stream ++ text_of chunk) chunks r.1 r.2 next in
      let update : Bytes × Bytes × TruncationResult = (
        text_of chunk,
        (truncate_tail (stream ++ text_of chunk) default_options).content,
        truncate_tail (stream ++ text_of chunk) default_options,
      ) in
      ap₂
        (λ (t : Bytes) (p : ShellProgress).
          (t, p.output, p.truncation) ∷ without_paths (observe_all env chunks r.1 r.2).0)
        (text-observe_chunk chunk st w) now
      ∙ ap (λ l. update ∷ l) later

  module _ (contents : W → String → Bytes) (files : KeepsFiles env contents) where
    observe_all-Captured :
        (stream : Bytes) (chunks : List Bytes) (st : ShellCaptureState E) (w : W)
        → Observed stream st
        → Spilled contents stream (st, w)
        → (let r = observe_all env chunks st w in
            Observed (stream ++ stream_of chunks) r.1
            × Spilled contents (stream ++ stream_of chunks) (r.1, r.2))
    unfolding observe_all
    observe_all-Captured stream [] st w o h = rw append-nil (o, h)
    observe_all-Captured stream (chunk ∷ chunks) st w o h =
        let r = observe_chunk env chunk st w in
        rw (← append_assoc stream (text_of chunk) (stream_of chunks)) (
          observe_all-Captured (stream ++ text_of chunk) chunks r.1 r.2
            (observe_chunk-Observed env stream chunk st w o)
            (observe_chunk-Spilled env contents files stream chunk st w o h))

-- What a completed capture holds of the whole output; the path is empty where no file was needed.
pub record IsCaptureOf {W : Type 0} (contents : W → String → Bytes) (stream : Bytes)
    (result : ExecResult) (w : W) (c : ShellCapture) : Type 0 where
  pub truncation : c.truncation ≡ truncate_tail stream default_options
  pub output : c.output ≡ (truncate_tail stream default_options).content
  pub last_line : c.last_line_bytes ≡ length (open_line stream)
  pub ended :
      (c.exit_code ≡ result.exit_code)
      × (c.cancelled ≡ result.cancelled)
      × (c.timed_out ≡ result.timed_out)
  pub full_output :
      ((over_limits stream ≡ false) × (c.full_output_path ≡ ""))
      ⊎ ((over_limits stream ≡ true) × (contents w c.full_output_path ≡ stream))

-- What may become of a capture, by what Exec returned.
unfoldable pub CaptureCase :
    {E W : Type 0}
    → (W → String → Bytes)
    → Bytes
    → Outcome E ExecResult
    → W
    → Outcome (CaptureError E) ShellCapture
    → Type 0
CaptureCase contents stream (err e) w r = r ≡ err (exec_failed e)
CaptureCase {E = E} contents stream (ok result) w r =
    ((failed : SpillError E) × (r ≡ err (spill_failed failed)) × (over_limits stream ≡ true))
    ⊎ ((c : ShellCapture) × (r ≡ ok c) × IsCaptureOf contents stream result w c)

capture_of-IsCaptureOf :
    {E W : Type 0} (contents : W → String → Bytes) (stream : Bytes) (result : ExecResult) (w : W)
    (st : ShellCaptureState E)
    → snapshot_locked st ≡ reported stream st.full_output_path
    → st.current_line_bytes ≡ length (open_line stream)
    → ((over_limits stream ≡ false) × (st.full_output_path ≡ ""))
      ⊎ ((over_limits stream ≡ true) × (contents w st.full_output_path ≡ stream))
    → IsCaptureOf contents stream result w (capture_of st result)
unfolding capture_of
capture_of-IsCaptureOf contents stream result w st now last file =
    let path : (snapshot_locked st).full_output_path ≡ st.full_output_path =
      ap (λ (p : ShellProgress). p.full_output_path) now in
    record {
      truncation = ap (λ (p : ShellProgress). p.truncation) now;
      output = ap (λ (p : ShellProgress). p.output) now;
      last_line = last;
      ended = (refl, refl, refl);
      full_output = at_path path file;
    }
  where
    at_path :
        {p : String}
        → p ≡ st.full_output_path
        → ((over_limits stream ≡ false) × (st.full_output_path ≡ ""))
          ⊎ ((over_limits stream ≡ true) × (contents w st.full_output_path ≡ stream))
        → ((over_limits stream ≡ false) × (p ≡ ""))
          ⊎ ((over_limits stream ≡ true) × (contents w p ≡ stream))
    at_path e h = rw e h

module _ {E W : Type 0} (contents : W → String → Bytes) where
  finish-CaptureCase :
      (stream : Bytes) (st : ShellCaptureState E) (w : W) (failed : Option (SpillError E))
      (started : Bool) (result : Outcome E ExecResult)
      → Observed stream st
      → SpillCase contents failed started st.full_output_path stream w
      → CaptureCase contents stream result w (finish st failed result)
  unfolding CaptureCase finish SpillCase
  finish-CaptureCase stream st w failed started (err e) o h = refl
  finish-CaptureCase stream st w (some failed) started (ok result) o h = inl (failed, refl, h)
  finish-CaptureCase stream st w none started (ok result) o h =
      inr (capture_of st result, refl, completed)
    where
      now : snapshot_locked st ≡ reported stream st.full_output_path
      now = snapshot-reported stream st o

      file :
          (started : Bool)
          → SpillCase {E = E} contents none started st.full_output_path stream w
          → ((over_limits stream ≡ false) × (st.full_output_path ≡ ""))
            ⊎ ((over_limits stream ≡ true) × (contents w st.full_output_path ≡ stream))
      file false h = inl h
      file true h = inr h

      completed : IsCaptureOf contents stream result w (capture_of st result)
      completed =
          capture_of-IsCaptureOf contents stream result w st now o.counted.last_line
            (file started h)

abbrev spec_of : String → ShellCaptureOptions → ExecSpec
spec_of command opts = record {
  command = command;
  dir = opts.dir;
  variables = opts.variables;
  inherit_env = opts.inherit_env;
  timeout = opts.timeout;
}

-- Where the environment creates and appends to files as it documents: an error of Exec is passed on; a
-- file that could not be written is an error, which only an output over the limits can meet; and else
-- the capture holds what TruncateTail makes of the whole sanitized output, however it was split into
-- chunks, with the bytes of its last line, Exec's result, and, just where the output is over the
-- limits, the path of a file that holds all of it.
pub execute_shell_with_capture-CaptureCase :
    {E W : Type 0} (env : ShellEnv E W) (contents : W → String → Bytes)
    → KeepsFiles env contents
    → (command : String) (opts : ShellCaptureOptions) (w : W)
    → (let run = env.exec (spec_of command opts) w in
        let captured = execute_shell_with_capture env command opts w in
        CaptureCase contents (stream_of run.0) run.1 captured.world captured.result)
unfolding execute_shell_with_capture
execute_shell_with_capture-CaptureCase {E = E} env contents files command opts w =
    let run = env.exec (spec_of command opts) w in
    let all = observe_all env run.0 empty_state w in
    let (o, h) =
      observe_all-Captured env contents files [] run.0 empty_state w empty-Observed
        (empty-Spilled E contents w) in
    finish-CaptureCase contents (stream_of run.0) all.1 all.2 all.1.spill_err
      all.1.full_output_started run.1 o h
