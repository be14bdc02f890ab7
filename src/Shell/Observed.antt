-- ===== src/Shell/Observed.antt =====
-- The capture's state after a chunk, by the stream so far: its counters and its tail buffer, whatever
-- becomes of the spill file.
use resolute_agent_core_go.Prelude.{
  if-either, ℕ, String, true, ◌&&◌, not, List, [], ◌∷◌, ◌++◌, Option, none, some, ◌≡◌, refl, ap,
  ◌∙◌, pos, Outcome, ok, err,
}
use resolute_agent_core_go.Truncate.{truncate_string_to_bytes_from_end}
use resolute_agent_core_go.Truncate.Extended.{truncate-append}
use resolute_agent_core_go.Shell.{
  Bytes, max_tail_bytes, ShellCaptureState, ShellEnv, SpillError, writing, appending, empty_state,
  count_text, is_overflowing, trim, note_write, start_spill, spill, observe_chunk,
}
use resolute_agent_core_go.Shell.Text.{text_of}
use resolute_agent_core_go.Shell.Spacing.{Spaced, Spaced-append, Spaced-starts, text_of-Spaced}
use resolute_agent_core_go.Shell.Counters.{Counted, count_text-Counted, empty-Counted}

-- The state is that of a capture of the stream.
pub record Observed {E : Type 0} (stream : List ℕ) (st : ShellCaptureState E) : Type 0 where
  pub counted : Counted stream st
  pub tail : st.tail ≡ truncate_string_to_bytes_from_end stream (pos max_tail_bytes)
  pub spaced : Spaced 0 stream

-- What a spill changes: nothing that a snapshot counts.
abbrev SameCounts : {E : Type 0} → ShellCaptureState E → ShellCaptureState E → Type 0
SameCounts a b =
    (a.tail ≡ b.tail)
    × (a.total_bytes ≡ b.total_bytes)
    × (a.completed_lines ≡ b.completed_lines)
    × (a.current_line_bytes ≡ b.current_line_bytes)
    × (a.has_open_line ≡ b.has_open_line)

module _ {E W : Type 0} (env : ShellEnv E W) where
  note_write-SameCounts :
      (failed : E → SpillError E) (st : ShellCaptureState E) (r : Option E × W)
      → SameCounts (note_write env failed st r).0 st
  unfolding note_write
  note_write-SameCounts failed st (none, w) = (refl, refl, refl, refl, refl)
  note_write-SameCounts failed st (some e, w) = (refl, refl, refl, refl, refl)

  start_spill-SameCounts :
      (st : ShellCaptureState E) (r : Outcome E String × W) → SameCounts (start_spill env st r).0 st
  unfolding start_spill
  start_spill-SameCounts st (err e, w) = (refl, refl, refl, refl, refl)
  start_spill-SameCounts st (ok path, w) =
      note_write-SameCounts (writing path)
        (record st { full_output_started = true; full_output_path = path })
        (env.append_file path st.tail w)

  spill-SameCounts :
      (text : List ℕ) (st : ShellCaptureState E) (failed : Option (SpillError E)) (w : W)
      → SameCounts (spill env text st failed w).0 st
  unfolding spill
  spill-SameCounts text st (some failed) w = (refl, refl, refl, refl, refl)
  spill-SameCounts text st none w =
      if-either (λ (r : ShellCaptureState E × W). SameCounts r.0 st)
        (is_overflowing st && not st.full_output_started)
        (start_spill-SameCounts st (env.create_temp "bash-" ".log" w))
        (if-either (λ (r : ShellCaptureState E × W). SameCounts r.0 st) st.full_output_started
          (note_write-SameCounts (appending st.full_output_path) st
            (env.append_file st.full_output_path text w))
          (refl, refl, refl, refl, refl))

  -- The state before the trim.
  abbrev spilled : List ℕ → ShellCaptureState E → W → ShellCaptureState E × W
  spilled text st w = spill env text (count_text text st) (count_text text st).spill_err w

  pub observe_chunk-Observed :
      (stream chunk : List ℕ) (st : ShellCaptureState E) (w : W)
      → Observed stream st
      → Observed (stream ++ text_of chunk) (observe_chunk env chunk st w).1
  unfolding observe_chunk trim count_text
  observe_chunk-Observed stream chunk st w o =
      let text = text_of chunk in
      let (tail, bytes, completed, current, opened) =
        spill-SameCounts text (count_text text st) (count_text text st).spill_err w in
      let c : Counted (stream ++ text) (count_text text st) =
        count_text-Counted stream text st o.counted in
      let spaced : Spaced 0 text = text_of-Spaced chunk in
      record {
        counted = record {
          bytes = bytes ∙ c.bytes;
          newlines = completed ∙ c.newlines;
          last_line = current ∙ c.last_line;
          is_open = opened ∙ c.is_open;
        };
        tail =
            ap (λ t. truncate_string_to_bytes_from_end t (pos max_tail_bytes))
              (tail ∙ ap (λ t. t ++ text) o.tail)
            ∙ truncate-append 102399 stream text (Spaced-starts text spaced);
        spaced = Spaced-append 0 stream text o.spaced spaced;
      }

  -- The whole sanitized output.
  abbrev pub stream_of : List Bytes → Bytes
  stream_of [] = []
  stream_of (chunk ∷ chunks) = text_of chunk ++ stream_of chunks

pub empty-Observed : {E : Type 0} → Observed [] (empty_state {E = E})
unfolding empty_state truncate_string_to_bytes_from_end
empty-Observed = record { counted = empty-Counted; tail = refl; spaced = tt }
