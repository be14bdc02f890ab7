-- ===== src/Bash/Notices.antt =====
-- The notices of tools/bash.go on an output that is cut: what they say is so.
use resolute_agent_core_go.Prelude.{
  if-true, if-false, ℕ, ◌+◌, ◌-◌, ◌≤◌, String, true, false, List, [], ◌∷◌, ◌++◌, Option, none, some,
  ◌≡◌, refl, sym, ap, ◌∙◌, subst, ◌⊎◌, inl, inr, pos, length, drop, arith,
}
use resolute_agent_core_go.Truncate.{
  TruncationResult, TruncatedBy, unlimited, by_lines, by_bytes, join, split_lines_for_counting,
  truncate_tail, resolve_limits, truncate_string_to_bytes_from_end, default_max_bytes,
  default_max_lines,
}
use resolute_agent_core_go.Truncate.Tail.{TailCase, truncate_tail-longest}
use resolute_agent_core_go.Shell.{Bytes, ShellCapture, ExecResult, default_options}
use resolute_agent_core_go.Shell.Snapshot.{over_limits, truncate_tail-totals}
use resolute_agent_core_go.Shell.Execution.{IsCaptureOf}
use resolute_agent_core_go.Bash.{
  Notice, end_of_line, line_range, byte_range, range_notice, notice_of, bash_truncation_notice,
  notice_if,
}

-- The lines from the one numbered `start`, counted from 1, to the last are shown, and the file has all.
abbrev pub ShowsLines :
    {W : Type 0} → (W → String → Bytes) → Bytes → W → Bytes → ℕ → ℕ → ℕ → String → Type 0
ShowsLines contents stream w output start last total path =
    (1 ≤ start)
    × (output ≡ join (drop (start - 1) (split_lines_for_counting stream)))
    × (last ≡ length (split_lines_for_counting stream))
    × (total ≡ length (split_lines_for_counting stream))
    × (contents w path ≡ stream)

-- The end of the last line is shown, and the file has all.
abbrev pub ShowsEnd : {W : Type 0} → (W → String → Bytes) → Bytes → W → Bytes → ℕ → String → Type 0
ShowsEnd contents stream w output total path =
    (front : List (List ℕ)) × (line : List ℕ) × (split_lines_for_counting stream
      ≡ front ++ line ∷ [])
    × (output ≡ truncate_string_to_bytes_from_end line (pos default_max_bytes))
    × (total ≡ length (split_lines_for_counting stream))
    × (contents w path ≡ stream)

-- What a notice says is so.
unfoldable pub Names : {W : Type 0} → (W → String → Bytes) → Bytes → W → Bytes → Notice → Type 0
Names contents stream w output (line_range start last total path) =
    ShowsLines contents stream w output start last total path
Names contents stream w output (byte_range start last total path) =
    ShowsLines contents stream w output start last total path
Names contents stream w output (end_of_line shown total line_bytes path) =
    ShowsEnd contents stream w output total path

-- An output within the limits is shown whole, without a notice, and of others a notice says what is.
abbrev pub Shown : {W : Type 0} → (W → String → Bytes) → Bytes → W → Bytes → Option Notice → Type 0
Shown contents stream w output notice =
    ((over_limits stream ≡ false) × (output ≡ stream) × (notice ≡ none))
    ⊎ ((over_limits stream ≡ true)
        × (n : Notice) × (notice ≡ some n)
        × Names contents stream w output n)

default_cases :
    (stream : Bytes)
    → TailCase default_max_lines default_max_bytes stream (truncate_tail stream default_options)
unfolding resolve_limits
default_cases stream =
    truncate_tail-longest stream default_options default_max_lines default_max_bytes refl

module _ {W : Type 0} (contents : W → String → Bytes) (stream : Bytes) (w : W) where
  range-Names :
      (output : Bytes) (k : TruncatedBy) (start total : ℕ) (path : String)
      → ShowsLines contents stream w output start total total path
      → Names contents stream w output (range_notice k start total path)
  unfolding range_notice Names
  range-Names output by_lines start total path h = h
  range-Names output by_bytes start total path h = h
  range-Names output unlimited start total path h = h

  -- The notice of what TruncateTail reports of the whole output.
  notice_of-Names :
      (t : TruncationResult) (bytes : ℕ) (path : String)
      → TailCase default_max_lines default_max_bytes stream t
      → t.total_lines ≡ length (split_lines_for_counting stream)
      → t.truncated ≡ true
      → contents w path ≡ stream
      → Names contents stream w t.content (notice_of t bytes path)
  unfolding notice_of Names
  notice_of-Names t bytes path (inl (whole, _)) total cut file = absurd (ground (arith, cut, whole))
  notice_of-Names t bytes path (inr (_, _, inl (not_partial, longest))) total cut file =
      if-false (Names contents stream w t.content) t.last_line_partial _ _ not_partial (
        range-Names t.content t.truncated_by (t.total_lines + 1 - t.output_lines) t.total_lines path
          (
            omega (arith, longest.enough, total),
            longest.last_lines
                ∙ ap (λ n. join (drop n (split_lines_for_counting stream)))
                    (omega (arith, longest.enough, total)),
            total,
            total,
            file,
          ))
  notice_of-Names t bytes path (inr (_, _, inr (partial, end))) total cut file =
      if-true (Names contents stream w t.content) t.last_line_partial _ _ partial
        (end.front, end.line, end.parts, end.cut, total, file)

  pub notice_if-Shown :
      (result : ExecResult) (c : ShellCapture)
      → IsCaptureOf contents stream result w c
      → Shown contents stream w c.output (notice_if c)
  unfolding notice_if bash_truncation_notice
  notice_if-Shown result c h =
      let (cut, total) = truncate_tail-totals stream in
      let limited : c.truncation.truncated ≡ over_limits stream =
        ap (λ (t : TruncationResult). t.truncated) h.truncation ∙ cut in
      elim h.full_output [
        | inl (within, _) ↦ inl (
          within,
          h.output ∙ unchanged within,
          if-false (λ n. n ≡ none) c.truncation.truncated _ _ (limited ∙ within) refl,
        )
        | inr (over, file) ↦ inr (
          over,
          notice_of c.truncation c.last_line_bytes c.full_output_path,
          if-true (λ n. n ≡ some (notice_of c.truncation c.last_line_bytes c.full_output_path))
              c.truncation.truncated _ _ (limited ∙ over) refl,
          names over file,
        )
      ]
    where
      t : TruncationResult
      t = truncate_tail stream default_options

      unchanged : over_limits stream ≡ false → t.content ≡ stream
      unchanged within = elim (default_cases stream) [
        | inl (_, whole) ↦ whole.unchanged
        | inr (cut, _, _) ↦ absurd (ground (arith, cut, within, (truncate_tail-totals stream).0))
      ]

      names :
          over_limits stream ≡ true
          → contents w c.full_output_path ≡ stream
          → Names contents stream w c.output
              (notice_of c.truncation c.last_line_bytes c.full_output_path)
      names over file =
          let (cut, total) = truncate_tail-totals stream in
          subst
            (λ (u : TruncationResult).
              Names contents stream w c.output (notice_of u c.last_line_bytes c.full_output_path))
            (sym h.truncation)
            (subst
              (λ o. Names contents stream w o (notice_of t c.last_line_bytes c.full_output_path))
              (sym h.output)
              (notice_of-Names t c.last_line_bytes c.full_output_path (default_cases stream) total
                (cut ∙ over) file))
