-- ===== src/Shell/Counters.antt =====
-- The counters of the capture, against the whole stream.
use resolute_agent_core_go.Prelude.{
  ℕ, suc, ◌+◌, ◌-◌, ◌≤◌, true, false, List, [], ◌∷◌, ◌++◌, Option, none, some, ◌≡◌, refl, ap, ◌∙◌,
  inl, inr, arith, ltb, length, Bool-cases, append-nil, length-append, length-take,
}
use resolute_agent_core_go.Truncate.{split, has_newline_suffix, split_lines_for_counting}
use resolute_agent_core_go.Shell.LastLine.{
  line_or, open_line, count_newlines-append, open_line-append, trailing-newline,
  length-split-newlines, suffix-open,
}
use resolute_agent_core_go.Shell.{
  ShellCaptureState, empty_state, count_line, count_text, total_lines,
}
use resolute_agent_core_go.Shell.Text.{count_newlines, trailing}

-- The counters are those of the stream.
pub record Counted {E : Type 0} (stream : List ℕ) (st : ShellCaptureState E) : Type 0 where
  pub bytes : st.total_bytes ≡ length stream
  pub newlines : st.completed_lines ≡ count_newlines stream
  pub last_line : st.current_line_bytes ≡ length (open_line stream)
  pub is_open : st.has_open_line ≡ ltb 0 (length (open_line stream))

count_line-open :
    {E : Type 0} (s t : List ℕ) (o : Option (List ℕ)) (st : ShellCaptureState E)
    → trailing t ≡ o
    → st.current_line_bytes ≡ length (open_line s)
    → st.has_open_line ≡ ltb 0 (length (open_line s))
    → ((count_line o t st).current_line_bytes ≡ length (open_line (s ++ t)))
      × ((count_line o t st).has_open_line ≡ ltb 0 (length (open_line (s ++ t))))
unfolding count_line line_or
count_line-open s t (some u) st e h k =
    let last : open_line (s ++ t) ≡ u =
      open_line-append s t ∙ ap (λ o. line_or o (open_line s ++ t)) e in
    rw last (refl, refl)
count_line-open s [] none st e h k =
    let last : open_line (s ++ []) ≡ open_line s = ap open_line (append-nil s) in rw last (h, k)
count_line-open s (b ∷ t) none st e h k =
    let last : open_line (s ++ b ∷ t) ≡ open_line s ++ b ∷ t =
      open_line-append s (b ∷ t) ∙ ap (λ o. line_or o (open_line s ++ b ∷ t)) e in
    let size : length (open_line s ++ b ∷ t) ≡ length (open_line s) + length (b ∷ t) =
      length-append (open_line s) (b ∷ t) in
    rw (last, size) (ground arith, ground arith)

count_line-totals :
    {E : Type 0} (o : Option (List ℕ)) (t : List ℕ) (st : ShellCaptureState E)
    → ((count_line o t st).total_bytes ≡ st.total_bytes)
      × ((count_line o t st).completed_lines ≡ st.completed_lines)
unfolding count_line
count_line-totals (some u) t st = (refl, refl)
count_line-totals none [] st = (refl, refl)
count_line-totals none (b ∷ t) st = (refl, refl)

pub count_text-Counted :
    {E : Type 0} (stream text : List ℕ) (st : ShellCaptureState E)
    → Counted stream st
    → Counted (stream ++ text) (count_text text st)
unfolding count_text
count_text-Counted {E = E} stream text st c =
    let counted : ShellCaptureState E = record st {
      total_bytes = st.total_bytes + length text;
      completed_lines = st.completed_lines + count_newlines text;
    } in
    let (last, opened) =
      count_line-open stream text (trailing text) counted refl c.last_line c.is_open in
    let kept = count_line-totals (trailing text) text counted in
    record {
      bytes = kept.0 ∙ omega (arith, c.bytes, length-append stream text);
      newlines = kept.1 ∙ omega (arith, c.newlines, count_newlines-append stream text);
      last_line = last;
      is_open = opened;
    }

pub total_lines-split :
    {E : Type 0} (stream : List ℕ) (st : ShellCaptureState E)
    → Counted stream st
    → total_lines st ≡ length (split_lines_for_counting stream)
unfolding total_lines split_lines_for_counting trailing line_or count_newlines
total_lines-split [] st c =
    let closed : st.has_open_line ≡ false = c.is_open in rw closed c.newlines
total_lines-split (b ∷ s) st c =
    let n : length (split (b ∷ s)) ≡ suc (count_newlines (b ∷ s)) = length-split-newlines (b ∷ s) in
    elim (Bool-cases (has_newline_suffix (b ∷ s))) [
      | inl ends ↦
          let closed : st.has_open_line ≡ false =
            c.is_open ∙ ground (arith, ends, suffix-open b s) in
          rw (ends, closed)
            (omega (arith, n, c.newlines, length-take (length (split (b ∷ s)) - 1) (split (b ∷ s))))
      | inr goes_on ↦
          let opened : st.has_open_line ≡ true =
            c.is_open ∙ ground (arith, goes_on, suffix-open b s) in
          rw (goes_on, opened) (omega (arith, n, c.newlines))
    ]

pub empty-Counted : {E : Type 0} → Counted [] (empty_state {E = E})
unfolding empty_state count_newlines trailing line_or
empty-Counted = record { bytes = refl; newlines = refl; last_line = refl; is_open = refl }

counted_totals : {E : Type 0} → ℕ → ℕ → ShellCaptureState E → ShellCaptureState E
counted_totals bytes lines st = record st {
  total_bytes = st.total_bytes + bytes;
  completed_lines = st.completed_lines + lines;
}

count_line-grows :
    {E : Type 0} (o : Option (List ℕ)) (t : List ℕ) (st : ShellCaptureState E) (n : ℕ)
    → trailing t ≡ o
    → total_lines st ≤ total_lines (count_line o t (counted_totals n (count_newlines t) st))
unfolding count_line total_lines counted_totals
count_line-grows (some u) t st n h = ground (arith, trailing-newline t u h)
count_line-grows none [] st n h = ground arith
count_line-grows none (b ∷ t) st n h = ground arith

-- More text means no fewer lines.
pub count_text-grows :
    {E : Type 0} (text : List ℕ) (st : ShellCaptureState E)
    → total_lines st ≤ total_lines (count_text text st)
unfolding count_text counted_totals total_lines
count_text-grows text st = count_line-grows (trailing text) text st (length text) refl

pub total_bytes-count_text :
    {E : Type 0} (text : List ℕ) (st : ShellCaptureState E)
    → (count_text text st).total_bytes ≡ st.total_bytes + length text
unfolding count_text counted_totals
total_bytes-count_text text st =
    (count_line-totals (trailing text) text
      (counted_totals (length text) (count_newlines text) st)).0

count_line-others :
    {E : Type 0} (o : Option (List ℕ)) (t : List ℕ) (st : ShellCaptureState E)
    → ((count_line o t st).spill_err ≡ st.spill_err)
      × ((count_line o t st).full_output_started ≡ st.full_output_started)
      × ((count_line o t st).full_output_path ≡ st.full_output_path)
unfolding count_line
count_line-others (some u) t st = (refl, refl, refl)
count_line-others none [] st = (refl, refl, refl)
count_line-others none (b ∷ t) st = (refl, refl, refl)

-- What a text does not change, and the tail buffer.
pub count_text-others :
    {E : Type 0} (text : List ℕ) (st : ShellCaptureState E)
    → ((count_text text st).spill_err ≡ st.spill_err)
      × ((count_text text st).full_output_started ≡ st.full_output_started)
      × ((count_text text st).full_output_path ≡ st.full_output_path)
      × ((count_text text st).tail ≡ st.tail ++ text)
unfolding count_text counted_totals
count_text-others text st =
    let (failed, started, path) =
      count_line-others (trailing text) text
        (counted_totals (length text) (count_newlines text) st) in
    (failed, started, path, refl)
