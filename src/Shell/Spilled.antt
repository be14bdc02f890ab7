-- ===== src/Shell/Spilled.antt =====
-- The file that the capture writes where the output exceeds the limits.
use resolute_agent_core_go.Prelude.{
  if-true, if-false, ℕ, ◌+◌, ◌≤◌, String, Bool, true, false, ◌&&◌, not, List, [], ◌++◌, Option,
  none, some, ◌≡◌, refl, sym, ap, ◌∙◌, subst, inl, inr, arith, length, Bool-cases, Outcome, ok, err,
}
use resolute_agent_core_go.Truncate.{split_lines_for_counting}
use resolute_agent_core_go.Truncate.Extended.{truncate-short}
use resolute_agent_core_go.Shell.{
  Bytes, max_tail_bytes, ShellCaptureState, empty_state, ShellEnv, SpillError, writing, appending,
  count_text, is_overflowing, trim, note_write, start_spill, spill, observe_chunk,
}
use resolute_agent_core_go.Shell.Text.{text_of}
use resolute_agent_core_go.Shell.Counters.{
  Counted, count_text-Counted, count_text-grows, total_bytes-count_text, count_text-others,
}
use resolute_agent_core_go.Shell.Observed.{Observed}
use resolute_agent_core_go.Shell.Snapshot.{over_limits, is_overflowing-over}

-- Once over the limits, always over them.
still_overflowing :
    {E : Type 0} (text : List ℕ) (st : ShellCaptureState E)
    → is_overflowing st ≡ true
    → is_overflowing (count_text text st) ≡ true
unfolding is_overflowing
still_overflowing text st h =
    let bytes : (count_text text st).total_bytes ≡ st.total_bytes + length text =
      total_bytes-count_text text st in
    ground (arith, count_text-grows text st)

short : (stream : Bytes) → over_limits stream ≡ false → length stream ≤ max_tail_bytes
unfolding over_limits
short stream h = ground arith

module _ {E W : Type 0} (contents : W → String → Bytes) where
  -- The spill file, by the recorded error and whether it was started.
  unfoldable pub SpillCase : Option (SpillError E) → Bool → String → Bytes → W → Type 0
  SpillCase (some failed) started path stream w = over_limits stream ≡ true
  SpillCase none false path stream w = (over_limits stream ≡ false) × (path ≡ "")
  SpillCase none true path stream w = (over_limits stream ≡ true) × (contents w path ≡ stream)

  abbrev pub Spilled : Bytes → ShellCaptureState E × W → Type 0
  Spilled stream r = SpillCase r.0.spill_err r.0.full_output_started r.0.full_output_path stream r.1

module _ {E W : Type 0} (env : ShellEnv E W) (contents : W → String → Bytes) where
  -- What env.go documents of CreateTemp, whose file is new and empty, and of AppendFile.
  pub record KeepsFiles : Type 0 where
    pub created :
        (name_start name_end path : String) (w : W)
        → (env.create_temp name_start name_end w).0 ≡ ok path
        → contents (env.create_temp name_start name_end w).1 path ≡ []
    pub appended :
        (path : String) (bytes : Bytes) (w : W)
        → (env.append_file path bytes w).0 ≡ none
        → contents (env.append_file path bytes w).1 path ≡ contents w path ++ bytes

  module _ (files : KeepsFiles) where
    -- After a write that completes the file, or fails.
    note_write-Spilled :
        (failed : E → SpillError E) (st : ShellCaptureState E) (stream bytes : Bytes)
        (path : String) (w : W)
        → st.spill_err ≡ none
        → st.full_output_started ≡ true
        → st.full_output_path ≡ path
        → over_limits stream ≡ true
        → contents w path ++ bytes ≡ stream
        → Spilled contents stream (note_write env failed st (env.append_file path bytes w))
    unfolding note_write SpillCase
    note_write-Spilled failed st stream bytes path w clean started at over all =
        by_result (env.append_file path bytes w) (λ h. files.appended path bytes w h ∙ all)
      where
        by_result :
            (r : Option E × W)
            → (r.0 ≡ none → contents r.1 path ≡ stream)
            → Spilled contents stream (note_write env failed st r)
        by_result (some e, w) h = over
        by_result (none, w) h = rw (clean, started, at) (over, h refl)

    start_spill-Spilled :
        (st : ShellCaptureState E) (w : W)
        → st.spill_err ≡ none
        → over_limits st.tail ≡ true
        → Spilled contents st.tail (start_spill env st (env.create_temp "bash-" ".log" w))
    unfolding start_spill SpillCase
    start_spill-Spilled st w clean over =
        by_result (env.create_temp "bash-" ".log" w)
          (λ path h. files.created "bash-" ".log" path w h)
      where
        by_result :
            (r : Outcome E String × W)
            → ((path : String) → r.0 ≡ ok path → contents r.1 path ≡ [])
            → Spilled contents st.tail (start_spill env st r)
        by_result (err e, w) h = over
        by_result (ok path, w) h =
            note_write-Spilled (writing path)
              (record st { full_output_started = true; full_output_path = path }) st.tail st.tail
              path w clean refl refl over (ap (λ l. l ++ st.tail) (h path refl))

    -- A text, on a state whose spill file is right: q is the state with the text counted.
    spill-Spilled :
        (stream text : Bytes) (q : ShellCaptureState E) (failed : Option (SpillError E))
        (started : Bool) (w : W)
        → q.spill_err ≡ failed
        → q.full_output_started ≡ started
        → SpillCase contents failed started q.full_output_path stream w
        → (over_limits stream ≡ false → q.tail ≡ stream ++ text)
        → is_overflowing q ≡ over_limits (stream ++ text)
        → (over_limits stream ≡ true → over_limits (stream ++ text) ≡ true)
        → Spilled contents (stream ++ text) (spill env text q failed w)
    unfolding spill SpillCase
    spill-Spilled stream text q (some failed) started w e s h all over still = rw e (still h)
    spill-Spilled stream text q none false w e s (within, no_path) all over still =
        let P : ShellCaptureState E × W → Type 0 = Spilled contents (stream ++ text) in
        elim (Bool-cases (over_limits (stream ++ text))) [
          | inl now ↦
              if-true P (is_overflowing q && not q.full_output_started) _ _
                (ground (arith, over, now, s))
                (subst
                  (λ t. Spilled contents t (start_spill env q (env.create_temp "bash-" ".log" w)))
                  (all within) (start_spill-Spilled q w e (ap over_limits (all within) ∙ now)))
          | inr not_yet ↦
              if-false P (is_overflowing q && not q.full_output_started) _ _
                (ground (arith, over, not_yet))
                (if-false P q.full_output_started _ _ s (rw (e, s) (not_yet, no_path)))
        ]
    spill-Spilled stream text q none true w e s (already, file) all over still =
        let P : ShellCaptureState E × W → Type 0 = Spilled contents (stream ++ text) in
        if-false P (is_overflowing q && not q.full_output_started) _ _ (ground (arith, s)) (
          if-true P q.full_output_started _ _ s (
            note_write-Spilled (appending q.full_output_path) q (stream ++ text) text
              q.full_output_path w e s refl (still already) (ap (λ l. l ++ text) file)))

    same_case :
        {f g : Option (SpillError E)} {a b : Bool} {p r : String} (stream : Bytes) (w : W)
        → f ≡ g
        → a ≡ b
        → p ≡ r
        → SpillCase contents f a p stream w
        → SpillCase contents g b r stream w
    same_case stream w e i j h = rw (← e, ← i, ← j) h

    pub observe_chunk-Spilled :
        (stream chunk : Bytes) (st : ShellCaptureState E) (w : W)
        → Observed stream st
        → Spilled contents stream (st, w)
        → (let r = observe_chunk env chunk st w in
            Spilled contents (stream ++ text_of chunk) (r.1, r.2))
    unfolding observe_chunk trim
    observe_chunk-Spilled stream chunk st w o h =
        let text = text_of chunk in
        let q = count_text text st in
        let (failed, started, path, tail) = count_text-others text st in
        let c : Counted (stream ++ text) q = count_text-Counted stream text st o.counted in
        let over : is_overflowing q ≡ over_limits (stream ++ text) =
          is_overflowing-over (stream ++ text) q c in
        spill-Spilled stream text q q.spill_err q.full_output_started w refl refl
          (same_case stream w (sym failed) (sym started) (sym path) h)
          (λ within.
            tail
            ∙ ap (λ l. l ++ text)
                (o.tail ∙ truncate-short stream max_tail_bytes (short stream within)))
          over
          (λ already.
            sym over
            ∙ still_overflowing text st (is_overflowing-over stream st o.counted ∙ already))

pub empty-Spilled :
    (E : Type 0) {W : Type 0} (contents : W → String → Bytes) (w : W)
    → Spilled contents [] (empty_state {E = E}, w)
unfolding empty_state SpillCase over_limits split_lines_for_counting
empty-Spilled E contents w = (refl, refl)
