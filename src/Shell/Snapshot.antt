-- ===== src/Shell/Snapshot.antt =====
-- What the capture reports, in whatever chunks the output arrives: what TruncateTail makes of all of it.
use resolute_agent_core_go.Prelude.{
  ℕ, ◌+◌, ◌≤◌, ◌<◌, String, Bool, true, false, ◌&&◌, ◌||◌, List, [], ◌++◌, ◌≡◌, refl, sym, ap, ◌∙◌,
  inl, inr, ℤ, pos, leb_ℤ, arith, ltb, length, Bool-cases, append_assoc,
}
use resolute_agent_core_go.Truncate.{
  TruncationResult, Collected, truncate_string_to_bytes_from_end, truncate_tail, resolve_limits,
  cut_tail, limit_of, reverse_onto, partial_line, collect, no_truncation_result,
  split_lines_for_counting, default_max_lines, default_max_bytes,
}
use resolute_agent_core_go.Truncate.Suffix.{IsCut, truncate_string_to_bytes_from_end-IsCut}
use resolute_agent_core_go.Truncate.Ending.{cut_tail-front}
use resolute_agent_core_go.Shell.{
  max_tail_bytes, ShellProgress, ShellCaptureState, is_overflowing, named_limit, default_options,
  snapshot_locked,
}
use resolute_agent_core_go.Shell.Spacing.{Spaced, cut-few}
use resolute_agent_core_go.Shell.Observed.{Observed}
use resolute_agent_core_go.Shell.Counters.{Counted, total_lines-split}

unfoldable pub over_limits : List ℕ → Bool
over_limits stream =
    ltb default_max_bytes (length stream)
    || ltb default_max_lines (length (split_lines_for_counting stream))

pub is_overflowing-over :
    {E : Type 0} (stream : List ℕ) (st : ShellCaptureState E)
    → Counted stream st
    → is_overflowing st ≡ over_limits stream
unfolding is_overflowing over_limits
is_overflowing-over stream st c = rw (c.bytes, total_lines-split stream st c) refl

abbrev whole_tail : List ℕ → TruncationResult
whole_tail stream =
    cut_tail (pos default_max_lines) (pos default_max_bytes) stream
      (split_lines_for_counting stream)

truncate_tail-default : (stream : List ℕ) → truncate_tail stream default_options ≡ whole_tail stream
unfolding truncate_tail resolve_limits
truncate_tail-default stream = refl

-- The tail is cut: its truncation is that of the stream, but for the totals.
tail-cut :
    (stream r : List ℕ)
    → Spaced 0 stream
    → IsCut max_tail_bytes stream r
    → whole_tail stream ≡ record (whole_tail r) {
      total_lines = length (split_lines_for_counting stream);
      total_bytes = length stream;
    }
tail-cut stream r h c =
    let parts : stream ≡ (c.front ++ c.skipped) ++ r =
      c.parts ∙ sym (append_assoc c.front c.skipped r) in
    ap whole_tail parts
    ∙ cut_tail-front default_max_lines 51199 (c.front ++ c.skipped) r
        (omega (arith, cut-few max_tail_bytes stream r h c))
    ∙ ap
        (λ t. record (whole_tail r) {
          total_lines = length (split_lines_for_counting t);
          total_bytes = length t;
        })
        (sym parts)

-- A limit is named, so that the snapshot takes over which.
limit_of-named :
    (ml mb : ℤ) (c : Collected) (n : ℕ) → named_limit true (limit_of ml mb c) n ≡ limit_of ml mb c
unfolding limit_of named_limit
limit_of-named ml mb c n =
    elim (Bool-cases (leb_ℤ ml (pos (length c.lines)) && leb_ℤ (pos c.bytes) mb)) [
      | inl l ↦ rw l refl
      | inr l ↦ elim (Bool-cases c.broke) [ inl b ↦ rw (l, b) refl | inr b ↦ rw (l, b) refl ]
    ]

over-cut :
    (stream : List ℕ) (n : ℕ)
    → over_limits stream ≡ true
    → ((whole_tail stream).truncated ≡ true)
      × (named_limit true (whole_tail stream).truncated_by n ≡ (whole_tail stream).truncated_by)
unfolding over_limits cut_tail
over-cut stream n h =
    let over : (leb_ℤ (pos (length (split_lines_for_counting stream))) (pos default_max_lines)
          && leb_ℤ (pos (length stream)) (pos default_max_bytes))
        ≡ false =
      ground arith in
    let reversed = reverse_onto (split_lines_for_counting stream) [] in
    let c =
      partial_line (pos default_max_bytes) reversed
        (collect (pos default_max_lines) (pos default_max_bytes) reversed 0 0) in
    rw over (refl, limit_of-named (pos default_max_lines) (pos default_max_bytes) c.0 n)

within-whole :
    (stream : List ℕ)
    → over_limits stream ≡ false
    → whole_tail stream
      ≡ no_truncation_result stream
          (length (split_lines_for_counting stream))
          (length stream)
          (pos default_max_lines)
          (pos default_max_bytes)
unfolding over_limits cut_tail
within-whole stream h =
    let within : (leb_ℤ (pos (length (split_lines_for_counting stream))) (pos default_max_lines)
          && leb_ℤ (pos (length stream)) (pos default_max_bytes))
        ≡ true =
      ground arith in
    rw within refl

-- What a snapshot says of a whole stream.
abbrev pub reported : List ℕ → String → ShellProgress
reported stream path = record {
  output = (truncate_tail stream default_options).content;
  truncation = truncate_tail stream default_options;
  full_output_path = path;
}

abbrev with_totals : List ℕ → TruncationResult → TruncationResult
with_totals stream t = record t {
  total_lines = length (split_lines_for_counting stream);
  total_bytes = length stream;
}

-- The tail buffer, whose truncation is the stream's but for the totals, over the limits.
snapshot-over :
    {E : Type 0} (stream : List ℕ) (st : ShellCaptureState E)
    → Counted stream st
    → over_limits stream ≡ true
    → over_limits st.tail ≡ true
    → whole_tail stream ≡ with_totals stream (whole_tail st.tail)
    → snapshot_locked st ≡ reported stream st.full_output_path
unfolding snapshot_locked
snapshot-over stream st c over tail_over same =
    let t : TruncationResult = whole_tail st.tail in
    let (cut, limit) = over-cut st.tail (length stream) tail_over in
    let overflowing : is_overflowing st ≡ true = is_overflowing-over stream st c ∙ over in
    rw
      (
        overflowing,
        truncate_tail-default st.tail,
        truncate_tail-default stream,
        same,
        total_lines-split stream st c,
        c.bytes,
        limit,
        cut,
      )
      refl

snapshot-within :
    {E : Type 0} (stream : List ℕ) (st : ShellCaptureState E)
    → Counted stream st
    → over_limits stream ≡ false
    → st.tail ≡ stream
    → snapshot_locked st ≡ reported stream st.full_output_path
unfolding snapshot_locked no_truncation_result named_limit
snapshot-within stream st c within same =
    let overflowing : is_overflowing st ≡ false = is_overflowing-over stream st c ∙ within in
    rw
      (
        overflowing,
        same,
        truncate_tail-default stream,
        within-whole stream within,
        total_lines-split stream st c,
        c.bytes,
      )
      refl

over-long : (stream : List ℕ) → default_max_bytes < length stream → over_limits stream ≡ true
unfolding over_limits
over-long stream h = ground arith

with_own_totals : (stream : List ℕ) → whole_tail stream ≡ with_totals stream (whole_tail stream)
unfolding cut_tail no_truncation_result
with_own_totals stream =
    elim (Bool-cases (
      leb_ℤ (pos (length (split_lines_for_counting stream))) (pos default_max_lines)
      && leb_ℤ (pos (length stream)) (pos default_max_bytes))) [
        | inl e ↦ rw e refl
        | inr e ↦ rw e refl
      ]

-- What is reported of an observed stream is what TruncateTail makes of it.
pub snapshot-reported :
    {E : Type 0} (stream : List ℕ) (st : ShellCaptureState E)
    → Observed stream st
    → snapshot_locked st ≡ reported stream st.full_output_path
snapshot-reported stream st o =
    elim (truncate_string_to_bytes_from_end-IsCut stream max_tail_bytes) [
      | inl (fits, same) ↦
          let all : st.tail ≡ stream = o.tail ∙ same in
          elim (Bool-cases (over_limits stream)) [
            | inl over ↦
                snapshot-over stream st o.counted over (ap over_limits all ∙ over)
                  (with_own_totals stream ∙ ap (λ t. with_totals stream (whole_tail t)) (sym all))
            | inr within ↦ snapshot-within stream st o.counted within all
          ]
      | inr (long, cut) ↦
          let r : List ℕ = truncate_string_to_bytes_from_end stream (pos max_tail_bytes) in
          let few : max_tail_bytes ≤ length r + 3 = cut-few max_tail_bytes stream r o.spaced cut in
          snapshot-over stream st o.counted (over-long stream (omega arith))
            (ap over_limits o.tail ∙ over-long r (omega arith))
            (tail-cut stream r o.spaced cut
              ∙ ap (λ t. with_totals stream (whole_tail t)) (sym o.tail))
    ]

-- What TruncateTail reports of a text under the default limits.
pub truncate_tail-totals :
    (stream : List ℕ)
    → ((truncate_tail stream default_options).truncated ≡ over_limits stream)
      × ((truncate_tail stream default_options).total_lines
          ≡ length (split_lines_for_counting stream))
unfolding no_truncation_result
truncate_tail-totals stream = rw (truncate_tail-default stream) (
  elim (Bool-cases (over_limits stream)) [
    | inl over ↦ (over-cut stream 0 over).0 ∙ sym over
    | inr within ↦
        ap (λ (t : TruncationResult). t.truncated) (within-whole stream within) ∙ sym within
  ],
  ap (λ (t : TruncationResult). t.total_lines) (with_own_totals stream),
)
