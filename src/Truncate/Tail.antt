-- ===== src/Truncate/Tail.antt =====
-- What TruncateTail returns.
use resolute_agent_core_go.Prelude.{
  ℕ, suc, ◌+◌, ◌-◌, ◌≤◌, ◌<◌, Bool, true, false, ◌&&◌, List, [], ◌∷◌, ◌++◌, ◌≡◌, refl, sym, subst,
  ap, ◌∙◌, ◌⊎◌, inl, inr, pos, leb_ℤ, arith, length, take, drop, Bool-cases, length-take,
}
use resolute_agent_core_go.Truncate.{
  TruncationResult, TruncationOptions, Collected, resolve_limits, split_lines_for_counting,
  no_truncation_result, collect, join, truncate_string_to_bytes_from_end, partial_line,
  reverse_onto, cut_tail, truncate_tail,
}
use resolute_agent_core_go.Truncate.Lines.{size_from}
use resolute_agent_core_go.Truncate.Loop.{Takes, collect-Takes}
use resolute_agent_core_go.Truncate.Bounds.{IsWhole, IsOver}
use resolute_agent_core_go.Truncate.Reversed.{
  reverse_onto-take, reverse_onto-nil, reverse_onto-twice, length-join-reverse_onto,
  length-reverse_onto,
}

-- The last k lines, as many as the limits allow: one more is too many lines or too many bytes.
pub record IsLongestTail (ml mb : ℕ) (lines : List (List ℕ)) (r : TruncationResult) : Type 0 where
  pub last_lines : r.content ≡ join (drop (length lines - r.output_lines) lines)
  pub enough : r.output_lines ≤ length lines
  pub bytes_reported : r.output_bytes ≡ length r.content
  pub lines_fit : r.output_lines ≤ ml
  pub bytes_fit : length r.content ≤ mb
  pub no_more :
      r.output_lines < length lines
      → (ml ≤ r.output_lines)
        ⊎ (mb < length (join (drop (length lines - suc r.output_lines) lines)))

-- The end of the last line, where that line alone is too long.
pub record IsPartialLine (mb : ℕ) (lines : List (List ℕ)) (r : TruncationResult) : Type 0 where
  pub front : List (List ℕ)
  pub line : List ℕ
  pub parts : lines ≡ front ++ line ∷ []
  pub too_long : mb < length line
  pub cut : r.content ≡ truncate_string_to_bytes_from_end line (pos mb)
  pub one_line : r.output_lines ≡ 1

-- What TruncateTail's edge case makes of what its loop collected: nothing, or the end of a line.
abbrev CutLine : ℕ → List (List ℕ) → Collected → Type 0
CutLine mb ls c =
    (line : List ℕ) × (more : List (List ℕ)) × (ls ≡ line ∷ more)
    × (c.lines ≡ [])
    × (c.broke ≡ true)
    × ((partial_line (pos mb) ls c).0.lines ≡ truncate_string_to_bytes_from_end line (pos mb) ∷ [])
    × ((partial_line (pos mb) ls c).1 ≡ true)

partial_line-cases :
    (mb : ℕ) (ls : List (List ℕ)) (c : Collected)
    → (partial_line (pos mb) ls c ≡ (c, false)) ⊎ CutLine mb ls c
unfolding partial_line
partial_line-cases mb [] c = inl refl
partial_line-cases mb (line ∷ more) c = by_fields c.lines c.bytes c.broke
  where
    by_fields :
        (taken : List (List ℕ)) (bytes : ℕ) (broke : Bool)
        → (partial_line
              (pos mb)
              (line ∷ more)
              (record { lines = taken; bytes = bytes; broke = broke })
            ≡ ((record { lines = taken; bytes = bytes; broke = broke }), false))
          ⊎ CutLine mb (line ∷ more) (record { lines = taken; bytes = bytes; broke = broke })
    by_fields [] bytes true = inr (line, more, refl, refl, refl, refl, refl)
    by_fields [] bytes false = inl refl
    by_fields (l ∷ ls) bytes broke = inl refl

-- The lines of TruncateTail's output, of the k that its loop took.
tail_lines :
    (ml mb k : ℕ) (lines : List (List ℕ)) (c : Collected) (r : TruncationResult)
    → Takes ml mb (reverse_onto lines []) 0 0 k c
    → r.content ≡ join (reverse_onto c.lines [])
    → r.output_lines ≡ length (reverse_onto c.lines [])
    → r.output_bytes ≡ length (join (reverse_onto c.lines []))
    → IsLongestTail ml mb lines r
tail_lines ml mb k lines c r t content_is lines_are bytes_are =
    let reversed = reverse_onto lines [] in
    let all : length reversed ≡ length lines = omega (arith, length-reverse_onto lines []) in
    let within : k ≤ length lines = omega (arith, t.within) in
    let n : r.output_lines ≡ k =
      omega (arith, length-reverse_onto c.lines [], ap length t.taken, length-take k reversed) in
    let last : reverse_onto c.lines [] ≡ drop (length lines - k) lines =
      ap (λ l. reverse_onto l []) t.taken ∙ reverse_onto-take k lines within in
    let bytes : length r.content ≡ size_from 0 (take k reversed) =
      ap length content_is ∙ length-join-reverse_onto c.lines ∙ ap (size_from 0) t.taken in
    let NoMore : ℕ → Type 0 =
      λ m. m < length lines → (ml ≤ m) ⊎ (mb < length (join (drop (length lines - suc m) lines))) in
    let more : (h : k < length lines)
        → length (join (drop (length lines - suc k) lines)) ≡ size_from 0 (take (suc k) reversed) =
      λ h.
        ap (λ l. length (join l)) (sym (reverse_onto-take (suc k) lines h))
        ∙ length-join-reverse_onto (take (suc k) reversed) in
    record {
      last_lines = content_is ∙ ap join (last ∙ ap (λ m. drop (length lines - m) lines) (sym n));
      enough = omega arith;
      bytes_reported = bytes_are ∙ ap length (sym content_is);
      lines_fit = omega (arith, t.lines_fit (omega arith));
      bytes_fit = omega (arith, bytes, t.bytes_fit (omega arith));
      no_more = subst NoMore (sym n) (λ h. ground (arith, more h, t.no_more (omega arith)));
    }

first_size :
    (line : List ℕ) (more : List (List ℕ)) → size_from 0 (take 1 (line ∷ more)) ≡ length line
first_size line [] = omega arith
first_size line (l ∷ ls) = omega arith

cut_line :
    (ml mb k : ℕ) (lines : List (List ℕ)) (c : Collected) (r : TruncationResult)
    → Takes ml mb (reverse_onto lines []) 0 0 k c
    → (cut : CutLine mb (reverse_onto lines []) c)
    → r.content ≡ join (reverse_onto (partial_line (pos mb) (reverse_onto lines []) c).0.lines [])
    → r.output_lines
      ≡ length (reverse_onto (partial_line (pos mb) (reverse_onto lines []) c).0.lines [])
    → IsPartialLine mb lines r
unfolding reverse_onto join
cut_line ml mb k lines c r t (line, more, reversed, nothing, broke, output, _) content_is
      lines_are =
    let none_taken : k ≡ 0 =
      omega (
        arith,
        length-take k (reverse_onto lines []),
        ap length (sym t.taken ∙ nothing),
        t.within,
      ) in
    let over : mb < 0 + size_from 0 (take (suc k) (reverse_onto lines [])) =
      (t.broke_off broke).1 in
    let first : size_from 0 (take (suc k) (reverse_onto lines [])) ≡ length line =
      rw (none_taken, reversed) (first_size line more) in
    record {
      front = reverse_onto more [];
      line = line;
      parts =
          sym (reverse_onto-twice lines [])
          ∙ ap (λ l. reverse_onto l []) reversed
          ∙ reverse_onto-nil more (line ∷ []);
      too_long = omega (arith, over, first);
      cut = content_is ∙ ap (λ l. join (reverse_onto l [])) output;
      one_line = lines_are ∙ ap (λ l. length (reverse_onto l [])) output;
    }

-- What TruncateTail may return.
abbrev pub TailCase : ℕ → ℕ → List ℕ → TruncationResult → Type 0
TailCase ml mb content r =
    ((r.truncated ≡ false) × IsWhole ml mb content r)
    ⊎ ((r.truncated ≡ true)
        × IsOver ml mb content
        × (((r.last_line_partial ≡ false)
              × IsLongestTail ml mb (split_lines_for_counting content) r)
            ⊎ ((r.last_line_partial ≡ true)
                × IsPartialLine mb (split_lines_for_counting content) r)))

cut_tail-TailCase :
    (content : List ℕ) (ml mb : ℕ)
    → TailCase ml mb content (cut_tail (pos ml) (pos mb) content (split_lines_for_counting content))
unfolding cut_tail no_truncation_result
cut_tail-TailCase content ml mb =
    let lines = split_lines_for_counting content in
    let reversed = reverse_onto lines [] in
    let c = collect (pos ml) (pos mb) reversed 0 0 in
    let (k, t) = collect-Takes ml mb reversed 0 0 in
    elim (Bool-cases
      (leb_ℤ (pos (length lines)) (pos ml) && leb_ℤ (pos (length content)) (pos mb))) [
        | inl whole ↦ rw whole (
            inl (
              refl,
              record { unchanged = refl; lines_fit = ground arith; bytes_fit = ground arith },
            ))
        | inr over ↦
            let beyond : IsOver ml mb content = ground arith in
            elim (partial_line-cases mb reversed c) [
              | inl as_collected ↦
                  rw (over, as_collected)
                    (inr (refl, beyond, inl (refl, tail_lines ml mb k lines c _ t refl refl refl)))
              | inr cut ↦
                  let (_, _, _, _, _, _, marked) = cut in
                  rw over
                    (inr (refl, beyond, inr (marked, cut_line ml mb k lines c _ t cut refl refl)))
            ]
      ]

-- Under limits that are not negative truncate_tail returns the content unchanged, where it is within
-- both limits, and, where it is beyond one of them, as many of the last lines as fit, or the end of the
-- last line, if that line alone has too many bytes.
pub truncate_tail-longest :
    (content : List ℕ) (opts : TruncationOptions) (ml mb : ℕ)
    → resolve_limits opts ≡ (pos ml, pos mb)
    → TailCase ml mb content (truncate_tail content opts)
unfolding truncate_tail
truncate_tail-longest content opts ml mb limits =
    subst
      (λ l. TailCase ml mb content (cut_tail l.0 l.1 content (split_lines_for_counting content)))
      (sym limits) (cut_tail-TailCase content ml mb)
