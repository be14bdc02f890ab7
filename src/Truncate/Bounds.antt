-- ===== src/Truncate/Bounds.antt =====
-- What TruncateHead, TruncateTail and truncateStringToBytesFromEnd return.
use resolute_agent_core_go.Prelude.{
  ℕ, suc, ◌≤◌, ◌<◌, true, false, ◌&&◌, List, [], ◌∷◌, some, ◌≡◌, refl, sym, subst, ap, ◌∙◌, ◌⊎◌,
  inl, inr, pos, leb_ℤ, arith, length, take, Bool-cases, length-take,
}
use resolute_agent_core_go.Truncate.{
  TruncationResult, TruncationOptions, Collected, resolve_limits, split_lines_for_counting,
  no_truncation_result, collect, join, cut_head, truncate_head,
}
use resolute_agent_core_go.Truncate.Lines.{size_from, length-join, no_lines}
use resolute_agent_core_go.Truncate.Loop.{Takes, collect-Takes}

-- The whole content, within the limits.
pub record IsWhole (ml mb : ℕ) (content : List ℕ) (r : TruncationResult) : Type 0 where
  pub unchanged : r.content ≡ content
  pub lines_fit : length (split_lines_for_counting content) ≤ ml
  pub bytes_fit : length content ≤ mb

-- Content beyond one of the limits.
abbrev pub IsOver : ℕ → ℕ → List ℕ → Type 0
IsOver ml mb content = (ml < length (split_lines_for_counting content)) ⊎ (mb < length content)

-- The first k lines of content beyond the limits, as many as these allow: one more is too many lines or
-- too many bytes.
pub record IsLongestHead (ml mb : ℕ) (content : List ℕ) (r : TruncationResult) : Type 0 where
  pub beyond : IsOver ml mb content
  pub first_lines : r.content ≡ join (take r.output_lines (split_lines_for_counting content))
  pub bytes_reported : r.output_bytes ≡ length r.content
  pub lines_fit : r.output_lines ≤ ml
  pub bytes_fit : length r.content ≤ mb
  pub no_more :
      r.output_lines < length (split_lines_for_counting content)
      → (ml ≤ r.output_lines)
        ⊎ (mb < length (join (take (suc r.output_lines) (split_lines_for_counting content))))

join_nil : (ls : List (List ℕ)) → join (take 0 ls) ≡ []
unfolding join
join_nil [] = refl
join_nil (l ∷ ls) = refl

join_first : (l : List ℕ) (ls : List (List ℕ)) → join (take 1 (l ∷ ls)) ≡ l
unfolding join
join_first l [] = refl
join_first l (k ∷ ls) = refl

taken_length :
    {ml mb k : ℕ} {ls : List (List ℕ)} {c : Collected} → Takes ml mb ls 0 0 k c → length c.lines ≡ k
taken_length {k = k} {ls = ls} t = ap length t.taken ∙ length-take k ls ∙ omega (arith, t.within)

-- Every result but the panic.
HeadCase : ℕ → ℕ → List ℕ → TruncationResult → Type 0
HeadCase ml mb content r =
    ((r.truncated ≡ false) × IsWhole ml mb content r)
    ⊎ ((r.truncated ≡ true) × IsLongestHead ml mb content r)

head_lines :
    (ml mb k : ℕ) (content : List ℕ) (c : Collected) (r : TruncationResult)
    → IsOver ml mb content
    → Takes ml mb (split_lines_for_counting content) 0 0 k c
    → r.content ≡ join c.lines
    → r.output_lines ≡ length c.lines
    → r.output_bytes ≡ length (join c.lines)
    → IsLongestHead ml mb content r
head_lines ml mb k content c r beyond t content_is lines_are bytes_are =
    let ls = split_lines_for_counting content in
    let n : r.output_lines ≡ k = lines_are ∙ taken_length t in
    let size = length-join (take k ls) in
    let more = length-join (take (suc k) ls) in
    let bytes : length r.content ≡ size_from 0 (take k ls) =
      ap length (content_is ∙ ap join t.taken) ∙ size in
    let NoMore : ℕ → Type 0 =
      λ m. m < length ls → (ml ≤ m) ⊎ (mb < length (join (take (suc m) ls))) in
    record {
      beyond = beyond;
      first_lines = content_is ∙ ap join (t.taken ∙ ap (λ m. take m ls) (sym n));
      bytes_reported = bytes_are ∙ ap length (sym content_is);
      lines_fit = omega (arith, t.lines_fit (omega arith));
      bytes_fit = omega (arith, bytes, t.bytes_fit (omega arith));
      no_more = subst NoMore (sym n) (λ h. ground (arith, more, t.no_more h));
    }

head_nothing :
    (ml mb : ℕ) (content : List ℕ) (l : List ℕ) (ls : List (List ℕ)) (r : TruncationResult)
    → IsOver ml mb content
    → split_lines_for_counting content ≡ l ∷ ls
    → mb < length l
    → r.content ≡ []
    → r.output_lines ≡ 0
    → r.output_bytes ≡ 0
    → IsLongestHead ml mb content r
head_nothing ml mb content l ls r beyond lines_are over content_is no_lines no_bytes =
    let NoMore : ℕ → List (List ℕ) → Type 0 =
      λ m lines. m < length lines → (ml ≤ m) ⊎ (mb < length (join (take (suc m) lines))) in
    record {
      beyond = beyond;
      first_lines =
          content_is
          ∙ sym (join_nil (split_lines_for_counting content))
          ∙ ap (λ m. join (take m (split_lines_for_counting content))) (sym no_lines);
      bytes_reported = no_bytes ∙ ap length (sym content_is);
      lines_fit = omega arith;
      bytes_fit = omega (arith, ap length content_is);
      no_more =
          subst (λ m. NoMore m (split_lines_for_counting content)) (sym no_lines)
            (subst (NoMore 0) (sym lines_are)
              (λ h. inr (omega (arith, over, ap length (join_first l ls)))));
    }

cut_head-longest :
    (content : List ℕ) (ml mb : ℕ) (lines : List (List ℕ))
    → split_lines_for_counting content ≡ lines
    → (length lines ≡ 0 → length content ≡ 0)
    → (r : TruncationResult) × (cut_head (pos ml) (pos mb) content lines ≡ some r)
      × (((r.truncated ≡ false) × IsWhole ml mb content r)
          ⊎ ((r.truncated ≡ true) × IsLongestHead ml mb content r))
unfolding cut_head no_truncation_result
cut_head-longest content ml mb [] e none_is =
    let whole : (leb_ℤ (pos 0) (pos ml) && leb_ℤ (pos (length content)) (pos mb)) ≡ true =
      ground (arith, none_is refl) in
    rw whole (
      _,
      refl,
      inl (
        refl,
        record {
          unchanged = refl;
          lines_fit = ground (arith, ap length e);
          bytes_fit = ground (arith, none_is refl);
        },
      ),
    )
cut_head-longest content ml mb (l ∷ ls) e none_is =
    let n : length (split_lines_for_counting content) ≡ suc (length ls) = ap length e in
    let (k, t) = collect-Takes ml mb (l ∷ ls) 0 0 in
    let t' =
      subst (λ lines. Takes ml mb lines 0 0 k (collect (pos ml) (pos mb) (l ∷ ls) 0 0)) (sym e) t in
    elim (Bool-cases
      (leb_ℤ (pos (suc (length ls))) (pos ml) && leb_ℤ (pos (length content)) (pos mb))) [
        | inl whole ↦ rw whole (
          _,
          refl,
          inl (
            refl,
            record { unchanged = refl; lines_fit = ground arith; bytes_fit = ground arith },
          ),
        )
        | inr cut ↦
            let beyond : IsOver ml mb content = ground arith in
            elim (Bool-cases (leb_ℤ (pos (length l)) (pos mb))) [
              | inl fits ↦
                  rw (cut, fits)
                    (_, refl, inr (refl, head_lines ml mb k content _ _ beyond t' refl refl refl))
              | inr over ↦
                  rw (cut, over)
                    (
                      _,
                      refl,
                      inr (
                        refl,
                        head_nothing ml mb content l ls _ beyond e (ground arith) refl refl refl,
                      ),
                    )
            ]
      ]

-- Under limits that are not negative truncate_head does not panic: it returns the content unchanged,
-- where the content is within both limits, and, where it is beyond one of them, as many of the first
-- lines as fit, with their bytes.
pub truncate_head-longest :
    (content : List ℕ) (opts : TruncationOptions) (ml mb : ℕ)
    → resolve_limits opts ≡ (pos ml, pos mb)
    → (r : TruncationResult) × (truncate_head content opts ≡ some r)
      × (((r.truncated ≡ false) × IsWhole ml mb content r)
          ⊎ ((r.truncated ≡ true) × IsLongestHead ml mb content r))
unfolding truncate_head
truncate_head-longest content opts ml mb limits =
    subst
      (λ l.
        (r : TruncationResult) × (cut_head l.0 l.1 content (split_lines_for_counting content)
          ≡ some r)
        × (((r.truncated ≡ false) × IsWhole ml mb content r)
            ⊎ ((r.truncated ≡ true) × IsLongestHead ml mb content r)))
      (sym limits) (cut_head-longest content ml mb _ refl (no_lines content))
