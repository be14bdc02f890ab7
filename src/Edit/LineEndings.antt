-- ===== src/Edit/LineEndings.antt =====
-- The line endings of a file that is edited (tools/editdiff.go): they are normalized for the edit and
-- restored after it.
use resolute_agent_core_go.Prelude.{
  ℕ, suc, true, false, [], ◌∷◌, none, some, ◌≡◌, ◌∙◌, refl, sym, ap, subst, ◌⊎◌, inl, inr, All,
  lt→ltb, ◌==◌, ==_iff, Bool-cases, Option-cases, arith,
}
use resolute_agent_core_go.Edit.Text.{
  Bytes, bytes_eq, has_prefix, index_of, replace_from, replace_all, lf, cr, crlf,
  detect_line_ending, normalize_to_lf, restore_line_endings,
}

-- A text without carriage returns.
abbrev pub IsNormal : Bytes → Type 0
IsNormal t = All (λ b. (13 == b) ≡ false) t

module _ where
  replace_cr : (t : Bytes) → IsNormal t → replace_all cr lf t ≡ t
  unfolding replace_from has_prefix
  replace_cr [] h = refl
  replace_cr (b ∷ t) (h, hs) = rw (h, replace_from, has_prefix) (ap (λ s. b ∷ s) (replace_cr t hs))

  replace_crlf : (t : Bytes) → IsNormal t → replace_all crlf lf t ≡ t
  unfolding replace_from has_prefix
  replace_crlf [] h = refl
  replace_crlf (b ∷ t) (h, hs) =
      rw (h, replace_from, has_prefix) (ap (λ s. b ∷ s) (replace_crlf t hs))

  contract : (t : Bytes) → IsNormal t → replace_all crlf lf (replace_all lf crlf t) ≡ t
  unfolding replace_from has_prefix
  contract [] h = refl
  contract (b ∷ t) (h, hs) = elim (Bool-cases (10 == b)) [
    | inl newline ↦
        rw (newline, replace_from, has_prefix)
          (ap (λ s. 10 ∷ s) (contract t hs) ∙ ap (λ c. c ∷ t) ((==_iff 10 b).0 newline))
    | inr other ↦ rw (other, h, replace_from, has_prefix) (ap (λ s. b ∷ s) (contract t hs))
  ]

  -- Where the newlines of an expanded text are found.
  Found : Bytes → Bytes → Type 0
  Found t x =
      ((index_of crlf x ≡ none) × (x ≡ t))
      ⊎ ((i : ℕ) × (index_of crlf x ≡ some i) × (index_of lf x ≡ some (suc i)))

  shifted :
      (b : ℕ) (t x : Bytes)
      → (13 == b) ≡ false
      → (10 == b) ≡ false
      → Found t x
      → Found (b ∷ t) (b ∷ x)
  unfolding Found has_prefix index_of
  shifted b t x h other (inl (missing, same)) =
      inl (rw (h, missing, has_prefix, index_of) refl, ap (λ s. b ∷ s) same)
  shifted b t x h other (inr (i, c, l)) =
      inr (suc i, rw (h, c, has_prefix, index_of) refl, rw (other, l, has_prefix, index_of) refl)

  expand_newline :
      (b : ℕ) (t : Bytes)
      → (10 == b) ≡ true
      → replace_all lf crlf (b ∷ t) ≡ 13 ∷ 10 ∷ replace_all lf crlf t
  unfolding replace_from has_prefix
  expand_newline b t newline = rw (newline, replace_from, has_prefix) refl

  expand_other :
      (b : ℕ) (t : Bytes)
      → (10 == b) ≡ false
      → replace_all lf crlf (b ∷ t) ≡ b ∷ replace_all lf crlf t
  unfolding replace_from has_prefix
  expand_other b t other = rw (other, replace_from, has_prefix) refl

  crlf_first : (t x : Bytes) → Found t (13 ∷ 10 ∷ x)
  unfolding Found index_of has_prefix
  crlf_first t x = inr (0, refl, refl)

  expand-Found : (t : Bytes) → IsNormal t → Found t (replace_all lf crlf t)
  unfolding Found replace_from has_prefix index_of
  expand-Found [] h = inl (refl, refl)
  expand-Found (b ∷ t) (h, hs) = elim (Bool-cases (10 == b)) [
    | inl newline ↦ subst (Found (b ∷ t)) (sym (expand_newline b t newline)) (crlf_first (b ∷ t) _)
    | inr other ↦
        subst (Found (b ∷ t)) (sym (expand_other b t other))
          (shifted b t _ h other (expand-Found t hs))
  ]

  no_crlf : (t : Bytes) → IsNormal t → index_of crlf t ≡ none
  unfolding index_of has_prefix
  no_crlf [] h = refl
  no_crlf (b ∷ t) (h, hs) = rw (h, index_of, has_prefix) (rw (no_crlf t hs) refl)

  normalize_normal : (t : Bytes) → IsNormal t → normalize_to_lf t ≡ t
  unfolding normalize_to_lf
  normalize_normal t h = ap (replace_all cr lf) (replace_crlf t h) ∙ replace_cr t h

  normalize_expanded : (t : Bytes) → IsNormal t → normalize_to_lf (replace_all lf crlf t) ≡ t
  unfolding normalize_to_lf
  normalize_expanded t h = ap (replace_all cr lf) (contract t h) ∙ replace_cr t h

  detect_normal : (t : Bytes) → IsNormal t → detect_line_ending t ≡ lf
  unfolding detect_line_ending
  detect_normal t h = elim (Option-cases (index_of lf t)) [
    | inl missing ↦ rw (missing, detect_line_ending) refl
    | inr (l, found) ↦ rw (found, no_crlf t h, detect_line_ending) refl
  ]

  restore_expanded :
      (t x : Bytes)
      → IsNormal t
      → x ≡ replace_all lf crlf t
      → Found t x
      → restore_line_endings t (detect_line_ending x) ≡ x
  unfolding Found detect_line_ending restore_line_endings bytes_eq
  restore_expanded t x h e (inl (missing, same)) =
      subst (λ y. restore_line_endings t (detect_line_ending y) ≡ y) (sym same)
        (rw (detect_normal t h) refl)
  restore_expanded t x h e (inr (i, c, l)) =
      rw (l, c, detect_line_ending, lt→ltb i (suc i) (omega arith)) (sym e)

-- A file whose newlines are uniform, as its text without carriage returns is written with one of the
-- two line endings: normalizing gives the text, and restoring the line ending that was detected in the
-- file gives the file.
pub restore_line_endings-normalize_to_lf :
    (t : Bytes) (ending : Bytes)
    → IsNormal t
    → (ending ≡ lf) ⊎ (ending ≡ crlf)
    → (normalize_to_lf (restore_line_endings t ending) ≡ t)
      × (restore_line_endings t (detect_line_ending (restore_line_endings t ending))
          ≡ restore_line_endings t ending)
unfolding restore_line_endings bytes_eq
restore_line_endings-normalize_to_lf t ending h (inl is_lf) =
    rw (is_lf) (normalize_normal t h, rw (detect_normal t h) refl)
restore_line_endings-normalize_to_lf t ending h (inr is_crlf) =
    rw (is_crlf) (normalize_expanded t h, restore_expanded t _ h refl (expand-Found t h))
