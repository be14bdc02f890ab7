-- ===== src/Edit/Replaced.antt =====
-- Exact edits of a file (ApplyEditsToNormalizedContent, tools/editdiff.go).
use mathlib.Core.List.{Perm}
use resolute_agent_core_go.Prelude.{
  ℕ, suc, Bool, true, false, ◌||◌, List, [], ◌∷◌, none, some, Outcome, ok, err, Outcome-cases, ◌≡◌,
  refl, sym, subst, inl, inr, ltb, Bool-cases, Option-cases, length, map, arith,
}
use resolute_agent_core_go.Edit.Text.{Bytes, bytes_eq, index_of}
use resolute_agent_core_go.Edit.Fuzzy.{
  Unicode, fuzzy_find_text, count_occurrences, normalize_for_fuzzy_match,
}
use resolute_agent_core_go.Edit.Apply.{
  Edit, MatchedEdit, EditError, apply_replacements, sort_matches, any_fuzzy, is_fuzzy, match_edit,
  match_edits, first_overlap, normalize_edits, first_empty, apply_normalized, apply_matches,
  replaced, changed_from, apply_edits_to_normalized_content,
}
use resolute_agent_core_go.Edit.Slices.{Split, index_of-Split, Split-inside, Split-here}
use resolute_agent_core_go.Edit.Woven.{
  Piece, weave, Located, Locates, Ordered, Weaves, weaves, Sorted, sort_matches-Sorted, IsNone,
  first_overlap-Ordered,
}

-- An exact match is located.
IsLocated : Bytes → Edit → Outcome EditError MatchedEdit → Type 0
IsLocated content e (ok r) = Located content r e
IsLocated content e (err x) = Unit

contradiction : (b : Bool) → b ≡ true → b ≡ false → ⊥
contradiction true h k = subst IsTrue k tt
  where
    IsTrue : Bool → Type 0
    IsTrue true = Unit
    IsTrue false = ⊥
contradiction false h k = subst IsFalse h tt
  where
    IsFalse : Bool → Type 0
    IsFalse true = ⊥
    IsFalse false = Unit

or_false : (x y : Bool) → (x || y) ≡ false → (x ≡ false) × (y ≡ false)
or_false true y h = elim (contradiction true refl h) [ ]
or_false false y h = (refl, h)

AreLocated : Bytes → List Edit → Outcome EditError (List MatchedEdit) → Type 0
AreLocated content es (ok rs) = Locates content rs es
AreLocated content es (err x) = Unit

-- A content and what becomes of it where each edit replaces its old text, at places that do not
-- overlap, and nothing else changes.
pub record IsReplaced (content updated : Bytes) (es : List Edit) : Type 0 where
  pub pieces : List Piece
  pub rest : Bytes
  pub same_edits : Perm (map (λ p. p.edit) pieces) es
  pub before : content ≡ weave (λ e. e.old_text) pieces rest
  pub after : updated ≡ weave (λ e. e.new_text) pieces rest

module _ (u : Unicode) where
  exact-Located :
      (content : Bytes) (e : Edit) (i n : ℕ)
      → index_of e.old_text content ≡ some i
      → Located content
          (record {
            edit_index = n;
            match_index = i;
            match_length = length e.old_text;
            new_text = e.new_text;
          })
          e
  exact-Located content e i n found =
      let s : Split e.old_text content i = index_of-Split e.old_text content i found in
      record {
        inside = Split-inside e.old_text content i s;
        here = Split-here e.old_text content i s;
        new_is = refl;
      }

  fuzzy_is :
      (content : Bytes) (e : Edit) (i : ℕ)
      → index_of e.old_text content ≡ none
      → index_of (normalize_for_fuzzy_match u e.old_text) (normalize_for_fuzzy_match u content)
        ≡ some i
      → is_fuzzy (fuzzy_find_text u content e.old_text) ≡ true
  unfolding fuzzy_find_text is_fuzzy
  fuzzy_is content e i missing found = rw (missing, found, fuzzy_find_text) refl

  match_edit-IsLocated :
      (content : Bytes) (e : Edit) (n : ℕ)
      → is_fuzzy (fuzzy_find_text u content e.old_text) ≡ false
      → IsLocated content e (match_edit u content n e)
  unfolding match_edit fuzzy_find_text is_fuzzy IsLocated
  match_edit-IsLocated content e n exact = elim (Option-cases (index_of e.old_text content)) [
    | inr (i, found) ↦ elim (Bool-cases (ltb 1 (count_occurrences u content e.old_text))) [
      | inl many ↦ rw (found, many, match_edit, fuzzy_find_text, IsLocated) tt
      | inr one ↦
          rw (found, one, match_edit, fuzzy_find_text, IsLocated)
            (exact-Located content e i n found)
    ]
    | inl missing ↦
        elim (Option-cases (
          index_of (normalize_for_fuzzy_match u e.old_text)
            (normalize_for_fuzzy_match u content))) [
              | inl nowhere ↦ rw (missing, nowhere, match_edit, fuzzy_find_text, IsLocated) tt
              | inr (i, found) ↦
                  elim (contradiction _ (fuzzy_is content e i missing found) exact) [ ]
            ]
  ]

  match_edits-AreLocated :
      (content : Bytes) (n : ℕ) (es : List Edit)
      → any_fuzzy u content es ≡ false
      → AreLocated content es (match_edits u content n es)
  unfolding match_edits any_fuzzy AreLocated Locates IsLocated
  match_edits-AreLocated content n [] exact = tt
  match_edits-AreLocated content n (e ∷ es) exact =
      let (first, later) = or_false _ _ exact in
      elim (Outcome-cases (match_edit u content n e)) [
        | inr (x, bad) ↦ rw (bad, match_edits, AreLocated) tt
        | inl (r, good) ↦ elim (Outcome-cases (match_edits u content (suc n) es)) [
          | inr (x, bad) ↦ rw (good, bad, match_edits, AreLocated) tt
          | inl (rs, fine) ↦
              rw (good, fine, match_edits, AreLocated)
                (
                  subst (IsLocated content e) good (match_edit-IsLocated content e n first),
                  subst (AreLocated content es) fine
                      (match_edits-AreLocated content (suc n) es later),
                )
        ]
      ]

  all-Ordered : (ms : List MatchedEdit) → IsNone (first_overlap u ms) → Ordered 0 ms
  unfolding Ordered
  all-Ordered [] apart = tt
  all-Ordered (r ∷ rs) apart = first_overlap-Ordered u 0 r rs (omega arith) apart

  woven :
      (content : Bytes) (rs : List MatchedEdit) (es : List Edit)
      → Locates content rs es
      → IsNone (first_overlap u (sort_matches rs))
      → IsReplaced content (apply_replacements content (sort_matches rs) 0) es
  woven content rs es h apart =
      let s : Sorted content (sort_matches rs) es = sort_matches-Sorted content rs es h in
      let w : Weaves content 0 (sort_matches rs) s.order =
        weaves content (sort_matches rs) s.order 0 s.located (all-Ordered (sort_matches rs) apart)
          (omega arith) in
      record {
        pieces = w.pieces;
        rest = w.rest;
        same_edits = subst (λ l. Perm l es) (sym w.edits) s.same_edits;
        before = w.before;
        after = w.after;
      }

  -- The result of the edits: the content as it was and what it becomes, which differs.
  IsResult : Bytes → List Edit → Outcome EditError (Bytes × Bytes) → Type 0
  IsResult content es (ok (base, updated)) =
      (base ≡ content) × (bytes_eq content updated ≡ false) × IsReplaced content updated es
  IsResult content es (err x) = Unit

  changed_from-IsResult :
      (content updated : Bytes) (es : List Edit)
      → IsReplaced content updated es
      → IsResult content es (changed_from u content updated)
  unfolding changed_from IsResult
  changed_from-IsResult content updated es h = elim (Bool-cases (bytes_eq content updated)) [
    | inl same ↦ rw (same, changed_from, IsResult) tt
    | inr changed ↦ rw (changed, changed_from, IsResult) (refl, changed, h)
  ]

  apply_matches-IsResult :
      (content : Bytes) (rs : List MatchedEdit) (es : List Edit)
      → Locates content rs es
      → IsResult content es (apply_matches u false content content (sort_matches rs))
  unfolding apply_matches replaced IsResult IsNone
  apply_matches-IsResult content rs es h = elim (Option-cases (first_overlap u (sort_matches rs))) [
    | inr (pair, overlap) ↦ rw (overlap, apply_matches, IsResult) tt
    | inl apart ↦
        rw (apart, apply_matches, replaced)
          (changed_from-IsResult content _ es (woven content rs es h (subst IsNone (sym apart) tt)))
  ]

  apply_normalized-IsResult :
      (content : Bytes) (es : List Edit)
      → any_fuzzy u content es ≡ false
      → IsResult content es (apply_normalized u content es)
  unfolding apply_normalized IsResult AreLocated
  apply_normalized-IsResult content es exact = elim (Outcome-cases (match_edits u content 0 es)) [
    | inr (x, bad) ↦ rw (exact, bad, apply_normalized, IsResult) tt
    | inl (rs, good) ↦
        rw (exact, good, exact, apply_normalized)
          (apply_matches-IsResult content rs es
            (subst (AreLocated content es) good (match_edits-AreLocated content 0 es exact)))
  ]

  apply_edits-IsResult :
      (content : Bytes) (es : List Edit)
      → any_fuzzy u content (normalize_edits es) ≡ false
      → IsResult content (normalize_edits es) (apply_edits_to_normalized_content u content es)
  unfolding apply_edits_to_normalized_content IsResult
  apply_edits-IsResult content [] exact = tt
  apply_edits-IsResult content (e ∷ es) exact =
      elim (Option-cases (first_empty 0 (normalize_edits (e ∷ es)))) [
        | inr (i, empty) ↦ rw (empty, apply_edits_to_normalized_content, IsResult) tt
        | inl fine ↦
            rw (fine, apply_edits_to_normalized_content)
              (apply_normalized-IsResult content (normalize_edits (e ∷ es)) exact)
      ]

  -- Where no edit needs a fuzzy match and the edits are applied, the base is the content, and the
  -- updated content differs from it just in that each edit's old text, at places that do not overlap,
  -- is its new text, line endings of the edits normalized.
  pub apply_edits_to_normalized_content-IsReplaced :
      (content base updated : Bytes) (es : List Edit)
      → any_fuzzy u content (normalize_edits es) ≡ false
      → apply_edits_to_normalized_content u content es ≡ ok (base, updated)
      → (base ≡ content)
        × (bytes_eq content updated ≡ false)
        × IsReplaced content updated (normalize_edits es)
  unfolding IsResult
  apply_edits_to_normalized_content-IsReplaced content base updated es exact done =
      subst (IsResult content (normalize_edits es)) done (apply_edits-IsResult content es exact)
