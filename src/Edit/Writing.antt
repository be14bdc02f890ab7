-- ===== src/Edit/Writing.antt =====
-- What runEdit of tools/edit.go leaves in the file.
use resolute_agent_core_go.Prelude.{
  ℕ, String, Bool, true, false, List, ◌++◌, Option, none, some, Outcome, ok, err, Bool-cases, ◌≡◌,
  ◌∙◌, refl, sym, ap, subst, ◌⊎◌, inl, inr, length,
}
use resolute_agent_core_go.Edit.Text.{
  Bytes, detect_line_ending, normalize_to_lf, restore_line_endings, strip_bom, lf, crlf,
}
use resolute_agent_core_go.Edit.Fuzzy.{Unicode}
use resolute_agent_core_go.Edit.Apply.{
  Edit, EditError, normalize_edits, any_fuzzy, apply_edits_to_normalized_content,
}
use resolute_agent_core_go.Edit.LineEndings.{IsNormal, restore_line_endings-normalize_to_lf}
use resolute_agent_core_go.Edit.Replaced.{IsReplaced, apply_edits_to_normalized_content-IsReplaced}
use resolute_agent_core_go.Edit.Tool.{
  FileKind, EditResult, edited, failed, FileEnv, is_editable, access_failed, checked,
  unless_aborted, after_write, write_edited, edit_content, after_read, after_info, run_edit,
}

-- A file system in which the file is not changed by others while it is edited.
pub record IsFileSystem {E W : Type 0} (env : FileEnv E W) (path : String) (contents : W → Bytes)
    : Type 0 where
  pub cancelled_quiet : (w : W) → contents ((env.cancelled w).1) ≡ contents w
  pub info_quiet : (w : W) → contents ((env.file_info path w).1) ≡ contents w
  pub read_ok :
      (w w' : W) (s : Bytes)
      → env.read_file path w ≡ (ok s, w')
      → (s ≡ contents w) × (contents w' ≡ contents w)
  pub write_ok : (s : Bytes) (w w' : W) → env.write_file path s w ≡ (none, w') → contents w' ≡ s

module _ {E W : Type 0} (env : FileEnv E W) (u : Unicode) (path : String) (contents : W → Bytes)
    (fs : IsFileSystem env path contents) (es : List Edit) where
  -- The file after an edit that succeeded, from its content before.
  Written : Bytes → EditResult × W → Type 0
  Written old (failed x, w) = Unit
  Written old (edited n base updated, w) =
      (n ≡ length es)
      × (apply_edits_to_normalized_content u (normalize_to_lf ((strip_bom old).1)) es
          ≡ ok (base, updated))
      × (contents w
          ≡ (strip_bom old).0
            ++ restore_line_endings updated (detect_line_ending ((strip_bom old).1)))

  unless_aborted-Written :
      (old c : Bytes) (next : W → EditResult × W) (w : W)
      → contents w ≡ c
      → ((w' : W) → contents w' ≡ c → Written old (next w'))
      → Written old (unless_aborted env u next w)
  unfolding unless_aborted checked Written
  unless_aborted-Written old c next w same then_so =
      bound (env.cancelled w) (fs.cancelled_quiet w ∙ same)
    where
      bound : (r : Bool × W) → contents (r.1) ≡ c → Written old (checked env u next r)
      bound (true, w') h = tt
      bound (false, w') h = then_so w' h

  after_write-Written :
      (old base updated s : Bytes) (r : Option E × W)
      → s
        ≡ (strip_bom old).0 ++ restore_line_endings updated (detect_line_ending ((strip_bom old).1))
      → apply_edits_to_normalized_content u (normalize_to_lf ((strip_bom old).1)) es
        ≡ ok (base, updated)
      → ((w' : W) → r ≡ (none, w') → contents w' ≡ s)
      → Written old (after_write env u (length es) (base, updated) r)
  unfolding after_write access_failed Written
  after_write-Written old base updated s (some e, w) is_new applied wrote = tt
  after_write-Written old base updated s (none, w) is_new applied wrote =
      unless_aborted-Written old s _ w (wrote w refl) (λ w' h. (refl, applied, h ∙ is_new))

  write_edited-Written :
      (old : Bytes) (o : Outcome EditError (Bytes × Bytes)) (w : W)
      → apply_edits_to_normalized_content u (normalize_to_lf ((strip_bom old).1)) es ≡ o
      → Written old (
          write_edited env u path
            (length es)
            ((strip_bom old).0)
            (detect_line_ending ((strip_bom old).1))
            o
            w)
  unfolding write_edited Written
  write_edited-Written old (err x) w applied = tt
  write_edited-Written old (ok (base, updated)) w applied =
      unless_aborted-Written old (contents w) _ w refl (λ w' h.
        after_write-Written old base updated _ _ refl applied (λ w'' e. fs.write_ok _ w' w'' e))

  after_read-Written :
      (old : Bytes) (r : Outcome E Bytes × W)
      → ((s : Bytes) (w' : W) → r ≡ (ok s, w') → s ≡ old)
      → Written old (after_read env u path es r)
  unfolding after_read access_failed edit_content Written
  after_read-Written old (err e, w) read = tt
  after_read-Written old (ok s, w) read =
      subst
        (λ l.
          Written old (unless_aborted env u (λ w'. edit_content env u path es (strip_bom l) w') w))
        (sym (read s w refl))
        (unless_aborted-Written old (contents w) _ w refl
          (λ w' h. write_edited-Written old _ w' refl))

  after_info-Written :
      (old : Bytes) (r : Outcome E FileKind × W)
      → contents (r.1) ≡ old
      → Written old (after_info env u path es r)
  unfolding after_info access_failed Written
  after_info-Written old (err e, w) same = tt
  after_info-Written old (ok kind, w) same = elim (Bool-cases (is_editable kind)) [
    | inl editable ↦
        rw (editable, after_info)
          (after_read-Written old _ (λ s w' e. (fs.read_ok w w' s e).0 ∙ same))
    | inr other ↦ rw (other, after_info, Written) tt
  ]

  run_edit-Written : (w : W) → Written (contents w) (run_edit env u path es w)
  unfolding run_edit
  run_edit-Written w =
      unless_aborted-Written (contents w) (contents w) _ w refl
        (λ w' h. after_info-Written (contents w) _ (fs.info_quiet w' ∙ h))

  -- Where nobody else changes the file, its newlines are uniform, LF or CRLF, behind a byte-order mark
  -- or none, no edit needs a fuzzy match, and runEdit reports success: the file has the same mark, the
  -- line ending that it had, and the text in which each edit's old text is replaced by its new text and
  -- nothing else is changed.
  pub run_edit-IsReplaced :
      (mark t ending : Bytes) (w w' : W) (n : ℕ) (base updated : Bytes)
      → strip_bom (contents w) ≡ (mark, restore_line_endings t ending)
      → IsNormal t
      → (ending ≡ lf) ⊎ (ending ≡ crlf)
      → any_fuzzy u t (normalize_edits es) ≡ false
      → run_edit env u path es w ≡ (edited n base updated, w')
      → (n ≡ length es)
        × (contents w'
            ≡ mark
              ++ restore_line_endings updated (detect_line_ending (restore_line_endings t ending)))
        × IsReplaced t updated (normalize_edits es)
  unfolding Written
  run_edit-IsReplaced mark t ending w w' n base updated file_is normal uniform exact done =
      let h : Written (contents w) (edited n base updated, w') =
        subst (Written (contents w)) done (run_edit-Written w) in
      let text_is : normalize_to_lf ((strip_bom (contents w)).1) ≡ t =
        ap (λ p. normalize_to_lf (p.1)) file_is
        ∙ (restore_line_endings-normalize_to_lf t ending normal uniform).0 in
      (
        h.0,
        h.2 ∙ ap (λ p. p.0 ++ restore_line_endings updated (detect_line_ending (p.1))) file_is,
        (apply_edits_to_normalized_content-IsReplaced u t base updated es exact (
            subst (λ s. apply_edits_to_normalized_content u s es ≡ ok (base, updated)) text_is
              h.1)).2,
      )
