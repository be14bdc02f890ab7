-- ===== src/Examples/Edits.antt =====
-- Edits of a small file.
use resolute_agent_core_go.Prelude.{
  true, false, List, [], ◌∷◌, ok, ◌≡◌, refl, inr, length, sym, ap, ◌++◌, Outcome, err, none, ℕ,
}
use resolute_agent_core_go.Truncate.{split, join, put_first}
use resolute_agent_core_go.Edit.Text.{
  Bytes, crlf, bytes_eq, has_prefix, index_of, count_from, replace_from, detect_line_ending,
  normalize_to_lf, restore_line_endings, strip_bom, bom,
}
use resolute_agent_core_go.Edit.Fuzzy.{
  Unicode, code_at, replace_class, normalize_for_fuzzy_match, fuzzy_find_text, find_text, count,
  count_occurrences,
}
use resolute_agent_core_go.Edit.Apply.{
  Edit, put_first_byte, split_lines_with_endings, spans_from, get_line_spans, line_at, line_until,
  get_replacement_line_range, apply_replacements, insert_match, sort_matches, group_from, groups_of,
  concat_lines, start_of, end_of, write_groups, apply_replacements_preserving_unchanged_lines,
  normalize_edits, first_empty, is_fuzzy, any_fuzzy, match_edit, match_edits, first_overlap,
  replaced, changed_from, apply_matches, apply_normalized, apply_edits_to_normalized_content,
}
use resolute_agent_core_go.Edit.Tool.{
  file, edited, FileEnv, is_editable, file_error_code, access_failed, checked, unless_aborted,
  after_write, write_edited, edit_content, after_read, after_info, run_edit,
}
use resolute_agent_core_go.Edit.Writing.{IsFileSystem, run_edit-IsReplaced}
use resolute_agent_core_go.Edit.LineEndings.{restore_line_endings-normalize_to_lf}
use resolute_agent_core_go.Edit.Replaced.{IsReplaced, apply_edits_to_normalized_content-IsReplaced}

-- Plain text, of which the Unicode packages change nothing.
abbrev plain : Unicode
plain = record { nfkc = λ s. s; trim_right = λ s. s; rune_count = length }

-- "ab\ncd\n"
abbrev content : Bytes
content = 97 ∷ 98 ∷ 10 ∷ 99 ∷ 100 ∷ 10 ∷ []

-- The later text is edited first: "d" becomes "D", and "ab" becomes "" .
abbrev edits : List Edit
edits =
    record { old_text = 100 ∷ []; new_text = 68 ∷ [] }
    ∷ record { old_text = 97 ∷ 98 ∷ []; new_text = [] }
    ∷ []

abbrev updated : Bytes
updated = 10 ∷ 99 ∷ 68 ∷ 10 ∷ []

are_exact : any_fuzzy plain content (normalize_edits edits) ≡ false
unfolding bytes_eq has_prefix index_of count_from replace_from detect_line_ending normalize_to_lf
    restore_line_endings strip_bom code_at replace_class normalize_for_fuzzy_match fuzzy_find_text
    find_text count count_occurrences put_first_byte split_lines_with_endings spans_from
    get_line_spans line_at line_until get_replacement_line_range apply_replacements insert_match
    sort_matches group_from groups_of concat_lines start_of end_of write_groups
    apply_replacements_preserving_unchanged_lines normalize_edits first_empty is_fuzzy any_fuzzy
    match_edit match_edits first_overlap replaced changed_from apply_matches apply_normalized
    apply_edits_to_normalized_content split join put_first
are_exact = refl

applied : apply_edits_to_normalized_content plain content edits ≡ ok (content, updated)
unfolding bytes_eq has_prefix index_of count_from replace_from detect_line_ending normalize_to_lf
    restore_line_endings strip_bom code_at replace_class normalize_for_fuzzy_match fuzzy_find_text
    find_text count count_occurrences put_first_byte split_lines_with_endings spans_from
    get_line_spans line_at line_until get_replacement_line_range apply_replacements insert_match
    sort_matches group_from groups_of concat_lines start_of end_of write_groups
    apply_replacements_preserving_unchanged_lines normalize_edits first_empty is_fuzzy any_fuzzy
    match_edit match_edits first_overlap replaced changed_from apply_matches apply_normalized
    apply_edits_to_normalized_content split join put_first
applied = refl

apply_edits_to_normalized_content-IsReplaced_example :
    (content ≡ content)
    × (bytes_eq content updated ≡ false)
    × IsReplaced content updated (normalize_edits edits)
apply_edits_to_normalized_content-IsReplaced_example =
    apply_edits_to_normalized_content-IsReplaced plain content content updated edits are_exact
      applied

restore_line_endings-normalize_to_lf_example :
    (normalize_to_lf (restore_line_endings content crlf) ≡ content)
    × (restore_line_endings content (detect_line_ending (restore_line_endings content crlf))
        ≡ restore_line_endings content crlf)
restore_line_endings-normalize_to_lf_example =
    restore_line_endings-normalize_to_lf content crlf
      (refl, (refl, (refl, (refl, (refl, (refl, tt)))))) (inr refl)

-- The file is the world, with a byte-order mark and CRLF.
abbrev disk : FileEnv Bytes Bytes
disk = record {
  cancelled = λ w. (false, w);
  file_info = λ path w. (ok file, w);
  read_file = λ path w. (ok w, w);
  write_file = λ path s w. (none, s);
  is_not_exist = λ e. true;
  is_permission = λ e. false;
  is_not_directory = λ e. false;
  is_is_directory = λ e. false;
}

abbrev disk_file : Bytes
disk_file = bom ++ (97 ∷ 98 ∷ 13 ∷ 10 ∷ 99 ∷ 100 ∷ 13 ∷ 10 ∷ [])

abbrev new_file : Bytes
new_file = bom ++ (13 ∷ 10 ∷ 99 ∷ 68 ∷ 13 ∷ 10 ∷ [])

abbrev read_bytes : Outcome Bytes Bytes × Bytes → Bytes
read_bytes (ok s, w) = s
read_bytes (err e, w) = e

disk-IsFileSystem : IsFileSystem disk "f" (λ w. w)
disk-IsFileSystem = record {
  cancelled_quiet = λ w. refl;
  info_quiet = λ w. refl;
  read_ok = λ w w' s e. (sym (ap read_bytes e), sym (ap (λ r. r.1) e));
  write_ok = λ s w w' e. sym (ap (λ r. r.1) e);
}

is_split : strip_bom disk_file ≡ (bom, restore_line_endings content crlf)
unfolding bytes_eq has_prefix index_of count_from replace_from detect_line_ending normalize_to_lf
    restore_line_endings strip_bom code_at replace_class normalize_for_fuzzy_match fuzzy_find_text
    find_text count count_occurrences put_first_byte split_lines_with_endings spans_from
    get_line_spans line_at line_until get_replacement_line_range apply_replacements insert_match
    sort_matches group_from groups_of concat_lines start_of end_of write_groups
    apply_replacements_preserving_unchanged_lines normalize_edits first_empty is_fuzzy any_fuzzy
    match_edit match_edits first_overlap replaced changed_from apply_matches apply_normalized
    apply_edits_to_normalized_content split join put_first
is_split = refl

ran : run_edit disk plain "f" edits disk_file ≡ (edited 2 content updated, new_file)
unfolding bytes_eq has_prefix index_of count_from replace_from detect_line_ending normalize_to_lf
    restore_line_endings strip_bom code_at replace_class normalize_for_fuzzy_match fuzzy_find_text
    find_text count count_occurrences put_first_byte split_lines_with_endings spans_from
    get_line_spans line_at line_until get_replacement_line_range apply_replacements insert_match
    sort_matches group_from groups_of concat_lines start_of end_of write_groups
    apply_replacements_preserving_unchanged_lines normalize_edits first_empty is_fuzzy any_fuzzy
    match_edit match_edits first_overlap replaced changed_from apply_matches apply_normalized
    apply_edits_to_normalized_content split join put_first is_editable file_error_code access_failed
    checked unless_aborted after_write write_edited edit_content after_read after_info run_edit
ran = refl

run_edit-IsReplaced_example :
    ◌≡◌ {A = ℕ} 2 (length edits)
    × (new_file
        ≡ bom
          ++ restore_line_endings updated (detect_line_ending (restore_line_endings content crlf)))
    × IsReplaced content updated (normalize_edits edits)
run_edit-IsReplaced_example =
    run_edit-IsReplaced disk plain "f" (λ w. w) disk-IsFileSystem edits bom content crlf disk_file
      new_file 2 content updated is_split (refl, (refl, (refl, (refl, (refl, (refl, tt))))))
      (inr refl) are_exact ran
