-- ===== src/Edit/Apply.antt =====
-- tools/editdiff.go: ApplyEditsToNormalizedContent and the replacements it makes.
use resolute_agent_core_go.Prelude.{
  ℕ, suc, ◌+◌, ◌-◌, Bool, true, false, ◌&&◌, ◌||◌, List, [], ◌∷◌, ◌++◌, Option, none, some, Outcome,
  ok, err, ltb, leb, ◌==◌, if◌then◌else◌, length, take, drop, get_elem?,
}
use resolute_agent_core_go.Edit.Text.{Bytes, bytes_eq, normalize_to_lf}
use resolute_agent_core_go.Edit.Fuzzy.{
  Unicode, FuzzyMatchResult, normalize_for_fuzzy_match, fuzzy_find_text, count_occurrences,
}

pub record Edit : Type 0 where
  pub old_text : Bytes
  pub new_text : Bytes

pub record MatchedEdit : Type 0 where
  pub edit_index : ℕ
  pub match_index : ℕ
  pub match_length : ℕ
  pub new_text : Bytes

-- The errors, with the numbers that their messages give.
pub data EditError : Type 0 where
  no_edits no_change outside_base different_line_count : EditError
  empty_old_text not_found : ℕ → EditError
  duplicate : ℕ → ℕ → EditError
  overlapping : ℕ → ℕ → EditError

-- splitLinesWithEndings: the lines with their newlines.
unfoldable pub put_first_byte : ℕ → List Bytes → List Bytes
put_first_byte b [] = (b ∷ []) ∷ []
put_first_byte b (l ∷ ls) = (b ∷ l) ∷ ls

unfoldable pub split_lines_with_endings : Bytes → List Bytes
split_lines_with_endings [] = []
split_lines_with_endings (b ∷ s) =
    let lines = split_lines_with_endings s in
    if b == 10 then (b ∷ []) ∷ lines else put_first_byte b lines

pub record LineSpan : Type 0 where
  pub start : ℕ
  pub end : ℕ

unfoldable pub spans_from : ℕ → List Bytes → List LineSpan
spans_from offset [] = []
spans_from offset (l ∷ ls) =
    record { start = offset; end = offset + length l } ∷ spans_from (offset + length l) ls

unfoldable pub get_line_spans : Bytes → List LineSpan
get_line_spans content = spans_from 0 (split_lines_with_endings content)

-- The index of the line that holds an offset, from index `i` on.
unfoldable pub line_at : ℕ → ℕ → List LineSpan → Option ℕ
line_at i offset [] = none
line_at i offset (l ∷ ls) =
    let later = line_at (suc i) offset ls in
    if leb l.start offset && ltb offset l.end then some i else later

-- The index of the first line from `i` on that does not end before an offset.
unfoldable pub line_until : ℕ → ℕ → List LineSpan → Option ℕ
line_until i offset [] = none
line_until i offset (l ∷ ls) =
    let later = line_until (suc i) offset ls in if ltb l.end offset then later else some i

unfoldable pub get_replacement_line_range : List LineSpan → MatchedEdit → Outcome EditError (ℕ × ℕ)
get_replacement_line_range lines r = elim (line_at 0 r.match_index lines) [
  | none ↦ err outside_base
  | some first ↦ elim (line_until first (r.match_index + r.match_length) (drop first lines)) [
    | none ↦ err outside_base
    | some last ↦ ok (first, last + 1)
  ]
]

-- applyReplacements, from the last replacement to the first
unfoldable pub apply_replacements : Bytes → List MatchedEdit → ℕ → Bytes
apply_replacements content [] offset = content
apply_replacements content (r ∷ rs) offset =
    let result = apply_replacements content rs offset in
    take (r.match_index - offset) result
    ++ r.new_text
    ++ drop (r.match_index - offset + r.match_length) result

-- sort.SliceStable by the index of the match
unfoldable pub insert_match : MatchedEdit → List MatchedEdit → List MatchedEdit
insert_match r [] = r ∷ []
insert_match r (s ∷ ss) =
    let rest = insert_match r ss in if leb r.match_index s.match_index then r ∷ s ∷ ss else s ∷ rest

unfoldable pub sort_matches : List MatchedEdit → List MatchedEdit
sort_matches [] = []
sort_matches (r ∷ rs) = insert_match r (sort_matches rs)

pub record ReplacementGroup : Type 0 where
  pub start_line : ℕ
  pub end_line : ℕ
  pub replacements : List MatchedEdit

-- The replacement joins a group whose lines it touches, or begins another. The groups are in order,
-- the last one apart.
unfoldable pub group_from :
    List LineSpan → ReplacementGroup → List MatchedEdit → Outcome EditError (List ReplacementGroup)
group_from lines g [] = ok (g ∷ [])
group_from lines g (r ∷ rs) = elim (get_replacement_line_range lines r) [
  | err e ↦ err e
  | ok (start, end) ↦ elim (ltb start g.end_line) [
    | true ↦
        group_from lines
          (record g {
            end_line = if ltb g.end_line end then end else g.end_line;
            replacements = g.replacements ++ r ∷ [];
          })
          rs
    | false ↦
        elim (group_from lines
          (record { start_line = start; end_line = end; replacements = r ∷ [] }) rs) [
            | err e ↦ err e
            | ok groups ↦ ok (g ∷ groups)
          ]
  ]
]

unfoldable pub groups_of :
    List LineSpan → List MatchedEdit → Outcome EditError (List ReplacementGroup)
groups_of lines [] = ok []
groups_of lines (r ∷ rs) = elim (get_replacement_line_range lines r) [
  | err e ↦ err e
  | ok (start, end) ↦
      group_from lines (record { start_line = start; end_line = end; replacements = r ∷ [] }) rs
]

unfoldable pub concat_lines : List Bytes → Bytes
concat_lines [] = []
concat_lines (l ∷ ls) = l ++ concat_lines ls

unfoldable pub start_of : List LineSpan → ℕ → ℕ
start_of lines i = elim (get_elem? lines i) [ none ↦ 0 | some l ↦ l.start ]

unfoldable pub end_of : List LineSpan → ℕ → ℕ
end_of lines i = elim (get_elem? lines i) [ none ↦ 0 | some l ↦ l.end ]

-- The lines between the groups are the original's, from line `at` on.
unfoldable pub write_groups : List Bytes → List LineSpan → Bytes → ℕ → List ReplacementGroup → Bytes
write_groups originals lines base at [] = concat_lines (drop at originals)
write_groups originals lines base at (g ∷ gs) =
    let start = start_of lines g.start_line in
    let end = end_of lines (g.end_line - 1) in
    concat_lines (take (g.start_line - at) (drop at originals))
    ++ apply_replacements (take (end - start) (drop start base)) g.replacements start
    ++ write_groups originals lines base g.end_line gs

unfoldable pub apply_replacements_preserving_unchanged_lines :
    Bytes → Bytes → List MatchedEdit → Outcome EditError Bytes
apply_replacements_preserving_unchanged_lines original base replacements =
    let originals : List Bytes = split_lines_with_endings original in
    let lines : List LineSpan = get_line_spans base in
    if length originals == length lines
    then elim (groups_of lines (sort_matches replacements)) [
      | err e ↦ err e
      | ok groups ↦ ok (write_groups originals lines base 0 groups)
    ]
    else err different_line_count

unfoldable pub normalize_edits : List Edit → List Edit
normalize_edits [] = []
normalize_edits (e ∷ es) =
    record { old_text = normalize_to_lf e.old_text; new_text = normalize_to_lf e.new_text }
    ∷ normalize_edits es

unfoldable pub first_empty : ℕ → List Edit → Option ℕ
first_empty i [] = none
first_empty i (e ∷ es) =
    let later = first_empty (suc i) es in if length e.old_text == 0 then some i else later

unfoldable pub is_fuzzy : Option FuzzyMatchResult → Bool
is_fuzzy none = false
is_fuzzy (some r) = r.used_fuzzy_match

module _ (u : Unicode) where
  unfoldable pub any_fuzzy : Bytes → List Edit → Bool
  any_fuzzy content [] = false
  any_fuzzy content (e ∷ es) =
      is_fuzzy (fuzzy_find_text u content e.old_text) || any_fuzzy content es

  unfoldable pub match_edit : Bytes → ℕ → Edit → Outcome EditError MatchedEdit
  match_edit base i e = elim (fuzzy_find_text u base e.old_text) [
    | none ↦ err (not_found i)
    | some r ↦
        let n = count_occurrences u base e.old_text in
        if ltb 1 n
        then err (duplicate i n)
        else ok (record {
          edit_index = i;
          match_index = r.index;
          match_length = r.match_length;
          new_text = e.new_text;
        })
  ]

  unfoldable pub match_edits : Bytes → ℕ → List Edit → Outcome EditError (List MatchedEdit)
  match_edits base i [] = ok []
  match_edits base i (e ∷ es) = elim (match_edit base i e) [
    | err x ↦ err x
    | ok r ↦ elim (match_edits base (suc i) es) [ err x ↦ err x | ok rs ↦ ok (r ∷ rs) ]
  ]

  -- The first two neighbours that overlap.
  unfoldable pub first_overlap : List MatchedEdit → Option (ℕ × ℕ)
  first_overlap [] = none
  first_overlap (r ∷ []) = none
  first_overlap (r ∷ s ∷ rs) =
      let later = first_overlap (s ∷ rs) in
      if ltb s.match_index (r.match_index + r.match_length)
      then some (r.edit_index, s.edit_index)
      else later

  unfoldable pub replaced : Bool → Bytes → Bytes → List MatchedEdit → Outcome EditError Bytes
  replaced true content base matched =
      apply_replacements_preserving_unchanged_lines content base matched
  replaced false content base matched = ok (apply_replacements base matched 0)

  unfoldable pub changed_from : Bytes → Bytes → Outcome EditError (Bytes × Bytes)
  changed_from content updated =
      if bytes_eq content updated then err no_change else ok (content, updated)

  unfoldable pub apply_matches :
      Bool → Bytes → Bytes → List MatchedEdit → Outcome EditError (Bytes × Bytes)
  apply_matches fuzzy content base matched = elim (first_overlap matched) [
    | some (i, j) ↦ err (overlapping i j)
    | none ↦ elim (replaced fuzzy content base matched) [
      | err e ↦ err e
      | ok updated ↦ changed_from content updated
    ]
  ]

  unfoldable pub apply_normalized : Bytes → List Edit → Outcome EditError (Bytes × Bytes)
  apply_normalized content es =
      let fuzzy : Bool = any_fuzzy content es in
      let base : Bytes = if fuzzy then normalize_for_fuzzy_match u content else content in
      elim (match_edits base 0 es) [
        | err e ↦ err e
        | ok matched ↦ apply_matches fuzzy content base (sort_matches matched)
      ]

  -- The content that the edits were applied to, and what it becomes.
  unfoldable pub apply_edits_to_normalized_content :
      Bytes → List Edit → Outcome EditError (Bytes × Bytes)
  apply_edits_to_normalized_content content [] = err no_edits
  apply_edits_to_normalized_content content (e ∷ es) =
      elim (first_empty 0 (normalize_edits (e ∷ es))) [
        | some i ↦ err (empty_old_text i)
        | none ↦ apply_normalized content (normalize_edits (e ∷ es))
      ]
