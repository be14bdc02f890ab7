-- ===== src/Edit/Fuzzy.antt =====
-- tools/editdiff.go: finding a text, exactly or in a normalized form.
use resolute_agent_core_go.Prelude.{
  ℕ, zero, suc, ◌+◌, ◌-◌, Bool, true, false, List, [], ◌∷◌, ◌++◌, Option, none, some, if◌then◌else◌,
  length, map,
}
use resolute_agent_core_go.Truncate.{split, join}
use resolute_agent_core_go.Edit.Text.{Bytes, has_prefix, index_of, count_from}

-- What the code takes from the Unicode packages: NFKC, TrimRightFunc with IsSpace on a line, and the
-- number of code points.
pub record Unicode : Type 0 where
  pub nfkc : Bytes → Bytes
  pub trim_right : Bytes → Bytes
  pub rune_count : Bytes → ℕ

-- The length of the first code that a text begins with.
unfoldable pub code_at : List Bytes → Bytes → Option ℕ
code_at [] s = none
code_at (c ∷ cs) s = if has_prefix c s then some (length c) else code_at cs s

-- ReplaceAllString of a class of code points, given by their encodings.
unfoldable pub replace_class : ℕ → List Bytes → Bytes → Bytes → Bytes
replace_class skip codes new [] = []
replace_class (suc skip) codes new (b ∷ s) = replace_class skip codes new s
replace_class zero codes new (b ∷ s) =
    let others = replace_class 0 codes new s in
    elim (code_at codes (b ∷ s)) [
      | none ↦ b ∷ others
      | some n ↦ new ++ replace_class (n - 1) codes new s
    ]

-- The encoding of a code point of the block that begins at U+2000.
abbrev general : ℕ → Bytes
general n = 226 ∷ 128 ∷ n ∷ []

abbrev pub smart_single_quotes : List Bytes
smart_single_quotes = map general (152 ∷ 153 ∷ 154 ∷ 155 ∷ [])

abbrev pub smart_double_quotes : List Bytes
smart_double_quotes = map general (156 ∷ 157 ∷ 158 ∷ 159 ∷ [])

abbrev pub dashes : List Bytes
dashes = map general (144 ∷ 145 ∷ 146 ∷ 147 ∷ 148 ∷ 149 ∷ []) ++ (226 ∷ 136 ∷ 146 ∷ []) ∷ []

abbrev pub spaces : List Bytes
spaces =
    (194 ∷ 160 ∷ []) ∷ map general (130 ∷ 131 ∷ 132 ∷ 133 ∷ 134 ∷ 135 ∷ 136 ∷ 137 ∷ 138 ∷ 175 ∷ [])
    ++ (226 ∷ 129 ∷ 159 ∷ []) ∷ (227 ∷ 128 ∷ 128 ∷ []) ∷ []

unfoldable pub normalize_for_fuzzy_match : Unicode → Bytes → Bytes
normalize_for_fuzzy_match u text =
    let trimmed : Bytes = join (map u.trim_right (split (u.nfkc text))) in
    let single : Bytes = replace_class 0 smart_single_quotes (39 ∷ []) trimmed in
    let double : Bytes = replace_class 0 smart_double_quotes (34 ∷ []) single in
    replace_class 0 spaces (32 ∷ []) (replace_class 0 dashes (45 ∷ []) double)

pub record FuzzyMatchResult : Type 0 where
  pub index : ℕ
  pub match_length : ℕ
  pub used_fuzzy_match : Bool
  pub content_for_replacement : Bytes

abbrev exact_match : Bytes → Bytes → ℕ → FuzzyMatchResult
exact_match content old i = record {
  index = i;
  match_length = length old;
  used_fuzzy_match = false;
  content_for_replacement = content;
}

abbrev fuzzy_match : Bytes → Bytes → ℕ → FuzzyMatchResult
fuzzy_match content old i = record (exact_match content old i) { used_fuzzy_match = true }

-- fuzzyFindText, `none` where nothing is found
unfoldable pub fuzzy_find_text : Unicode → Bytes → Bytes → Option FuzzyMatchResult
fuzzy_find_text u content old = elim (index_of old content) [
  | some i ↦ some (exact_match content old i)
  | none ↦ elim (index_of (normalize_for_fuzzy_match u old) (normalize_for_fuzzy_match u content)) [
    | none ↦ none
    | some i ↦
        some (fuzzy_match (normalize_for_fuzzy_match u content) (normalize_for_fuzzy_match u old) i)
  ]
]

-- FuzzyFindText
unfoldable pub find_text : Unicode → Bytes → Bytes → Option (ℕ × ℕ)
find_text u content old = elim (fuzzy_find_text u content old) [
  | none ↦ none
  | some r ↦ some (r.index, r.index + r.match_length)
]

-- strings.Count: an empty text occurs before each code point and at the end.
unfoldable pub count : Unicode → Bytes → Bytes → ℕ
count u s [] = u.rune_count s + 1
count u s (b ∷ sub) = count_from 0 (b ∷ sub) s

unfoldable pub count_occurrences : Unicode → Bytes → Bytes → ℕ
count_occurrences u content old =
    count u (normalize_for_fuzzy_match u content) (normalize_for_fuzzy_match u old)
