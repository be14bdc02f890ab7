-- ===== src/Edit/Text.antt =====
-- tools/editdiff.go: the functions on strings it uses, line endings and the byte-order mark.
use resolute_agent_core_go.Prelude.{
  ℕ, zero, suc, ◌-◌, Bool, true, false, ◌&&◌, List, [], ◌∷◌, ◌++◌, Option, none, some, ltb, ◌==◌,
  if◌then◌else◌, length, drop,
}

abbrev pub Bytes : Type 0
Bytes = List ℕ

unfoldable pub bytes_eq : Bytes → Bytes → Bool
bytes_eq [] [] = true
bytes_eq [] (b ∷ s) = false
bytes_eq (a ∷ r) [] = false
bytes_eq (a ∷ r) (b ∷ s) = a == b && bytes_eq r s

-- strings.HasPrefix
unfoldable pub has_prefix : Bytes → Bytes → Bool
has_prefix [] s = true
has_prefix (a ∷ p) [] = false
has_prefix (a ∷ p) (b ∷ s) = a == b && has_prefix p s

-- strings.Index, `none` for -1
unfoldable pub index_of : Bytes → Bytes → Option ℕ
index_of sub [] = if has_prefix sub [] then some 0 else none
index_of sub (b ∷ s) =
    let later = index_of sub s in
    if has_prefix sub (b ∷ s) then some 0 else elim later [ none ↦ none | some i ↦ some (suc i) ]

-- The occurrences of a text that is not empty after the next `skip` bytes, without overlaps.
unfoldable pub count_from : ℕ → Bytes → Bytes → ℕ
count_from skip sub [] = 0
count_from (suc skip) sub (b ∷ s) = count_from skip sub s
count_from zero sub (b ∷ s) =
    let found = count_from (length sub - 1) sub s in
    let others = count_from 0 sub s in if has_prefix sub (b ∷ s) then suc found else others

-- strings.ReplaceAll of a text that is not empty, the first `skip` bytes left out.
unfoldable pub replace_from : ℕ → Bytes → Bytes → Bytes → Bytes
replace_from skip old new [] = []
replace_from (suc skip) old new (b ∷ s) = replace_from skip old new s
replace_from zero old new (b ∷ s) =
    let replaced = replace_from (length old - 1) old new s in
    let others = replace_from 0 old new s in
    if has_prefix old (b ∷ s) then new ++ replaced else b ∷ others

abbrev pub replace_all : Bytes → Bytes → Bytes → Bytes
replace_all old new s = replace_from 0 old new s

abbrev pub lf : Bytes
lf = 10 ∷ []

abbrev pub cr : Bytes
cr = 13 ∷ []

abbrev pub crlf : Bytes
crlf = 13 ∷ 10 ∷ []

unfoldable pub detect_line_ending : Bytes → Bytes
detect_line_ending content = elim (index_of lf content) [
  | none ↦ lf
  | some l ↦ elim (index_of crlf content) [ none ↦ lf | some c ↦ if ltb c l then crlf else lf ]
]

unfoldable pub normalize_to_lf : Bytes → Bytes
normalize_to_lf text = replace_all cr lf (replace_all crlf lf text)

unfoldable pub restore_line_endings : Bytes → Bytes → Bytes
restore_line_endings text ending = if bytes_eq ending crlf then replace_all lf crlf text else text

abbrev pub bom : Bytes
bom = 239 ∷ 187 ∷ 191 ∷ []

-- The mark, or nothing, and the text behind it.
unfoldable pub strip_bom : Bytes → Bytes × Bytes
strip_bom content =
    if has_prefix bom content then (bom, drop (length bom) content) else ([], content)
