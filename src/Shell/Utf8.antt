-- ===== src/Shell/Utf8.antt =====
-- UTF-8 as the standard library reads and writes it: utf8.DecodeRuneInString, utf8.AppendRune and
-- strings.Map, which tools/shell_output.go calls. A string is the list of its bytes.
use resolute_agent_core_go.Prelude.{
  ℕ, zero, suc, ◌+◌, ◌-◌, ◌*◌, ◌/◌, ◌%◌, Bool, ◌&&◌, ◌||◌, List, [], ◌∷◌, ◌++◌, Option, none, some,
  if◌then◌else◌, leb, ltb, ◌==◌,
}

abbrev pub rune_error : ℕ
rune_error = 65533

-- The rune of one byte that no encoding begins with, and its width.
abbrev pub invalid : ℕ × ℕ
invalid = (rune_error, 1)

abbrev pub between : ℕ → ℕ → ℕ → Bool
between lo hi b = leb lo b && leb b hi

two_bytes : ℕ → List ℕ → ℕ × ℕ
two_bytes a (b ∷ s) = if between 128 191 b then (64 * (a - 192) + (b - 128), 2) else invalid
two_bytes a [] = invalid

three_bytes : ℕ → List ℕ → ℕ × ℕ
three_bytes a (b ∷ c ∷ s) =
    if between (if a == 224 then 160 else 128) (if a == 237 then 159 else 191) b
      && between 128 191 c
    then (4096 * (a - 224) + 64 * (b - 128) + (c - 128), 3)
    else invalid
three_bytes a (b ∷ []) = invalid
three_bytes a [] = invalid

four_bytes : ℕ → List ℕ → ℕ × ℕ
four_bytes a (b ∷ c ∷ d ∷ s) =
    if between (if a == 240 then 144 else 128) (if a == 244 then 143 else 191) b
      && between 128 191 c
      && between 128 191 d
    then (262144 * (a - 240) + 4096 * (b - 128) + 64 * (c - 128) + (d - 128), 4)
    else invalid
four_bytes a (b ∷ c ∷ []) = invalid
four_bytes a (b ∷ []) = invalid
four_bytes a [] = invalid

-- The rune that begins with the byte `a`, before the bytes s, and its width.
unfoldable pub decode_rune : ℕ → List ℕ → ℕ × ℕ
unfolding two_bytes three_bytes four_bytes
decode_rune a s =
    if ltb a 128
    then (a, 1)
    else if between 194 223 a
    then two_bytes a s
    else if between 224 239 a
    then three_bytes a s
    else if between 240 244 a
    then four_bytes a s
    else invalid

unfoldable pub append_rune : ℕ → List ℕ
append_rune r =
    if ltb r 128
    then r ∷ []
    else if ltb r 2048
    then (192 + r / 64) ∷ (128 + r % 64) ∷ []
    else if between 55296 57343 r || ltb 1114111 r
    then 239 ∷ 191 ∷ 189 ∷ []
    else if ltb r 65536
    then (224 + r / 4096) ∷ (128 + r / 64 % 64) ∷ (128 + r % 64) ∷ []
    else (240 + r / 262144) ∷ (128 + r / 4096 % 64) ∷ (128 + r / 64 % 64) ∷ (128 + r % 64) ∷ []

-- What strings.Map writes for one rune; `none` drops it.
unfoldable pub written : Option ℕ → List ℕ
unfolding append_rune
written none = []
written (some r) = append_rune r

-- The loop of strings.Map: `skip` bytes are left of the last rune.
unfoldable pub map_from : (ℕ → Option ℕ) → ℕ → List ℕ → List ℕ
unfolding decode_rune written
map_from f skip [] = []
map_from f (suc skip) (b ∷ s) = map_from f skip s
map_from f zero (b ∷ s) =
    let (r, width) = decode_rune b s in written (f r) ++ map_from f (width - 1) s

unfoldable pub map_runes : (ℕ → Option ℕ) → List ℕ → List ℕ
unfolding map_from
map_runes f s = map_from f 0 s
