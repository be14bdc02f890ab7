-- ===== src/Shell/Text.antt =====
-- The text of a chunk in tools/shell_output.go, and what its counters look for in it.
use resolute_agent_core_go.Prelude.{
  ℕ, suc, ◌&&◌, ◌||◌, List, [], ◌∷◌, Option, none, some, if◌then◌else◌, leb, ◌==◌,
}
use resolute_agent_core_go.Truncate.{newline}
use resolute_agent_core_go.Shell.Utf8.{map_runes}

unfoldable pub sanitized_rune : ℕ → Option ℕ
sanitized_rune r =
    if r == 9 || r == 10 || r == 13
    then some r
    else if leb r 31
    then none
    else if leb 65529 r && leb r 65531
    then none
    else some r

unfoldable pub sanitize_binary_output : List ℕ → List ℕ
unfolding map_runes sanitized_rune
sanitize_binary_output s = map_runes sanitized_rune s

-- strings.ReplaceAll(text, "\r", "")
unfoldable pub without_returns : List ℕ → List ℕ
without_returns [] = []
without_returns (b ∷ s) = let rest = without_returns s in if b == 13 then rest else b ∷ rest

unfoldable pub text_of : List ℕ → List ℕ
unfolding sanitize_binary_output without_returns
text_of chunk = without_returns (sanitize_binary_output chunk)

-- strings.Count(text, "\n")
unfoldable pub count_newlines : List ℕ → ℕ
count_newlines [] = 0
count_newlines (b ∷ s) = let n = count_newlines s in if b == newline then suc n else n

unfoldable pub trailing_behind : ℕ → List ℕ → Option (List ℕ) → Option (List ℕ)
trailing_behind b s (some t) = some t
trailing_behind b s none = if b == newline then some s else none

-- What follows the last newline, if there is one.
unfoldable pub trailing : List ℕ → Option (List ℕ)
unfolding trailing_behind
trailing [] = none
trailing (b ∷ s) = trailing_behind b s (trailing s)
