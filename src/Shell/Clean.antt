-- ===== src/Shell/Clean.antt =====
-- sanitizeBinaryOutput of tools/shell_output.go and the removal of carriage returns: which bytes are left.
use resolute_agent_core_go.Prelude.{
  ℕ, zero, suc, ◌-◌, ◌≤◌, true, false, ◌&&◌, ◌||◌, List, [], ◌∷◌, Option, none, some, ◌≡◌, ◌⊎◌, inl,
  inr, arith, leb, ltb, ◌==◌, Bool-cases, All, All-append,
}
use resolute_agent_core_go.Shell.Utf8.{
  append_rune, written, decode_rune, map_from, map_runes, between,
}
use resolute_agent_core_go.Shell.Spacing.{Spaced, text_of-Spaced}
use resolute_agent_core_go.Shell.Text.{
  without_returns, sanitize_binary_output, sanitized_rune, text_of,
}

-- A tab, a newline, or no control character.
abbrev pub IsPrintable : ℕ → Type 0
IsPrintable b = (b ≡ 9) ⊎ ((b ≡ 10) ⊎ (32 ≤ b))

-- ... or a carriage return.
abbrev IsAllowed : ℕ → Type 0
IsAllowed b = (b ≡ 13) ⊎ IsPrintable b

append_rune-IsAllowed : (r : ℕ) → IsAllowed r → All IsAllowed (append_rune r)
unfolding append_rune
append_rune-IsAllowed r h = elim (Bool-cases (ltb r 128)) [
  | inl ascii ↦ rw ascii (h, tt)
  | inr above ↦ elim (Bool-cases (ltb r 2048)) [
    | inl two ↦ rw (above, two) (high _ (omega arith), (high _ (omega arith), tt))
    | inr above2 ↦ elim (Bool-cases (between 55296 57343 r || ltb 1114111 r)) [
      | inl bad ↦
          rw (above, above2, bad)
            (high 239 (omega arith), (high 191 (omega arith), (high 189 (omega arith), tt)))
      | inr good ↦ elim (Bool-cases (ltb r 65536)) [
        | inl three ↦
            rw (above, above2, good, three)
              (high _ (omega arith), (high _ (omega arith), (high _ (omega arith), tt)))
        | inr four ↦
            rw (above, above2, good, four)
              (
                high _ (omega arith),
                (high _ (omega arith), (high _ (omega arith), (high _ (omega arith), tt))),
              )
      ]
    ]
  ]
]
  where
    high : (b : ℕ) → 32 ≤ b → IsAllowed b
    high b h = inr (inr (inr h))

-- What strings.Map writes for a rune is allowed.
abbrev Writes : Option ℕ → Type 0
Writes none = Unit
Writes (some r) = IsAllowed r

sanitized_rune-Writes : (r : ℕ) → Writes (sanitized_rune r)
unfolding sanitized_rune
sanitized_rune-Writes r = elim (Bool-cases (r == 9 || r == 10 || r == 13)) [
  | inl space ↦ rw space (ground arith)
  | inr other ↦ elim (Bool-cases (leb r 31)) [
    | inl control ↦ rw (other, control) tt
    | inr high ↦ elim (Bool-cases (leb 65529 r && leb r 65531)) [
      | inl mark ↦ rw (other, high, mark) tt
      | inr plain ↦ rw (other, high, plain) (inr (inr (inr (ground arith))))
    ]
  ]
]

written-IsAllowed : (o : Option ℕ) → Writes o → All IsAllowed (written o)
unfolding written
written-IsAllowed none h = tt
written-IsAllowed (some r) h = append_rune-IsAllowed r h

map_from-IsAllowed : (skip : ℕ) (s : List ℕ) → All IsAllowed (map_from sanitized_rune skip s)
unfolding map_from
map_from-IsAllowed zero [] = tt
map_from-IsAllowed (suc skip) [] = tt
map_from-IsAllowed (suc skip) (b ∷ s) = map_from-IsAllowed skip s
map_from-IsAllowed zero (b ∷ s) =
    let (r, width) = decode_rune b s in
    All-append IsAllowed (written (sanitized_rune r)) (map_from sanitized_rune (width - 1) s)
      (written-IsAllowed (sanitized_rune r) (sanitized_rune-Writes r))
      (map_from-IsAllowed (width - 1) s)

without_returns-All : (s : List ℕ) → All IsAllowed s → All IsPrintable (without_returns s)
unfolding without_returns
without_returns-All [] h = tt
without_returns-All (b ∷ s) (inl r, hs) =
    let is : (b == 13) ≡ true = ground arith in rw is (without_returns-All s hs)
without_returns-All (b ∷ s) (inr p, hs) =
    let is_not : (b == 13) ≡ false = ground arith in rw is_not (p, without_returns-All s hs)

-- Of the control characters below the space the tab and the newline only; and bytes that may continue
-- a character only behind one that begins it, at most three.
abbrev pub IsClean : List ℕ → Type 0
IsClean s = All IsPrintable s × Spaced 0 s

-- Whatever bytes a chunk has, its text begins with a byte that begins a character, if with any, at most
-- three bytes lie behind such a byte and before the next, and of the control characters below the
-- space it has the tab and the newline only.
pub text_of-IsClean : (chunk : List ℕ) → IsClean (text_of chunk)
unfolding text_of sanitize_binary_output map_runes
text_of-IsClean chunk = (
  without_returns-All (map_from sanitized_rune 0 chunk) (map_from-IsAllowed 0 chunk),
  text_of-Spaced chunk,
)
