-- ===== src/Shell/Spacing.antt =====
-- The characters of a sanitized text: where the bytes that continue a character stand.
use resolute_agent_core_go.Prelude.{
  ℕ, zero, suc, ◌+◌, ◌-◌, ◌/◌, ◌≤◌, ◌<◌, true, false, ◌||◌, List, [], ◌∷◌, ◌++◌, Option, none, some,
  ◌≡◌, refl, ap, subst, ◌⊎◌, inl, inr, arith, ltb, ◌==◌, length, Bool-cases, All, length-append,
}
use resolute_agent_core_go.Truncate.{is_continuation}
use resolute_agent_core_go.Truncate.Suffix.{StartsCharacter, IsCut}
use resolute_agent_core_go.Shell.Utf8.{
  append_rune, written, decode_rune, map_from, map_runes, between,
}
use resolute_agent_core_go.Shell.Text.{
  without_returns, sanitize_binary_output, sanitized_rune, text_of,
}

-- Of n+1 bytes from here on one begins a character, and behind a byte that begins one at most three
-- others lie before the next.
abbrev pub Spaced : ℕ → List ℕ → Type 0
Spaced n [] = Unit
Spaced zero (b ∷ s) = (is_continuation b ≡ false) × Spaced 3 s
Spaced (suc n) (b ∷ s) = ((is_continuation b ≡ false) × Spaced 3 s) ⊎ Spaced n s

pub Spaced-from : (n : ℕ) (s : List ℕ) → Spaced 0 s → Spaced n s
Spaced-from n [] h = tt
Spaced-from zero (b ∷ s) h = h
Spaced-from (suc n) (b ∷ s) h = inl h

pub Spaced-append : (n : ℕ) (s t : List ℕ) → Spaced n s → Spaced 0 t → Spaced n (s ++ t)
Spaced-append n [] t h k = Spaced-from n t k
Spaced-append zero (b ∷ s) t (c, h) k = (c, Spaced-append 3 s t h k)
Spaced-append (suc n) (b ∷ s) t (inl (c, h)) k = inl (c, Spaced-append 3 s t h k)
Spaced-append (suc n) (b ∷ s) t (inr h) k = inr (Spaced-append n s t h k)

without_returns-append :
    (s t : List ℕ) → without_returns (s ++ t) ≡ without_returns s ++ without_returns t
unfolding without_returns
without_returns-append [] t = refl
without_returns-append (b ∷ s) t = elim (Bool-cases (b == 13)) [
  | inl r ↦ rw r (without_returns-append s t)
  | inr r ↦ rw r (ap (λ l. b ∷ l) (without_returns-append s t))
]

-- One character, or none.
short : (c : List ℕ) → length c ≤ 3 → Spaced 3 c
short [] h = tt
short (a ∷ []) h = inr tt
short (a ∷ b ∷ []) h = inr (inr tt)
short (a ∷ b ∷ c ∷ []) h = inr (inr (inr tt))
short (a ∷ b ∷ c ∷ d ∷ s) h = absurd (omega arith)

length-without_returns : (s : List ℕ) → length (without_returns s) ≤ length s
unfolding without_returns
length-without_returns [] = omega arith
length-without_returns (b ∷ s) = ground (arith, length-without_returns s)

character :
    (b : ℕ) (s : List ℕ)
    → is_continuation b ≡ false
    → (b ≡ 13 → s ≡ [])
    → length s ≤ 3
    → Spaced 0 (without_returns (b ∷ s))
unfolding without_returns
character b s starts alone few = elim (Bool-cases (b == 13)) [
  | inl r ↦ rw (r, alone (ground arith)) tt
  | inr r ↦ rw r (starts, short (without_returns s) (omega (arith, length-without_returns s)))
]

leads : (b : ℕ) → b < 128 ⊎ ((192 ≤ b) × (b < 256)) → is_continuation b ≡ false
unfolding is_continuation
leads b (inl h) = ground arith
leads b (inr h) = ground arith

append_rune-Spaced : (r : ℕ) → Spaced 0 (without_returns (append_rune r))
unfolding append_rune
append_rune-Spaced r = elim (Bool-cases (ltb r 128)) [
  | inl ascii ↦ rw ascii (character r [] (leads r (inl (ground arith))) (λ _. refl) (omega arith))
  | inr above ↦ elim (Bool-cases (ltb r 2048)) [
    | inl two ↦
        rw (above, two) (by_lead (192 + r / 64) _ (ground arith) (ground arith) (omega arith))
    | inr above2 ↦ elim (Bool-cases (between 55296 57343 r || ltb 1114111 r)) [
      | inl bad ↦ rw (above, above2, bad) (by_lead 239 _ (omega arith) (omega arith) (omega arith))
      | inr good ↦ elim (Bool-cases (ltb r 65536)) [
        | inl three ↦
            rw (above, above2, good, three)
              (by_lead (224 + r / 4096) _ (ground arith) (ground arith) (omega arith))
        | inr four ↦
            rw (above, above2, good, four)
              (by_lead (240 + r / 262144) _ (ground arith) (ground arith) (omega arith))
      ]
    ]
  ]
]
  where
    by_lead :
        (b : ℕ) (s : List ℕ) → 192 ≤ b → b < 256 → length s ≤ 3 → Spaced 0 (without_returns (b ∷ s))
    by_lead b s lo hi few = character b s (leads b (inr (lo, hi))) (λ e. absurd (omega arith)) few

written-Spaced : (o : Option ℕ) → Spaced 0 (without_returns (written o))
unfolding written without_returns
written-Spaced none = tt
written-Spaced (some r) = append_rune-Spaced r

map_from-Spaced :
    (f : ℕ → Option ℕ) (skip : ℕ) (s : List ℕ) → Spaced 0 (without_returns (map_from f skip s))
unfolding map_from without_returns
map_from-Spaced f zero [] = tt
map_from-Spaced f (suc skip) [] = tt
map_from-Spaced f (suc skip) (b ∷ s) = map_from-Spaced f skip s
map_from-Spaced f zero (b ∷ s) =
    let (r, width) = decode_rune b s in
    rw (without_returns-append (written (f r)) (map_from f (width - 1) s)) (
      Spaced-append 0 (without_returns (written (f r))) (without_returns (map_from f (width - 1) s))
        (written-Spaced (f r)) (map_from-Spaced f (width - 1) s))

-- The text of a chunk consists of whole characters, whatever the bytes of the chunk.
pub text_of-Spaced : (chunk : List ℕ) → Spaced 0 (text_of chunk)
unfolding text_of sanitize_binary_output map_runes
text_of-Spaced chunk = map_from-Spaced sanitized_rune 0 chunk

Spaced-behind : (n : ℕ) (s t : List ℕ) → n ≤ 3 → Spaced n (s ++ t) → Spaced 3 t
Spaced-behind n [] t h k = weaker n 3 t h k
  where
    weaker : (n m : ℕ) (t : List ℕ) → n ≤ m → Spaced n t → Spaced m t
    weaker n m [] h k = tt
    weaker zero m (b ∷ t) h k = Spaced-from m (b ∷ t) k
    weaker (suc n) zero (b ∷ t) h k = absurd (omega arith)
    weaker (suc n) (suc m) (b ∷ t) h (inl k) = inl k
    weaker (suc n) (suc m) (b ∷ t) h (inr k) = inr (weaker n m t (omega arith) k)
Spaced-behind zero (b ∷ s) t h (_, k) = Spaced-behind 3 s t (omega arith) k
Spaced-behind (suc n) (b ∷ s) t h (inl (_, k)) = Spaced-behind 3 s t (omega arith) k
Spaced-behind (suc n) (b ∷ s) t h (inr k) = Spaced-behind n s t (omega arith) k

few_continued :
    (n : ℕ) (c t : List ℕ)
    → All (λ b. is_continuation b ≡ true) c
    → Spaced n (c ++ t)
    → length c ≤ n
few_continued n [] t h k = omega arith
few_continued zero (b ∷ c) t (h, hs) (k, _) = absurd (ground arith)
few_continued (suc n) (b ∷ c) t (h, hs) (inl (k, _)) = absurd (ground arith)
few_continued (suc n) (b ∷ c) t (h, hs) (inr k) = omega (arith, few_continued n c t hs k)

pub Spaced-starts : (s : List ℕ) → Spaced 0 s → StartsCharacter s
Spaced-starts [] h = tt
Spaced-starts (b ∷ s) (h, _) = h

-- At most three bytes are lost where the end of such a text is cut at a character.
pub cut-few : (n : ℕ) (s r : List ℕ) → Spaced 0 s → IsCut n s r → n ≤ length r + 3
cut-few n s r h c =
    let few : length c.skipped ≤ 3 =
      few_continued 3 c.skipped r c.skipped_continuation
        (Spaced-behind 0 c.front (c.skipped ++ r) (omega arith) (subst (Spaced 0) c.parts h)) in
    omega (arith, few, c.cut_at, length-append c.skipped r)
