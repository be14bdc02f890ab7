-- ===== src/Truncate/Suffix.antt =====
-- truncateStringToBytesFromEnd of tools/truncate.go.
use resolute_agent_core_go.Prelude.{
  ℕ, zero, suc, ◌-◌, ◌≤◌, ◌<◌, true, false, List, [], ◌∷◌, ◌++◌, ◌≡◌, refl, sym, ap, ◌∙◌, ◌⊎◌, inl,
  inr, pos, leb, arith, length, take, drop, All, Bool-cases, take-append-drop, length-drop,
}
use resolute_agent_core_go.Truncate.{
  is_continuation, skip_continuation, truncate_string_to_bytes_from_end,
}

-- Empty, or the first byte is no continuation byte of UTF-8.
abbrev pub StartsCharacter : List ℕ → Type 0
StartsCharacter [] = Unit
StartsCharacter (c ∷ s) = is_continuation c ≡ false

-- Behind `front` the last n bytes of s begin with the continuation bytes `skipped`, and r follows.
pub record IsCut (n : ℕ) (s r : List ℕ) : Type 0 where
  pub front : List ℕ
  pub skipped : List ℕ
  pub parts : s ≡ front ++ (skipped ++ r)
  pub cut_at : length (skipped ++ r) ≡ n
  pub skipped_continuation : All (λ c. is_continuation c ≡ true) skipped
  pub starts : StartsCharacter r

skip_continuation-split :
    (s : List ℕ)
    → (c : List ℕ) × (s ≡ c ++ skip_continuation s)
      × All (λ b. is_continuation b ≡ true) c
      × StartsCharacter (skip_continuation s)
unfolding skip_continuation
skip_continuation-split [] = ([], refl, tt, tt)
skip_continuation-split (b ∷ s) = elim (Bool-cases (is_continuation b)) [
  | inl inside ↦
      let (c, parts, continued, starts) = skip_continuation-split s in
      rw inside (b ∷ c, ap (λ r. b ∷ r) parts, (inside, continued), starts)
  | inr start ↦ rw start ([], refl, tt, start)
]

drop-all : (s : List ℕ) → s ≡ s ++ []
drop-all [] = refl
drop-all (b ∷ s) = ap (λ r. b ∷ r) (drop-all s)

-- Of a string that is longer than the limit truncateStringToBytesFromEnd keeps the last `limit`
-- bytes, less the continuation bytes they begin with, so that it starts at a character; a string
-- within the limit is kept whole.
pub truncate_string_to_bytes_from_end-IsCut :
    (s : List ℕ) (limit : ℕ)
    → ((length s ≤ limit) × (truncate_string_to_bytes_from_end s (pos limit) ≡ s))
      ⊎ ((limit < length s) × IsCut limit s (truncate_string_to_bytes_from_end s (pos limit)))
unfolding truncate_string_to_bytes_from_end
truncate_string_to_bytes_from_end-IsCut [] zero = inl (omega arith, refl)
truncate_string_to_bytes_from_end-IsCut (b ∷ s) zero = inr (
  omega arith,
  record {
    front = b ∷ s;
    skipped = [];
    parts = drop-all (b ∷ s);
    cut_at = refl;
    skipped_continuation = tt;
    starts = tt;
  },
)
truncate_string_to_bytes_from_end-IsCut s (suc n) = elim (Bool-cases (leb (length s) (suc n))) [
  | inl fits ↦ rw fits (inl (ground arith, refl))
  | inr over ↦
      let k = length s - suc n in
      let (c, parts, continued, starts) = skip_continuation-split (drop k s) in
      rw over (
        inr (
          ground arith,
          record {
            front = take k s;
            skipped = c;
            parts = sym (take-append-drop k s) ∙ ap (λ r. take k s ++ r) parts;
            cut_at = ap length (sym parts) ∙ length-drop k s ∙ ground arith;
            skipped_continuation = continued;
            starts = starts;
          },
        ))
]
