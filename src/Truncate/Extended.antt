-- ===== src/Truncate/Extended.antt =====
-- truncateStringToBytesFromEnd of tools/truncate.go, applied to a text that grows.
use resolute_agent_core_go.Prelude.{
  ℕ, zero, suc, ◌+◌, ◌-◌, ◌≤◌, ◌<◌, true, false, List, [], ◌∷◌, ◌++◌, ◌≡◌, refl, sym, ap, ◌∙◌, inl,
  inr, pos, leb, arith, tests, length, drop, All, Bool-cases, append_assoc, length-append,
}
use resolute_agent_core_go.Truncate.{
  is_continuation, skip_continuation, truncate_string_to_bytes_from_end,
}
use resolute_agent_core_go.Truncate.Suffix.{
  StartsCharacter, IsCut, truncate_string_to_bytes_from_end-IsCut,
}

-- The last n bytes.
abbrev last_bytes : ℕ → List ℕ → List ℕ
last_bytes n s = drop (length s - n) s

drop-within : (n : ℕ) (xs ys : List ℕ) → n ≤ length xs → drop n (xs ++ ys) ≡ drop n xs ++ ys
drop-within zero xs ys h = refl
drop-within (suc n) [] ys h = absurd (omega arith)
drop-within (suc n) (x ∷ xs) ys h = drop-within n xs ys (omega arith)

drop-behind : (n : ℕ) (xs ys : List ℕ) → drop (length xs + n) (xs ++ ys) ≡ drop n ys
drop-behind n [] ys = ap (λ k. drop k ys) (omega arith)
drop-behind n (x ∷ xs) ys =
    ap (λ k. drop k (x ∷ xs ++ ys)) (next (length xs) n) ∙ drop-behind n xs ys
  where
    next : (k n : ℕ) → suc k + n ≡ suc (k + n)
    next k n = omega arith

last_bytes-append :
    (n : ℕ) (xs ys : List ℕ) → n ≤ length ys → last_bytes n (xs ++ ys) ≡ last_bytes n ys
last_bytes-append n xs ys h =
    ap (λ k. drop k (xs ++ ys)) (omega (arith, length-append xs ys))
    ∙ drop-behind (length ys - n) xs ys

skip-continued :
    (c s : List ℕ)
    → All (λ b. is_continuation b ≡ true) c
    → StartsCharacter s
    → skip_continuation (c ++ s) ≡ s
unfolding skip_continuation
skip-continued [] [] h k = refl
skip-continued [] (b ∷ s) h k = rw k refl
skip-continued (b ∷ c) s (h, hs) k = rw h (skip-continued c s hs k)

drop-continued :
    (n : ℕ) (c : List ℕ)
    → All (λ b. is_continuation b ≡ true) c
    → All (λ b. is_continuation b ≡ true) (drop n c)
drop-continued zero c h = h
drop-continued (suc n) [] h = tt
drop-continued (suc n) (b ∷ c) (h, hs) = drop-continued n c hs

starts-append : (s t : List ℕ) → StartsCharacter s → StartsCharacter t → StartsCharacter (s ++ t)
starts-append [] t h k = k
starts-append (b ∷ s) t h k = h

pub truncate-short :
    (s : List ℕ) (m : ℕ) → length s ≤ m → truncate_string_to_bytes_from_end s (pos m) ≡ s
unfolding truncate_string_to_bytes_from_end
truncate-short [] zero h = refl
truncate-short (b ∷ s) zero h = absurd (omega arith)
truncate-short s (suc m) h = let fits : leb (length s) (suc m) ≡ true = ground arith in rw fits refl

truncate-long :
    (s : List ℕ) (m : ℕ)
    → suc m < length s
    → truncate_string_to_bytes_from_end s (pos (suc m)) ≡ skip_continuation (last_bytes (suc m) s)
unfolding truncate_string_to_bytes_from_end
truncate-long s m h = let over : leb (length s) (suc m) ≡ false = ground arith in rw over refl

-- Bytes in front of a text that is longer than the limit do not change its end.
pub truncate-front :
    (front s : List ℕ) (m : ℕ)
    → suc m < length s
    → truncate_string_to_bytes_from_end (front ++ s) (pos (suc m))
      ≡ truncate_string_to_bytes_from_end s (pos (suc m))
truncate-front front s m h =
    truncate-long (front ++ s) m (omega (arith, length-append front s))
    ∙ ap skip_continuation (last_bytes-append (suc m) front s (omega arith))
    ∙ sym (truncate-long s m h)

-- The text that was cut, with the new text behind it: its end is that of the whole.
cut-append :
    (m : ℕ) (s t r : List ℕ)
    → suc m < length s
    → StartsCharacter t
    → IsCut (suc m) s r
    → truncate_string_to_bytes_from_end (r ++ t) (pos (suc m))
      ≡ truncate_string_to_bytes_from_end (s ++ t) (pos (suc m))
cut-append m s t r h k c = elim (Bool-cases (leb (length (r ++ t)) (suc m))) [
  | inl fits ↦
      let j : ℕ = length t in
      let room : j ≤ length c.skipped =
        omega (tests, c.cut_at, length-append c.skipped r, length-append r t) in
      let whole : s ++ t ≡ c.front ++ (c.skipped ++ (r ++ t)) =
        ap (λ l. l ++ t) c.parts ∙ simp append_assoc in
      let end : last_bytes (suc m) (s ++ t) ≡ drop j c.skipped ++ (r ++ t) =
        ap (last_bytes (suc m)) whole
        ∙ ap (λ n. drop n (c.front ++ (c.skipped ++ (r ++ t))))
            (omega (
              arith,
              c.cut_at,
              length-append c.skipped r,
              length-append r t,
              length-append c.front (c.skipped ++ (r ++ t)),
              length-append c.skipped (r ++ t),
            ))
        ∙ drop-behind j c.front (c.skipped ++ (r ++ t))
        ∙ drop-within j c.skipped (r ++ t) room in
      truncate-short (r ++ t) (suc m) (omega tests)
      ∙ sym (
          skip-continued (drop j c.skipped) (r ++ t)
            (drop-continued j c.skipped c.skipped_continuation) (starts-append r t c.starts k))
      ∙ ap skip_continuation (sym end)
      ∙ sym (truncate-long (s ++ t) m (omega (arith, length-append s t)))
  | inr over ↦
      let whole : s ++ t ≡ (c.front ++ c.skipped) ++ (r ++ t) =
        ap (λ l. l ++ t) c.parts ∙ simp append_assoc in
      sym (truncate-front (c.front ++ c.skipped) (r ++ t) m (omega tests))
      ∙ ap (λ l. truncate_string_to_bytes_from_end l (pos (suc m))) (sym whole)
]

-- Cutting a text piece by piece leaves the same end as cutting the whole text at once, where the
-- pieces consist of whole characters.
pub truncate-append :
    (m : ℕ) (s t : List ℕ)
    → StartsCharacter t
    → truncate_string_to_bytes_from_end
        (truncate_string_to_bytes_from_end s (pos (suc m)) ++ t)
        (pos (suc m))
      ≡ truncate_string_to_bytes_from_end (s ++ t) (pos (suc m))
truncate-append m s t k = elim (truncate_string_to_bytes_from_end-IsCut s (suc m)) [
  | inl (fits, same) ↦ rw same refl
  | inr (over, cut) ↦
      cut-append m s t (truncate_string_to_bytes_from_end s (pos (suc m))) over k cut
]
