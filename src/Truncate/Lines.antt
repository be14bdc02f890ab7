-- ===== src/Truncate/Lines.antt =====
-- The number of bytes that joined lines take, as the loops of tools/truncate.go count them.
use resolute_agent_core_go.Prelude.{
  ℕ, suc, ◌-◌, ◌≤◌, true, inl, inr, Bool-cases, length-take, take, ◌==◌, ◌+◌, List, [], ◌∷◌, ◌≡◌,
  refl, subst, ◌∙◌, arith, leb, if◌then◌else◌, length, length-append,
}
use resolute_agent_core_go.Truncate.{
  newline, join, put_first, split, has_newline_suffix, split_lines_for_counting,
}

-- A newline is counted before every line but the one at index 0.
abbrev pub size_from : ℕ → List (List ℕ) → ℕ
size_from i [] = 0
size_from i (l ∷ ls) = (if leb 1 i then suc (length l) else length l) + size_from (suc i) ls

length-join_cons :
    (i : ℕ) (l : List ℕ) (ls : List (List ℕ))
    → length (join (l ∷ ls)) ≡ length l + size_from (suc i) ls
unfolding join
length-join_cons i l [] = omega arith
length-join_cons i l (k ∷ ls) =
    length-append l (newline ∷ join (k ∷ ls)) ∙ ground (arith, length-join_cons (suc i) k ls)

pub length-join : (ls : List (List ℕ)) → length (join ls) ≡ size_from 0 ls
unfolding join
length-join [] = refl
length-join (l ∷ ls) = length-join_cons 0 l ls

pub length-put_first :
    (b : ℕ) (ls : List (List ℕ)) → 1 ≤ length ls → length (put_first b ls) ≡ length ls
unfolding put_first
length-put_first b [] h = absurd (omega arith)
length-put_first b (l ∷ ls) h = refl

pub length-split : (s : List ℕ) → 1 ≤ length (split s)
unfolding split
length-split [] = omega arith
length-split (b ∷ s) = elim (Bool-cases (b == newline)) [
  | inl ends ↦ rw ends (omega arith)
  | inr goes_on ↦
      rw goes_on (omega (arith, length-put_first b (split s) (length-split s), length-split s))
]

pub length-split_suffix : (s : List ℕ) → has_newline_suffix s ≡ true → 2 ≤ length (split s)
unfolding split has_newline_suffix
length-split_suffix [] h = absurd (ground arith)
length-split_suffix (b ∷ []) h = rw h (omega arith)
length-split_suffix (b ∷ c ∷ s) h = elim (Bool-cases (b == newline)) [
  | inl ends ↦ rw ends (omega (arith, length-split_suffix (c ∷ s) h))
  | inr goes_on ↦ rw goes_on (
      omega (
        arith,
        length-put_first b (split (c ∷ s)) (length-split (c ∷ s)),
        length-split_suffix (c ∷ s) h,
      ))
]

-- Content without lines is empty.
pub no_lines :
    (content : List ℕ) → length (split_lines_for_counting content) ≡ 0 → length content ≡ 0
unfolding split_lines_for_counting
no_lines [] h = refl
no_lines (b ∷ s) h = elim (Bool-cases (has_newline_suffix (b ∷ s))) [
  | inl ends ↦
      let ls = split (b ∷ s) in
      let n : length (take (length ls - 1) ls) ≡ 0 =
        subst (λ t. length (if t then take (length ls - 1) ls else ls) ≡ 0) ends h in
      absurd (omega (arith, length-take (length ls - 1) ls, n, length-split_suffix (b ∷ s) ends))
  | inr goes_on ↦
      let ls = split (b ∷ s) in
      let n : length ls ≡ 0 =
        subst (λ t. length (if t then take (length ls - 1) ls else ls) ≡ 0) goes_on h in
      absurd (omega (arith, n, length-split (b ∷ s)))
]
