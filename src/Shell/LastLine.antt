-- ===== src/Shell/LastLine.antt =====
-- Newlines and the last line of a text that is put together, for tools/shell_output.go.
use mathlib.Core.Option.{none-ne-some}
use resolute_agent_core_go.Prelude.{
  ℕ, suc, ◌+◌, ◌≤◌, Bool, false, List, [], ◌∷◌, ◌++◌, Option, none, some, ◌≡◌, refl, ap, ◌∙◌, subst,
  inl, inr, arith, leb, ◌==◌, length, Bool-cases, if◌then◌else◌,
}
use resolute_agent_core_go.Truncate.{newline, split, has_newline_suffix}
use resolute_agent_core_go.Truncate.Lines.{length-put_first, length-split}
use resolute_agent_core_go.Shell.Text.{count_newlines, trailing, trailing_behind}

unfoldable pub line_or : Option (List ℕ) → List ℕ → List ℕ
line_or (some t) s = t
line_or none s = s

-- The last line of a text: what follows the last newline, or all of it.
abbrev pub open_line : List ℕ → List ℕ
open_line s = line_or (trailing s) s

-- The last newline's rest, of two texts with the rests o and p.
joined : Option (List ℕ) → Option (List ℕ) → List ℕ → Option (List ℕ)
joined o (some u) t = some u
joined (some u) none t = some (u ++ t)
joined none none t = none

pub count_newlines-append :
    (s t : List ℕ) → count_newlines (s ++ t) ≡ count_newlines s + count_newlines t
unfolding count_newlines
count_newlines-append [] t = omega arith
count_newlines-append (b ∷ s) t = ground (arith, count_newlines-append s t)

by_rests :
    (b : ℕ) (s t : List ℕ) (o p : Option (List ℕ))
    → trailing_behind b (s ++ t) (joined o p t) ≡ joined (trailing_behind b s o) p t
unfolding trailing_behind joined
by_rests b s t o (some u) = refl
by_rests b s t (some u) none = refl
by_rests b s t none none = elim (Bool-cases (b == newline)) [
  | inl e ↦ rw e refl
  | inr e ↦ rw e refl
]

trailing-append : (s t : List ℕ) → trailing (s ++ t) ≡ joined (trailing s) (trailing t) t
unfolding trailing joined
trailing-append [] t = nothing_before (trailing t)
  where
    nothing_before : (o : Option (List ℕ)) → o ≡ joined none o t
    nothing_before none = refl
    nothing_before (some u) = refl
trailing-append (b ∷ s) t =
    ap (trailing_behind b (s ++ t)) (trailing-append s t) ∙ by_rests b s t (trailing s) (trailing t)

line_by_rests :
    (s t : List ℕ) (o p : Option (List ℕ))
    → line_or (joined o p t) (s ++ t) ≡ line_or p (line_or o s ++ t)
unfolding joined line_or
line_by_rests s t o (some u) = refl
line_by_rests s t (some u) none = refl
line_by_rests s t none none = refl

pub open_line-append : (s t : List ℕ) → open_line (s ++ t) ≡ line_or (trailing t) (open_line s ++ t)
open_line-append s t =
    ap (λ o. line_or o (s ++ t)) (trailing-append s t) ∙ line_by_rests s t (trailing s) (trailing t)

pub trailing-newline : (t u : List ℕ) → trailing t ≡ some u → 1 ≤ count_newlines t
unfolding trailing count_newlines
trailing-newline [] u h = absurd (none-ne-some _ h)
trailing-newline (b ∷ t) u h = elim (Bool-cases (b == newline)) [
  | inl e ↦ rw e (omega arith)
  | inr e ↦ rw e (by_rest e (trailing-newline t) (trailing t) refl h)
]
  where
    by_rest :
        (b == newline) ≡ false
        → ((v : List ℕ) → trailing t ≡ some v → 1 ≤ count_newlines t)
        → (o : Option (List ℕ)) → trailing t ≡ o
        → trailing_behind b t o ≡ some u
        → 1 ≤ count_newlines t
    by_rest e later (some v) r h = later v r
    by_rest e later none r h =
        absurd (none-ne-some u (subst (λ c. (if c then some t else none) ≡ some u) e h))

pub length-split-newlines : (s : List ℕ) → length (split s) ≡ suc (count_newlines s)
unfolding split count_newlines
length-split-newlines [] = refl
length-split-newlines (b ∷ s) = elim (Bool-cases (b == newline)) [
  | inl ends ↦ rw ends (omega (arith, length-split-newlines s))
  | inr goes_on ↦
      rw goes_on
        (omega (arith, length-put_first b (split s) (length-split s), length-split-newlines s))
]

nothing_open : ℕ → List ℕ → Option (List ℕ) → Bool
nothing_open b s o = leb (length (line_or (trailing_behind b s o) (b ∷ s))) 0

same_open :
    (b c : ℕ) (s : List ℕ) (o : Option (List ℕ))
    → leb (length (line_or o (c ∷ s))) 0 ≡ nothing_open b (c ∷ s) o
unfolding nothing_open trailing_behind line_or
same_open b c s (some u) = refl
same_open b c s none = elim (Bool-cases (b == newline)) [
  | inl e ↦ rw e (ground arith)
  | inr e ↦ rw e (ground arith)
]

-- A text that is not empty ends in a newline just where its last line is empty.
pub suffix-open :
    (b : ℕ) (s : List ℕ) → has_newline_suffix (b ∷ s) ≡ leb (length (open_line (b ∷ s))) 0
unfolding has_newline_suffix trailing nothing_open trailing_behind line_or
suffix-open b [] = elim (Bool-cases (b == newline)) [ inl e ↦ rw e refl | inr e ↦ rw e refl ]
suffix-open b (c ∷ s) = suffix-open c s ∙ same_open b c s (trailing (c ∷ s))
