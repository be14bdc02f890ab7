-- ===== src/Truncate/Ending.antt =====
-- TruncateTail of tools/truncate.go reads the end of a text only: a text in front of an end that
-- exceeds the byte limit changes no more than the totals that the result reports.
use resolute_agent_core_go.Prelude.{
  none, some, ℕ, suc, ◌+◌, ◌-◌, ◌≤◌, ◌<◌, Bool, true, false, ◌&&◌, List, [], ◌∷◌, ◌++◌, ◌≡◌, refl,
  sym, ap, ◌∙◌, subst, ◌⊎◌, inl, inr, pos, leb, leb_ℤ, ◌==◌, arith, length, take, Bool-cases,
  append-nil, last?-split, length-append, if◌then◌else◌,
}
use resolute_agent_core_go.Truncate.{
  newline, TruncationResult, Collected, split, put_first, join, has_newline_suffix,
  split_lines_for_counting, collect, partial_line, reverse_onto, cut_tail, limit_of,
}
use resolute_agent_core_go.Truncate.Lines.{size_from, length-split_suffix}
use resolute_agent_core_go.Truncate.Reversed.{
  length-join-reverse_onto, reverse_onto-nil, reverse_onto-append, reverse_onto-twice,
}
use resolute_agent_core_go.Truncate.Extended.{truncate-front}

-- The lines of a text, with some text in front: the first line is extended, others may come first.
pub record Extends (ls ks : List (List ℕ)) : Type 0 where
  pub earlier : List (List ℕ)
  pub front : List ℕ
  pub first : List ℕ
  pub others : List (List ℕ)
  pub short : ls ≡ first ∷ others
  pub long : ks ≡ earlier ++ ((front ++ first) ∷ others)

split-shape : (s : List ℕ) → (l : List ℕ) × (ls : List (List ℕ)) × (split s ≡ l ∷ ls)
unfolding split put_first
split-shape [] = ([], [], refl)
split-shape (b ∷ s) = elim (Bool-cases (b == newline)) [
  | inl e ↦ rw e ([], split s, refl)
  | inr e ↦ let (l, ls, eq) = split-shape s in rw (e, eq, put_first) (b ∷ l, ls, refl)
]

put_first-Extends : (b : ℕ) (ls ks : List (List ℕ)) → Extends ls ks → Extends ls (put_first b ks)
unfolding put_first
put_first-Extends b ls ks e = by_earlier e.earlier e.long
  where
    by_earlier :
        (earlier : List (List ℕ))
        → ks ≡ earlier ++ ((e.front ++ e.first) ∷ e.others)
        → Extends ls (put_first b ks)
    by_earlier [] long =
        rw (long, put_first)
          (record {
            earlier = [];
            front = b ∷ e.front;
            first = e.first;
            others = e.others;
            short = e.short;
            long = refl;
          })
    by_earlier (k ∷ earlier) long =
        rw (long, put_first)
          (record {
            earlier = (b ∷ k) ∷ earlier;
            front = e.front;
            first = e.first;
            others = e.others;
            short = e.short;
            long = refl;
          })

split-Extends : (p s : List ℕ) → Extends (split s) (split (p ++ s))
unfolding split
split-Extends [] s =
    let (l, ls, eq) = split-shape s in
    record { earlier = []; front = []; first = l; others = ls; short = eq; long = eq }
split-Extends (b ∷ p) s = elim (Bool-cases (b == newline)) [
  | inl ends ↦
      let e = split-Extends p s in
      rw ends (record {
        earlier = [] ∷ e.earlier;
        front = e.front;
        first = e.first;
        others = e.others;
        short = e.short;
        long = ap (λ l. [] ∷ l) e.long;
      })
  | inr goes_on ↦ rw goes_on (put_first-Extends b (split s) (split (p ++ s)) (split-Extends p s))
]

abbrev init : {A : Type 0} → List A → List A
init xs = take (length xs - 1) xs

init-cons : {A : Type 0} (x y : A) (ys : List A) → init (x ∷ y ∷ ys) ≡ x ∷ init (y ∷ ys)
init-cons x y ys = ap (λ n. take n (x ∷ y ∷ ys)) (less (length ys))
  where
    less : (k : ℕ) → suc (suc k) - 1 ≡ suc (suc k - 1)
    less k = omega arith

init-append :
    {A : Type 0} (xs : List A) (y : A) (ys : List A) → init (xs ++ y ∷ ys) ≡ xs ++ init (y ∷ ys)
init-append [] y ys = refl
init-append (x ∷ []) y ys = init-cons x y ys
init-append (x ∷ z ∷ xs) y ys =
    init-cons x z (xs ++ y ∷ ys) ∙ ap (λ l. x ∷ l) (init-append (z ∷ xs) y ys)

init-Extends : (ls ks : List (List ℕ)) → Extends ls ks → 2 ≤ length ls → Extends (init ls) (init ks)
init-Extends ls ks e two = by_others e.others e.short e.long
  where
    by_others :
        (others : List (List ℕ))
        → ls ≡ e.first ∷ others
        → ks ≡ e.earlier ++ ((e.front ++ e.first) ∷ others)
        → Extends (init ls) (init ks)
    by_others [] short long = absurd (omega (arith, ap length short))
    by_others (o ∷ others) short long = record {
      earlier = e.earlier;
      front = e.front;
      first = e.first;
      others = init (o ∷ others);
      short = ap init short ∙ init-cons e.first o others;
      long =
          ap init long
          ∙ init-append e.earlier (e.front ++ e.first) (o ∷ others)
          ∙ ap (λ l. e.earlier ++ l) (init-cons (e.front ++ e.first) o others);
    }

suffix-append :
    (p : List ℕ) (b : ℕ) (s : List ℕ) → has_newline_suffix (p ++ b ∷ s) ≡ has_newline_suffix (b ∷ s)
unfolding has_newline_suffix
suffix-append [] b s = refl
suffix-append (a ∷ []) b s = refl
suffix-append (a ∷ c ∷ p) b s = suffix-append (c ∷ p) b s

lines-cases :
    (s : List ℕ)
    → 0 < length s
    → ((has_newline_suffix s ≡ true) × (split_lines_for_counting s ≡ init (split s)))
      ⊎ ((has_newline_suffix s ≡ false) × (split_lines_for_counting s ≡ split s))
unfolding split_lines_for_counting
lines-cases [] h = absurd (omega arith)
lines-cases (b ∷ s) h = elim (Bool-cases (has_newline_suffix (b ∷ s))) [
  | inl e ↦ inl (e, rw e refl)
  | inr e ↦ inr (e, rw e refl)
]

lines-Extends :
    (p s : List ℕ)
    → 0 < length s
    → Extends (split_lines_for_counting s) (split_lines_for_counting (p ++ s))
lines-Extends p s h = elim (lines-cases s h) [
  | inl (ends, short) ↦ elim (lines-cases (p ++ s) (omega (arith, length-append p s))) [
    | inl (_, long) ↦
        rw (short, long)
          (init-Extends (split s) (split (p ++ s)) (split-Extends p s) (length-split_suffix s ends))
    | inr (open_end, _) ↦ absurd (ground (arith, same_end p s h))
  ]
  | inr (goes_on, short) ↦ elim (lines-cases (p ++ s) (omega (arith, length-append p s))) [
    | inl (ends, _) ↦ absurd (ground (arith, same_end p s h))
    | inr (_, long) ↦ rw (short, long) (split-Extends p s)
  ]
]
  where
    same_end : (p s : List ℕ) → 0 < length s → has_newline_suffix (p ++ s) ≡ has_newline_suffix s
    same_end p [] h = absurd (omega arith)
    same_end p (b ∷ s) h = suffix-append p b s

-- In reverse the extended line and the earlier ones come last.
reversed-short :
    (first : List ℕ) (others : List (List ℕ))
    → reverse_onto (first ∷ others) [] ≡ reverse_onto others [] ++ first ∷ []
unfolding reverse_onto
reversed-short first others = reverse_onto-nil others (first ∷ [])

reversed-long :
    (earlier : List (List ℕ)) (line : List ℕ) (others : List (List ℕ))
    → reverse_onto (earlier ++ line ∷ others) []
      ≡ reverse_onto others [] ++ line ∷ reverse_onto earlier []
unfolding reverse_onto
reversed-long earlier line others =
    reverse_onto-append earlier (line ∷ others) []
    ∙ reverse_onto-nil others (line ∷ reverse_onto earlier [])

-- The loop does not come to the line that is extended.
collect-front :
    (ml mb : ℕ) (ls : List (List ℕ)) (x y : List ℕ) (zs : List (List ℕ)) (i count : ℕ)
    → mb < count + size_from i (ls ++ x ∷ [])
    → collect (pos ml) (pos mb) (ls ++ (y ++ x) ∷ zs) i count
      ≡ collect (pos ml) (pos mb) (ls ++ x ∷ []) i count
unfolding collect
collect-front ml mb [] x y zs i count h =
    let bytes : length (y ++ x) ≡ length y + length x = length-append y x in
    let over : leb_ℤ (pos (count + (if leb 1 i then suc (length x) else length x))) (pos mb)
        ≡ false =
      ground arith in
    let over2 : leb_ℤ (pos (count + (if leb 1 i then suc (length (y ++ x)) else length (y ++ x))))
          (pos mb)
        ≡ false =
      ground arith in
    rw (over, over2) refl
collect-front ml mb (l ∷ ls) x y zs i count h =
    let later =
      collect-front ml mb ls x y zs (suc i) (count + (if leb 1 i then suc (length l) else length l))
        (omega arith) in
    rw later refl

partial_line-front :
    (mb : ℕ) (ls : List (List ℕ)) (x y : List ℕ) (zs : List (List ℕ)) (c : Collected)
    → (ls ≡ [] → suc mb < length x)
    → partial_line (pos (suc mb)) (ls ++ (y ++ x) ∷ zs) c
      ≡ partial_line (pos (suc mb)) (ls ++ x ∷ []) c
unfolding partial_line
partial_line-front mb [] x y zs c h = by_fields c.lines c.bytes c.broke
  where
    by_fields :
        (taken : List (List ℕ)) (bytes : ℕ) (broke : Bool)
        → partial_line
            (pos (suc mb))
            ((y ++ x) ∷ zs)
            (record { lines = taken; bytes = bytes; broke = broke })
          ≡ partial_line
              (pos (suc mb))
              (x ∷ [])
              (record { lines = taken; bytes = bytes; broke = broke })
    by_fields [] bytes true =
        ap
          (λ (cut : List ℕ).
            ((record { lines = cut ∷ []; bytes = length cut; broke = true }), true))
          (truncate-front y x mb (h refl))
    by_fields [] bytes false = refl
    by_fields (l ∷ ls) bytes broke = refl
partial_line-front mb (l ∷ ls) x y zs c h = refl

-- The bytes of the lines of a text: all, but for a newline at its end.
length-join-split : (s : List ℕ) → length (join (split s)) ≡ length s
unfolding split join
length-join-split [] = refl
length-join-split (b ∷ s) =
    let (l, ls, eq) = split-shape s in
    let rest : length (join (l ∷ ls)) ≡ length s =
      ap (λ k. length (join k)) (sym eq) ∙ length-join-split s in
    elim (Bool-cases (b == newline)) [
      | inl ends ↦ rw (ends, eq) (omega (arith, rest))
      | inr goes_on ↦ rw (goes_on, eq) (by_lines l ls rest)
    ]
  where
    by_lines :
        (l : List ℕ) (ls : List (List ℕ))
        → length (join (l ∷ ls)) ≡ length s
        → length (join (put_first b (l ∷ ls))) ≡ suc (length s)
    by_lines l [] h = ap suc h
    by_lines l (k ∷ ls) h = ap suc h

split-newline : (s : List ℕ) → split (s ++ newline ∷ []) ≡ split s ++ [] ∷ []
unfolding split put_first
split-newline [] = refl
split-newline (b ∷ s) = elim (Bool-cases (b == newline)) [
  | inl ends ↦ rw (ends, split-newline s) refl
  | inr goes_on ↦ let (l, ls, eq) = split-shape s in rw (goes_on, split-newline s, eq) refl
]

newline-suffix :
    (s : List ℕ)
    → 0 < length s
    → has_newline_suffix s ≡ true
    → (t : List ℕ) × (s ≡ t ++ newline ∷ [])
unfolding has_newline_suffix
newline-suffix [] h e = absurd (omega arith)
newline-suffix (b ∷ s) h e =
    let (t, z, parts, last) = last?-split b s in
    let ends : (z == newline) ≡ true =
      subst (λ o. elim o as (λ _. Bool) [ none ↦ false | some c ↦ c == newline ] ≡ true) last e in
    let is : z ≡ newline = ground arith in (t, parts ∙ ap (λ c. t ++ c ∷ []) is)

length-join-lines :
    (s : List ℕ) → 0 < length s → length s ≤ suc (length (join (split_lines_for_counting s)))
length-join-lines s h = elim (lines-cases s h) [
  | inr (_, lines) ↦ rw lines (omega (arith, length-join-split s))
  | inl (ends, lines) ↦
      let (t, parts) = newline-suffix s h ends in
      let all_but_last : init (split s) ≡ split t =
        ap (λ u. init (split u)) parts
        ∙ ap init (split-newline t)
        ∙ init-append (split t) [] []
        ∙ append-nil (split t) in
      rw (lines, all_but_last)
        (omega (arith, length-join-split t, ap length parts, length-append t (newline ∷ [])))
]

-- What TruncateTail makes of a text that is over a limit.
abbrev tail_result : ℕ → ℕ → ℕ → ℕ → Collected × Bool → TruncationResult
tail_result ml mb lines bytes c =
    let output_lines = reverse_onto c.0.lines [] in
    record {
      content = join output_lines;
      truncated = true;
      truncated_by = limit_of (pos ml) (pos mb) c.0;
      total_lines = lines;
      total_bytes = bytes;
      output_lines = length output_lines;
      output_bytes = length (join output_lines);
      last_line_partial = c.1;
      first_line_exceeds_limit = false;
      max_lines = pos ml;
      max_bytes = pos mb;
    }

abbrev collected : ℕ → ℕ → List (List ℕ) → Collected × Bool
collected ml mb reversed = partial_line (pos mb) reversed (collect (pos ml) (pos mb) reversed 0 0)

collected-front :
    (ml mb : ℕ) (ls : List (List ℕ)) (x y : List ℕ) (zs : List (List ℕ))
    → suc mb < size_from 0 (ls ++ x ∷ [])
    → collected ml (suc mb) (ls ++ (y ++ x) ∷ zs) ≡ collected ml (suc mb) (ls ++ x ∷ [])
collected-front ml mb ls x y zs h =
    ap (partial_line (pos (suc mb)) (ls ++ (y ++ x) ∷ zs))
      (collect-front ml (suc mb) ls x y zs 0 0 (omega arith))
    ∙ partial_line-front mb ls x y zs (collect (pos ml) (pos (suc mb)) (ls ++ x ∷ []) 0 0)
        (λ e. alone ls e h)
  where
    alone : (ls : List (List ℕ)) → ls ≡ [] → suc mb < size_from 0 (ls ++ x ∷ []) → suc mb < length x
    alone ls e h =
        let here : suc mb < size_from 0 (x ∷ []) =
          subst (λ l. suc mb < size_from 0 (l ++ x ∷ [])) e h in
        omega (arith, here)

cut_tail-over :
    (ml mb : ℕ) (s : List ℕ)
    → mb < length s
    → cut_tail (pos ml) (pos mb) s (split_lines_for_counting s)
      ≡ tail_result ml mb
          (length (split_lines_for_counting s))
          (length s)
          (collected ml mb (reverse_onto (split_lines_for_counting s) []))
unfolding cut_tail
cut_tail-over ml mb s h =
    let over : (leb_ℤ (pos (length (split_lines_for_counting s))) (pos ml)
          && leb_ℤ (pos (length s)) (pos mb))
        ≡ false =
      ground arith in
    rw over refl

-- Where a text exceeds the byte limit by two, what stands in front of it changes the totals alone.
pub cut_tail-front :
    (ml mb : ℕ) (p s : List ℕ)
    → 2 + mb < length s
    → cut_tail (pos ml) (pos (suc mb)) (p ++ s) (split_lines_for_counting (p ++ s))
      ≡ record (cut_tail (pos ml) (pos (suc mb)) s (split_lines_for_counting s)) {
        total_lines = length (split_lines_for_counting (p ++ s));
        total_bytes = length (p ++ s);
      }
unfolding reverse_onto
cut_tail-front ml mb p s h =
    let e = lines-Extends p s (omega arith) in
    let ls : List (List ℕ) = reverse_onto e.others [] in
    let total_lines : ℕ = length (split_lines_for_counting (p ++ s)) in
    let total_bytes : ℕ = length (p ++ s) in
    let short : reverse_onto (split_lines_for_counting s) [] ≡ ls ++ e.first ∷ [] =
      ap (λ l. reverse_onto l []) e.short ∙ reversed-short e.first e.others in
    let long : reverse_onto (split_lines_for_counting (p ++ s)) []
        ≡ ls ++ (e.front ++ e.first) ∷ reverse_onto e.earlier [] =
      ap (λ l. reverse_onto l []) e.long ∙ reversed-long e.earlier (e.front ++ e.first) e.others in
    let size : length (join (split_lines_for_counting s)) ≡ size_from 0 (ls ++ e.first ∷ []) =
      ap (λ l. length (join l)) (sym (reverse_onto-twice (split_lines_for_counting s) []))
      ∙ length-join-reverse_onto (reverse_onto (split_lines_for_counting s) [])
      ∙ ap (size_from 0) short in
    let same : collected ml (suc mb) (reverse_onto (split_lines_for_counting (p ++ s)) [])
        ≡ collected ml (suc mb) (reverse_onto (split_lines_for_counting s) []) =
      ap (collected ml (suc mb)) long
      ∙ collected-front ml mb ls e.first e.front (reverse_onto e.earlier [])
          (omega (arith, size, length-join-lines s (omega arith)))
      ∙ ap (collected ml (suc mb)) (sym short) in
    cut_tail-over ml (suc mb) (p ++ s) (omega (arith, length-append p s))
    ∙ ap (tail_result ml (suc mb) total_lines total_bytes) same
    ∙ ap
        (λ (r : TruncationResult). record r {
          total_lines = total_lines;
          total_bytes = total_bytes;
        })
        (sym (cut_tail-over ml (suc mb) s (omega arith)))
