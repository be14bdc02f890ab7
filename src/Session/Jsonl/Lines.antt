-- ===== src/Session/Jsonl/Lines.antt =====
-- Reading the lines of a file that was written line by line.
use mathlib.Core.Path.{ap₂}
use resolute_agent_core_go.Prelude.{
  ℕ, ◌≤◌, Bool, true, false, List, [], ◌∷◌, ◌++◌, Option, none, some, ◌≡◌, ◌≢◌, refl, sym, ap, ◌∙◌,
  inl, inr, arith, leb, ◌==◌, if◌then◌else◌, length, last?, All, Bool-cases, append_assoc,
  append-nil,
}
use resolute_agent_core_go.Session.Jsonl.{newline, max_scan_token_size, drop_cr, scan}

abbrev pub Lines : Type 0
Lines = Option (List (List ℕ))

abbrev pub then_lines : Lines → Lines → Lines
then_lines none b = none
then_lines (some ls) none = none
then_lines (some ls) (some ms) = some (ls ++ ms)

abbrev line_first : List ℕ → Lines → Lines
line_first l none = none
line_first l (some ls) = some (l ∷ ls)

line_first-then :
    (l : List ℕ) (a b : Lines) → line_first l (then_lines a b) ≡ then_lines (line_first l a) b
line_first-then l none b = refl
line_first-then l (some ls) none = refl
line_first-then l (some ls) (some ms) = refl

-- A complete line is read, and the reading goes on behind it.
scan-newline :
    (g cur : List ℕ)
    → scan (newline ∷ g) cur ≡ (
        if leb max_scan_token_size (length cur) then none else line_first (drop_cr cur) (scan g []))
unfolding scan
scan-newline g cur = ground arith

scan-other :
    (c : ℕ) (s cur : List ℕ) → (c == newline) ≡ false → scan (c ∷ s) cur ≡ scan s (cur ++ c ∷ [])
unfolding scan
scan-other c s cur h = rw (h, scan)

guarded-then :
    (b : Bool) (l : List ℕ) (a g : Lines)
    → (if b then none else line_first l (then_lines a g))
      ≡ then_lines (if b then none else line_first l a) g
guarded-then true l a g = refl
guarded-then false l a g = line_first-then l a g

pub only_line : (g : Lines) → then_lines (some []) g ≡ g
only_line none = refl
only_line (some ms) = refl

pub scan-nil : scan [] [] ≡ some []
unfolding scan
scan-nil = refl

-- Reading behind a newline does not depend on what stands before it.
pub scan-then :
    (f g cur : List ℕ)
    → scan (f ++ newline ∷ g) cur ≡ then_lines (scan (f ++ newline ∷ []) cur) (scan g [])
scan-then [] g cur =
    let long : Bool = leb max_scan_token_size (length cur) in
    scan-newline g cur
    ∙ ap (λ t. if long then none else line_first (drop_cr cur) t) (sym (only_line (scan g [])))
    ∙ guarded-then long (drop_cr cur) (some []) (scan g [])
    ∙ ap (λ t. then_lines t (scan g []))
        (sym (
          scan-newline [] cur
          ∙ ap (λ t. if long then none else line_first (drop_cr cur) t) scan-nil))
scan-then (c ∷ f) g cur = elim (Bool-cases (c == newline)) [
  | inr other ↦
      scan-other c (f ++ newline ∷ g) cur other
      ∙ scan-then f g (cur ++ c ∷ [])
      ∙ ap (λ t. then_lines t (scan g [])) (sym (scan-other c (f ++ newline ∷ []) cur other))
  | inl is_newline ↦
      let long : Bool = leb max_scan_token_size (length cur) in
      let e : c ≡ newline = ground arith in
      rw e (
        scan-newline (f ++ newline ∷ g) cur
        ∙ ap (λ t. if long then none else line_first (drop_cr cur) t) (scan-then f g [])
        ∙ guarded-then long (drop_cr cur) (scan (f ++ newline ∷ []) []) (scan g [])
        ∙ ap (λ t. then_lines t (scan g [])) (sym (scan-newline (f ++ newline ∷ []) cur)))
]

-- At the end of a file, a line without a newline is read like one with a newline.
scan-end : (cur : List ℕ) → cur ≢ [] → scan (newline ∷ []) cur ≡ scan [] cur
unfolding scan
scan-end [] h = absurd (h refl)
scan-end (b ∷ cur) h = ground arith

not-nil : (xs : List ℕ) (c : ℕ) → xs ++ c ∷ [] ≢ []
not-nil [] c e = cc
not-nil (x ∷ xs) c e = cc

-- The repair of the end of a file changes none of its lines.
pub scan-repair :
    (c : ℕ) (s cur : List ℕ) (b : ℕ)
    → last? (c ∷ s) ≡ some b
    → (b == newline) ≡ false
    → scan ((c ∷ s) ++ newline ∷ []) cur ≡ scan (c ∷ s) cur
scan-repair c [] cur b l h =
    let other : (c == newline) ≡ false = ground arith in
    scan-other c (newline ∷ []) cur other
    ∙ scan-end (cur ++ c ∷ []) (not-nil cur c)
    ∙ sym (scan-other c [] cur other)
scan-repair c (d ∷ s) cur b l h = elim (Bool-cases (c == newline)) [
  | inr other ↦
      scan-other c ((d ∷ s) ++ newline ∷ []) cur other
      ∙ scan-repair d s (cur ++ c ∷ []) b l h
      ∙ sym (scan-other c (d ∷ s) cur other)
  | inl is_newline ↦
      let long : Bool = leb max_scan_token_size (length cur) in
      let e : c ≡ newline = ground arith in
      rw e (
        scan-newline ((d ∷ s) ++ newline ∷ []) cur
        ∙ ap (λ t. if long then none else line_first (drop_cr cur) t) (scan-repair d s [] b l h)
        ∙ sym (scan-newline (d ∷ s) cur))
]

-- json.Marshal escapes the control characters.
abbrev pub IsPrintable : List ℕ → Type 0
IsPrintable = All (λ b. 32 ≤ b)

drop_cr-printable : (line : List ℕ) → IsPrintable line → drop_cr line ≡ line
unfolding drop_cr
drop_cr-printable [] h = refl
drop_cr-printable (c ∷ []) h = ground arith
drop_cr-printable (c ∷ d ∷ s) (h, hs) = ap (λ t. c ∷ t) (drop_cr-printable (d ∷ s) hs)

scan-printable :
    (line g cur : List ℕ)
    → IsPrintable line
    → scan (line ++ newline ∷ g) cur ≡ scan (newline ∷ g) (cur ++ line)
scan-printable [] g cur h = ap (scan (newline ∷ g)) (sym (append-nil cur))
scan-printable (c ∷ line) g cur (h, hs) =
    scan-other c (line ++ newline ∷ g) cur (ground arith)
    ∙ scan-printable line g (cur ++ c ∷ []) hs
    ∙ ap (scan (newline ∷ g)) (append_assoc cur (c ∷ []) line)

-- A written line is read back if it is short enough, and stops the reading if it is not.
pub scan-line :
    (line : List ℕ)
    → IsPrintable line
    → scan (line ++ newline ∷ []) []
      ≡ (if leb max_scan_token_size (length line) then none else some (line ∷ []))
scan-line line h =
    scan-printable line [] [] h
    ∙ scan-newline [] line
    ∙ ap₂
        (λ (l : List ℕ) (t : Lines).
          if leb max_scan_token_size (length line) then none else line_first l t)
        (drop_cr-printable line h) scan-nil
