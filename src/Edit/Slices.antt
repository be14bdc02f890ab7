-- ===== src/Edit/Slices.antt =====
-- Slices of a text: what lies before, in and behind an occurrence (strings.Index).
use resolute_agent_core_go.Prelude.{
  ℕ, zero, suc, ◌+◌, ◌-◌, ◌≤◌, Bool, true, false, ◌&&◌, List, [], ◌∷◌, ◌++◌, Option, none, some,
  ◌≡◌, ◌∙◌, refl, sym, ap, subst, inl, inr, ◌==◌, ==_iff, Bool-cases, length, take, drop,
  take-append-drop, length-append, length-take, drop-append, arith,
}
use resolute_agent_core_go.Edit.Text.{Bytes, has_prefix, index_of}

module _ {A : Type 0} where
  pub take_first : (i : ℕ) (xs ys : List A) → i ≤ length xs → take i (xs ++ ys) ≡ take i xs
  take_first zero xs ys h = refl
  take_first (suc i) [] ys h = elim (never h) [ ]
    where
      never : suc i ≤ 0 → ⊥
      never h = omega arith
  take_first (suc i) (x ∷ xs) ys h = ap (λ l. x ∷ l) (take_first i xs ys (omega (arith, h)))

  pub take-take : (i j : ℕ) (xs : List A) → i ≤ j → take i (take j xs) ≡ take i xs
  take-take zero j xs h = refl
  take-take (suc i) zero xs h = elim (never h) [ ]
    where
      never : suc i ≤ 0 → ⊥
      never h = omega arith
  take-take (suc i) (suc j) [] h = refl
  take-take (suc i) (suc j) (x ∷ xs) h = ap (λ l. x ∷ l) (take-take i j xs (omega (arith, h)))

  pub drop_behind : (j : ℕ) (xs ys : List A) → j ≤ length xs → drop j (take j xs ++ ys) ≡ ys
  drop_behind zero xs ys h = refl
  drop_behind (suc j) [] ys h = elim (never h) [ ]
    where
      never : suc j ≤ 0 → ⊥
      never h = omega arith
  drop_behind (suc j) (x ∷ xs) ys h = drop_behind j xs ys (omega (arith, h))

  drop_nil : (n : ℕ) → drop {A = A} n [] ≡ []
  drop_nil zero = refl
  drop_nil (suc n) = refl

  take_nil : (n : ℕ) → take {A = A} n [] ≡ []
  take_nil zero = refl
  take_nil (suc n) = refl

  pub drop-drop : (i j : ℕ) (xs : List A) → drop i (drop j xs) ≡ drop (j + i) xs
  drop-drop i zero xs = ap (λ n. drop n xs) (omega arith)
  drop-drop i (suc j) [] = drop_nil i ∙ sym (drop_nil (suc j + i))
  drop-drop i (suc j) (x ∷ xs) = drop-drop i j xs ∙ ap (λ n. drop n (x ∷ xs)) (carry i j)
    where
      carry : (i j : ℕ) → suc (j + i) ≡ suc j + i
      carry i j = omega arith

  pub take_split :
      (o i : ℕ) (xs : List A) → o ≤ i → take i xs ≡ take o xs ++ take (i - o) (drop o xs)
  take_split zero i xs h = ap (λ n. take n xs) (omega arith)
  take_split (suc o) zero xs h = elim (never h) [ ]
    where
      never : suc o ≤ 0 → ⊥
      never h = omega arith
  take_split (suc o) (suc i) [] h = sym (take_nil (suc i - suc o))
  take_split (suc o) (suc i) (x ∷ xs) h =
      ap (λ l. x ∷ l)
        (take_split o i xs (omega (arith, h))
          ∙ ap (λ n. take o xs ++ take n (drop o xs)) (omega (arith, h)))

  pub drop_split :
      (o i : ℕ) (xs : List A) → o ≤ i → drop o xs ≡ take (i - o) (drop o xs) ++ drop i xs
  drop_split o i xs h =
      sym (take-append-drop (i - o) (drop o xs))
      ∙ ap (λ l. take (i - o) (drop o xs) ++ l)
          (drop-drop (i - o) o xs ∙ ap (λ n. drop n xs) (omega (arith, h)))

IsFalse : Bool → Type 0
IsFalse false = Unit
IsFalse true = ⊥

and_split : (x y : Bool) → (x && y) ≡ true → (x ≡ true) × (y ≡ true)
unfolding IsFalse
and_split true y h = (refl, h)
and_split false y h = elim (subst IsFalse h tt) [ ]

-- A text that begins with another.
has_prefix_lem : (p s : Bytes) → has_prefix p s ≡ true → (rest : Bytes) × (s ≡ p ++ rest)
unfolding has_prefix IsFalse
has_prefix_lem [] s h = (s, refl)
has_prefix_lem (a ∷ p) [] h = elim (subst IsFalse h tt) [ ]
has_prefix_lem (a ∷ p) (b ∷ s) h =
    let (same, later) = and_split (a == b) (has_prefix p s) h in
    let (rest, e) = has_prefix_lem p s later in
    (rest, ap (λ c. c ∷ s) (sym ((==_iff a b).0 same)) ∙ ap (λ l. a ∷ l) e)

-- Where strings.Index finds a text, the text is split around it.
pub record Split (sub s : Bytes) (i : ℕ) : Type 0 where
  pub before : Bytes
  pub behind : Bytes
  pub whole : s ≡ before ++ (sub ++ behind)
  pub at : length before ≡ i

SplitAt : Bytes → Bytes → Option ℕ → Type 0
SplitAt sub s none = Unit
SplitAt sub s (some i) = Split sub s i

later_SplitAt :
    (sub : Bytes) (b : ℕ) (s : Bytes) (o : Option ℕ)
    → SplitAt sub s o
    → SplitAt sub (b ∷ s) (elim o [ none ↦ none | some i ↦ some (suc i) ])
unfolding SplitAt
later_SplitAt sub b s none h = tt
later_SplitAt sub b s (some i) h = record {
  before = b ∷ h.before;
  behind = h.behind;
  whole = ap (λ l. b ∷ l) h.whole;
  at = ap suc h.at;
}

index_of-SplitAt : (sub s : Bytes) → SplitAt sub s (index_of sub s)
unfolding index_of SplitAt
index_of-SplitAt sub [] = elim (Bool-cases (has_prefix sub [])) [
  | inl found ↦
      let (rest, e) = has_prefix_lem sub [] found in
      rw (found, index_of, SplitAt) (record { before = []; behind = rest; whole = e; at = refl })
  | inr missing ↦ rw (missing, index_of, SplitAt) tt
]
index_of-SplitAt sub (b ∷ s) = elim (Bool-cases (has_prefix sub (b ∷ s))) [
  | inl found ↦
      let (rest, e) = has_prefix_lem sub (b ∷ s) found in
      rw (found, index_of, SplitAt) (record { before = []; behind = rest; whole = e; at = refl })
  | inr missing ↦
      rw (missing, index_of) (later_SplitAt sub b s (index_of sub s) (index_of-SplitAt sub s))
]

pub index_of-Split : (sub s : Bytes) (i : ℕ) → index_of sub s ≡ some i → Split sub s i
unfolding SplitAt
index_of-Split sub s i h = subst (SplitAt sub s) h (index_of-SplitAt sub s)

pub Split-inside : (sub s : Bytes) (i : ℕ) → Split sub s i → i + length sub ≤ length s
Split-inside sub s i h = omega (
  arith,
  h.at,
  ap length h.whole,
  length-append h.before (sub ++ h.behind),
  length-append sub h.behind,
)

pub Split-here : (sub s : Bytes) (i : ℕ) → Split sub s i → drop i s ≡ sub ++ drop (i + length sub) s
Split-here sub s i h =
    subst (λ k. drop k s ≡ sub ++ drop (k + length sub) s) h.at
      (ap (drop (length h.before)) h.whole
        ∙ drop-append h.before (sub ++ h.behind)
        ∙ ap (λ l. sub ++ l) (sym behind_is))
  where
    behind_is : drop (length h.before + length sub) s ≡ h.behind
    behind_is =
        ap (drop (length h.before + length sub)) h.whole
        ∙ sym (drop-drop (length sub) (length h.before) (h.before ++ (sub ++ h.behind)))
        ∙ ap (drop (length sub)) (drop-append h.before (sub ++ h.behind))
        ∙ drop-append sub h.behind

pub take_within :
    (i j : ℕ) (xs ys : Bytes) → i ≤ j → j ≤ length xs → take i (take j xs ++ ys) ≡ take i xs
take_within i j xs ys less within =
    take_first i (take j xs) ys (omega (arith, less, within, length-take j xs))
    ∙ take-take i j xs less
