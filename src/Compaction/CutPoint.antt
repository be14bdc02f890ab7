-- ===== src/Compaction/CutPoint.antt =====
-- Where findCutPoint cuts a transcript, and what prepareCompaction plans.
use resolute_agent_core_go.Prelude.{
  ℕ, zero, suc, ◌+◌, ◌-◌, ◌≤◌, ◌<◌, true, false, List, [], ◌∷◌, ◌++◌, Option, none, some, ◌≡◌, ◌≢◌,
  refl, sym, subst, ap, ◌∙◌, ◌⊎◌, inl, inr, ℤ, pos, ◌≤ℤ◌, ◌<ℤ◌, leb_ℤ, arith, tests, length,
  get_elem?, drop, get_elem?-drop, drop-beyond, Bool-cases, take-append-drop, length-take,
  length-drop,
}
use resolute_agent_core_go.Message.{Message}
use resolute_agent_core_go.Compaction.{
  CompactionSettings, CompactionPrep, estimate_message_tokens, is_valid_cut_point, first_valid,
  cut_at, tokens_at, walk_back, find_cut_point, prepare_compaction,
}

-- The estimate of a part of the transcript, message by message.
pub tail_tokens : List Message → ℕ
tail_tokens [] = 0
tail_tokens (m ∷ ms) = estimate_message_tokens m + tail_tokens ms

-- No message at an index from i up to, and without, j is a valid cut point.
abbrev NoneValid : List Message → ℕ → ℕ → Type 0
NoneValid msgs i j =
    (k : ℕ)
    → i ≤ k
    → k < j
    → (m : Message) → get_elem? msgs k ≡ some m
    → is_valid_cut_point m ≡ false

abbrev ValidAt : List Message → ℕ → Type 0
ValidAt msgs j = (m : Message) × (get_elem? msgs j ≡ some m) × (is_valid_cut_point m ≡ true)

-- r is the first valid cut point at or after i, or i itself where there is none.
abbrev IsFirstCut : List Message → ℕ → ℕ → Type 0
IsFirstCut msgs i r =
    ((i ≤ r) × (r < length msgs) × ValidAt msgs r × NoneValid msgs i r)
    ⊎ ((r ≡ i) × NoneValid msgs i (length msgs))

abbrev Scan : List Message → ℕ → Option ℕ → Type 0
Scan ms j o =
    ((o ≡ none) × NoneValid ms 0 (length ms))
    ⊎ ((k : ℕ) × (o ≡ some (j + k)) × (k < length ms) × ValidAt ms k × NoneValid ms 0 k)

none_below : (ms : List Message) → NoneValid ms 0 0
none_below ms k _ h = absurd (omega arith)

none_cons :
    (m : Message) (ms : List Message) (n : ℕ)
    → is_valid_cut_point m ≡ false
    → NoneValid ms 0 n
    → NoneValid (m ∷ ms) 0 (suc n)
none_cons m ms n h rest zero _ _ m' e = cc
none_cons m ms n h rest (suc k) _ lt m' e = rest k (omega arith) (omega arith) m' e

Scan-past :
    (m : Message) (ms : List Message) (j : ℕ) (o : Option ℕ)
    → is_valid_cut_point m ≡ false
    → Scan ms (suc j) o
    → Scan (m ∷ ms) j o
Scan-past m ms j o w (inl (e, none_valid)) = inl (e, none_cons m ms (length ms) w none_valid)
Scan-past m ms j o w (inr (k, e, lt, valid, before)) =
    inr (suc k, e ∙ ap some (omega arith), omega arith, valid, none_cons m ms k w before)

first_valid-Scan : (ms : List Message) (j : ℕ) → Scan ms j (first_valid ms j)
unfolding first_valid
first_valid-Scan [] j = inl (refl, none_below [])
first_valid-Scan (m ∷ ms) j = elim (Bool-cases (is_valid_cut_point m)) [
  | inl v ↦ inr (0, rw v (ap some (omega arith)), omega arith, (m, refl, v), none_below (m ∷ ms))
  | inr w ↦ rw w (Scan-past m ms j _ w (first_valid-Scan ms (suc j)))
]

-- What holds of the part from i on holds of the transcript.
none_from_drop :
    (msgs : List Message) (i n : ℕ) → NoneValid (drop i msgs) 0 n → NoneValid msgs i (i + n)
none_from_drop msgs i n h k le lt m e =
    h (k - i) (omega arith) (omega arith) m
      (get_elem?-drop i (k - i) msgs ∙ ap (get_elem? msgs) (omega arith) ∙ e)

cut_at-none : (msgs : List Message) (i : ℕ) → first_valid (drop i msgs) i ≡ none → cut_at msgs i ≡ i
unfolding cut_at
cut_at-none msgs i e = ground arith

cut_at-some :
    (msgs : List Message) (i j : ℕ) → first_valid (drop i msgs) i ≡ some j → cut_at msgs i ≡ j
unfolding cut_at
cut_at-some msgs i j e = ground arith

cut_at-IsFirstCut :
    (msgs : List Message) (i : ℕ) → i < length msgs → IsFirstCut msgs i (cut_at msgs i)
cut_at-IsFirstCut msgs i h = elim (first_valid-Scan (drop i msgs) i) [
  | inl (e, invalid) ↦
      let whole : i + length (drop i msgs) ≡ length msgs = omega (arith, length-drop i msgs) in
      inr (cut_at-none msgs i e, subst (NoneValid msgs i) whole (none_from_drop msgs i _ invalid))
  | inr (k, e, lt, (m, g, v), before) ↦
      subst (IsFirstCut msgs i) (sym (cut_at-some msgs i (i + k) e)) (
        inl (
          omega arith,
          omega (arith, length-drop i msgs),
          (m, sym (get_elem?-drop i k msgs) ∙ g, v),
          none_from_drop msgs i k before,
        ))
]

tail_tokens-drop :
    (msgs : List Message) (i : ℕ)
    → tail_tokens (drop i msgs) ≡ tokens_at msgs i + tail_tokens (drop (suc i) msgs)
unfolding tail_tokens tokens_at
tail_tokens-drop [] zero = omega arith
tail_tokens-drop [] (suc i) = omega arith
tail_tokens-drop (m ∷ ms) zero = refl
tail_tokens-drop (m ∷ ms) (suc i) = tail_tokens-drop ms i

-- The two ends of the walk: it never reaches the budget, or it first reaches it at i.
abbrev pub CutBy : List Message → ℤ → ℕ → Type 0
CutBy msgs keep r =
    ((pos (tail_tokens msgs) <ℤ keep) × (r ≡ 0))
    ⊎ ((i : ℕ) × (i < length msgs)
        × (keep ≤ℤ pos (tail_tokens (drop i msgs)))
        × (pos (tail_tokens (drop (suc i) msgs)) <ℤ keep)
        × IsFirstCut msgs i r)

walk_back-CutBy :
    (msgs : List Message) (keep : ℤ) (i tokens : ℕ)
    → i ≤ length msgs
    → tokens ≡ tail_tokens (drop i msgs)
    → pos tokens <ℤ keep
    → CutBy msgs keep (walk_back msgs keep i tokens)
unfolding walk_back
walk_back-CutBy msgs keep zero tokens h e small = inl (omega arith, refl)
walk_back-CutBy msgs keep (suc i) tokens h e small =
    let sum : tokens + tokens_at msgs i ≡ tail_tokens (drop i msgs) =
      omega (arith, tail_tokens-drop msgs i) in
    elim (Bool-cases (leb_ℤ keep (pos (tokens + tokens_at msgs i)))) [
      | inl reached ↦ rw reached (inr (i, h, omega tests, omega arith, cut_at-IsFirstCut msgs i h))
      | inr below ↦
          rw below (
            walk_back-CutBy msgs keep i (tokens + tokens_at msgs i) (omega arith) sum (omega tests))
    ]

-- For a positive budget, findCutPoint answers 0 if the whole transcript stays under it. Otherwise let
-- i be the last index from which the messages reach the budget: the answer is the first valid cut
-- point at or after i, and i itself if there is none.
pub find_cut_point-CutBy :
    (msgs : List Message) (keep : ℤ) → pos 0 <ℤ keep → CutBy msgs keep (find_cut_point msgs keep)
unfolding find_cut_point tail_tokens
find_cut_point-CutBy msgs keep h =
    walk_back-CutBy msgs keep (length msgs) 0 (omega arith)
      (sym (ap tail_tokens (drop-beyond (length msgs) msgs (omega arith)))) h

find_cut_point-lt :
    (msgs : List Message) (keep : ℤ)
    → pos 0 <ℤ keep
    → msgs ≢ []
    → find_cut_point msgs keep < length msgs
find_cut_point-lt [] keep h some_message = absurd (some_message refl)
find_cut_point-lt (m ∷ ms) keep h some_message = elim (find_cut_point-CutBy (m ∷ ms) keep h) [
  | inl (_, e) ↦ omega arith
  | inr (i, lt, _, _, first) ↦ elim first [
    | inl (_, below, _, _) ↦ below
    | inr (e, _) ↦ omega arith
  ]
]

-- A plan of a compaction with a positive budget divides the transcript in two: the prefix has as many
-- messages as the cut point says, at least one, and the tail that is kept has at least one too.
pub prepare_compaction-divides :
    (msgs : List Message) (settings : CompactionSettings) (p : CompactionPrep)
    → pos 0 <ℤ settings.keep_recent_tokens
    → prepare_compaction msgs settings ≡ some p
    → (p.prefix ++ p.kept_tail ≡ msgs)
      × (length p.prefix ≡ p.cut_idx)
      × (0 < p.cut_idx)
      × (0 < length p.kept_tail)
unfolding prepare_compaction
prepare_compaction-divides [] settings p h e = cc
prepare_compaction-divides (m ∷ ms) settings p h e =
    let keep = settings.keep_recent_tokens in
    let cut = find_cut_point (m ∷ ms) keep in
    let below = find_cut_point-lt (m ∷ ms) keep h (λ x. cc) in
    ground (
      arith,
      below,
      take-append-drop cut (m ∷ ms),
      length-take cut (m ∷ ms),
      length-drop cut (m ∷ ms),
    )
