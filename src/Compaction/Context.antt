-- ===== src/Compaction/Context.antt =====
-- What BuildLLMContext sends to the model.
use mathlib.Core.Path.{ap₂}
use resolute_agent_core_go.Prelude.{
  ℕ, zero, suc, ◌+◌, ◌-◌, ◌≤◌, ◌<◌, true, false, List, [], ◌∷◌, ◌++◌, ◌≡◌, inl, inr, refl, sym, ap,
  ◌∙◌, arith, tests, length, drop, Bool-cases, All, append_assoc, append-nil, length-append,
  drop-append, take-append, drop-beyond, ltb, leb,
}
use resolute_agent_core_go.Message.{Message, new_branch_summary_message}
use resolute_agent_core_go.Compaction.{
  BranchSummary, sweep, sort_rounds, sort_summaries, gap, apply_summaries, is_bookkeeping,
  has_bookkeeping, drop_bookkeeping, exclude_bookkeeping, build_llm_context,
}

none_to_drop : (ms : List Message) → has_bookkeeping ms ≡ false → drop_bookkeeping ms ≡ ms
unfolding has_bookkeeping drop_bookkeeping
none_to_drop [] h = refl
none_to_drop (m ∷ ms) h = ground (arith, none_to_drop ms)

-- Sharing the slice where there is nothing to strip changes nothing.
exclude-eq-drop : (ms : List Message) → exclude_bookkeeping ms ≡ drop_bookkeeping ms
unfolding exclude_bookkeeping
exclude-eq-drop ms = ground (arith, none_to_drop ms)

abbrev pub IsTalk : Message → Type 0
IsTalk m = is_bookkeeping m ≡ false

drop_bookkeeping-All : (ms : List Message) → All IsTalk (drop_bookkeeping ms)
unfolding drop_bookkeeping
drop_bookkeeping-All [] = tt
drop_bookkeeping-All (m ∷ ms) = elim (Bool-cases (is_bookkeeping m)) [
  | inl b ↦ rw b (drop_bookkeeping-All ms)
  | inr b ↦ rw b (b, drop_bookkeeping-All ms)
]

-- No bookkeeping entry reaches the model, whatever the transcript and the summaries.
pub build_llm_context-IsTalk :
    (transcript : List Message) (summaries : List BranchSummary)
    → All IsTalk (build_llm_context transcript summaries)
unfolding build_llm_context
build_llm_context-IsTalk transcript [] = rw exclude-eq-drop (drop_bookkeeping-All transcript)
build_llm_context-IsTalk transcript (s ∷ ss) =
    rw exclude-eq-drop
      (drop_bookkeeping-All (apply_summaries transcript (sort_summaries (s ∷ ss)) 0))

-- Sorting leaves a list alone whose start indices never fall.
abbrev AtLeast : ℕ → List BranchSummary → Type 0
AtLeast n = All (λ s. n ≤ s.start_idx)

abbrev IsAscending : List BranchSummary → Type 0
IsAscending [] = Unit
IsAscending (s ∷ ss) = AtLeast s.start_idx ss × IsAscending ss

sweep-ascending :
    (x : BranchSummary) (ys : List BranchSummary) → AtLeast x.start_idx ys → sweep x ys ≡ (x, ys)
unfolding sweep
sweep-ascending x [] h = refl
sweep-ascending x (y ∷ ys) (h, hs) =
    let no_swap : ltb y.start_idx x.start_idx ≡ false = ground arith in
    rw no_swap
      (ap (λ (p : BranchSummary × List BranchSummary). (p.0, y ∷ p.1)) (sweep-ascending x ys hs))

sort_rounds-ascending : (n : ℕ) (xs : List BranchSummary) → IsAscending xs → sort_rounds n xs ≡ xs
unfolding sort_rounds
sort_rounds-ascending zero xs h = refl
sort_rounds-ascending (suc n) [] h = refl
sort_rounds-ascending (suc n) (x ∷ xs) (h, hs) =
    rw (sweep-ascending x xs h) (ap (λ l. x ∷ l) (sort_rounds-ascending n xs hs))

whole : (t : List Message) → apply_summaries t [] 0 ≡ t
unfolding apply_summaries
whole [] = refl
whole (m ∷ ms) = ground arith

-- Every list of summaries is treated alike, the empty one too.
build-eq-drop :
    (t : List Message) (ss : List BranchSummary)
    → build_llm_context t ss ≡ drop_bookkeeping (apply_summaries t (sort_summaries ss) 0)
unfolding build_llm_context sort_summaries sort_rounds
build-eq-drop t [] = exclude-eq-drop t ∙ ap drop_bookkeeping (sym (whole t))
build-eq-drop t (s ∷ ss) = exclude-eq-drop (apply_summaries t (sort_summaries (s ∷ ss)) 0)

-- A transcript in parts: one that stays, and one that a summary stands for.
pub data Part : Type 0 where
  kept : List Message → Part
  folded : List Message → BranchSummary → Part

pub transcript_of : List Part → List Message
transcript_of [] = []
transcript_of (kept ms ∷ ps) = ms ++ transcript_of ps
transcript_of (folded ms s ∷ ps) = ms ++ transcript_of ps

-- The summaries of the folded parts, at the indices at which the parts lie behind n messages.
pub summaries_from : ℕ → List Part → List BranchSummary
summaries_from n [] = []
summaries_from n (kept ms ∷ ps) = summaries_from (n + length ms) ps
summaries_from n (folded ms s ∷ ps) =
    record s { start_idx = n; end_idx = n + length ms } ∷ summaries_from (n + length ms) ps

pub context_of : List Part → List Message
context_of [] = []
context_of (kept ms ∷ ps) = ms ++ context_of ps
context_of (folded ms s ∷ ps) = new_branch_summary_message s.summary ∷ context_of ps

summaries_from-AtLeast : (n k : ℕ) (ps : List Part) → n ≤ k → AtLeast n (summaries_from k ps)
unfolding summaries_from
summaries_from-AtLeast n k [] h = tt
summaries_from-AtLeast n k (kept ms ∷ ps) h =
    summaries_from-AtLeast n (k + length ms) ps (omega arith)
summaries_from-AtLeast n k (folded ms s ∷ ps) h =
    (h, summaries_from-AtLeast n (k + length ms) ps (omega arith))

summaries_from-IsAscending : (n : ℕ) (ps : List Part) → IsAscending (summaries_from n ps)
unfolding summaries_from
summaries_from-IsAscending n [] = tt
summaries_from-IsAscending n (kept ms ∷ ps) = summaries_from-IsAscending (n + length ms) ps
summaries_from-IsAscending n (folded ms s ∷ ps) = (
  summaries_from-AtLeast n (n + length ms) ps (omega arith),
  summaries_from-IsAscending (n + length ms) ps,
)

-- The guarded slice between the last summary and the next is the part that was kept.
gap-kept :
    (done pending rest : List Message)
    → gap (done ++ (pending ++ rest)) (length done) (length done + length pending) ≡ pending
unfolding gap
gap-kept done [] rest = ground arith
gap-kept done (m ∷ ms) rest =
    let size : ℕ = length done + length (m ∷ ms) in
    let opens : ltb (length done) size ≡ true = ground arith in
    let fits : leb size (length (done ++ (m ∷ (ms ++ rest)))) ≡ true =
      omega (tests, length-append done (m ∷ (ms ++ rest)), length-append ms rest) in
    let width : size - length done ≡ length (m ∷ ms) = omega arith in
    rw (opens, fits, drop-append done (m ∷ (ms ++ rest)), width) (take-append (m ∷ ms) rest)

rest-kept :
    (done pending : List Message) → apply_summaries (done ++ pending) [] (length done) ≡ pending
unfolding apply_summaries
rest-kept done [] = ground (arith, drop-append done [])
rest-kept done (m ∷ ms) = ground (arith, drop-append done (m ∷ ms), length-append done (m ∷ ms))

apply-step :
    (t : List Message) (s : BranchSummary) (ss : List BranchSummary) (last_end : ℕ)
    → last_end ≤ s.start_idx
    → apply_summaries t (s ∷ ss) last_end
      ≡ gap t last_end s.start_idx
        ++ new_branch_summary_message s.summary ∷ apply_summaries t ss s.end_idx
unfolding apply_summaries
apply-step t s ss last_end h =
    let disjoint : ltb s.start_idx last_end ≡ false = ground arith in rw disjoint

apply-parts :
    (done pending : List Message) (ps : List Part) (t : List Message) (n : ℕ)
    → t ≡ done ++ (pending ++ transcript_of ps)
    → n ≡ length done + length pending
    → apply_summaries t (summaries_from n ps) (length done) ≡ pending ++ context_of ps
unfolding summaries_from transcript_of context_of
apply-parts done pending [] t n e i = rw (e, append-nil) (rest-kept done pending)
apply-parts done pending (kept ms ∷ ps) t n e i =
    apply-parts done (pending ++ ms) ps t (n + length ms)
      (e ∙ ap (λ l. done ++ l) (sym (append_assoc pending ms (transcript_of ps))))
      (omega (arith, length-append pending ms))
    ∙ append_assoc pending ms (context_of ps)
apply-parts done pending (folded ms s ∷ ps) t n e i =
    let next : List Message = done ++ (pending ++ ms) in
    let summaries : List BranchSummary = summaries_from (n + length ms) ps in
    let end : length next ≡ n + length ms =
      omega (arith, length-append done (pending ++ ms), length-append pending ms) in
    let later : apply_summaries t summaries (length next) ≡ context_of ps =
      apply-parts next [] ps t (n + length ms) (e ∙ simp append_assoc) (omega arith) in
    let before : gap t (length done) n ≡ pending =
      rw (e, i) (gap-kept done pending (ms ++ transcript_of ps)) in
    let mark : Message = new_branch_summary_message s.summary in
    apply-step t (record s { start_idx = n; end_idx = n + length ms }) summaries (length done)
      (omega arith)
    ∙ ap₂ (λ (a b : List Message). a ++ mark ∷ b) before
        (ap (apply_summaries t summaries) (sym end) ∙ later)

-- Where the summaries stand for disjoint parts of the transcript, in order, the model sees each
-- summary in the place of its part and every other message, without the bookkeeping entries.
pub build_llm_context-parts :
    (ps : List Part)
    → build_llm_context (transcript_of ps) (summaries_from 0 ps) ≡ drop_bookkeeping (context_of ps)
unfolding sort_summaries
build_llm_context-parts ps =
    let summaries : List BranchSummary = summaries_from 0 ps in
    build-eq-drop (transcript_of ps) summaries
    ∙ ap (λ ss. drop_bookkeeping (apply_summaries (transcript_of ps) ss 0))
        (sort_rounds-ascending (length summaries) summaries (summaries_from-IsAscending 0 ps))
    ∙ ap drop_bookkeeping (apply-parts [] [] ps (transcript_of ps) 0 refl (omega arith))

abbrev pub StartsAtZero : BranchSummary → Type 0
StartsAtZero s = s.start_idx ≡ 0

zeros-AtLeast : (n : ℕ) (ss : List BranchSummary) → n ≡ 0 → All StartsAtZero ss → AtLeast n ss
zeros-AtLeast n [] e h = tt
zeros-AtLeast n (s ∷ ss) e (h, hs) = (omega arith, zeros-AtLeast n ss e hs)

zeros-IsAscending : (ss : List BranchSummary) → All StartsAtZero ss → IsAscending ss
zeros-IsAscending [] h = tt
zeros-IsAscending (s ∷ ss) (h, hs) = (zeros-AtLeast s.start_idx ss h hs, zeros-IsAscending ss hs)

rest-drop : (t : List Message) (n : ℕ) → apply_summaries t [] n ≡ drop n t
unfolding apply_summaries
rest-drop t n = elim (Bool-cases (ltb n (length t))) [
  | inl inside ↦ rw inside
  | inr beyond ↦ rw beyond (sym (drop-beyond n t (omega tests)))
]

zeros-skipped :
    (t : List Message) (n : ℕ) (ss : List BranchSummary)
    → 0 < n
    → All StartsAtZero ss
    → apply_summaries t ss n ≡ drop n t
unfolding apply_summaries
zeros-skipped t n [] h z = rest-drop t n
zeros-skipped t n (s ∷ ss) h (z, zs) =
    let skip : ltb s.start_idx n ≡ true = ground arith in rw skip (zeros-skipped t n ss h zs)

-- Where every summary starts at index 0, as Compact writes them, and the first that was recorded ends
-- behind it, the first decides: it stands for its own range, and the later summaries, whatever they cover, change nothing.
pub build_llm_context-first_summary :
    (t : List Message) (s : BranchSummary) (ss : List BranchSummary)
    → s.start_idx ≡ 0
    → All StartsAtZero ss
    → 0 < s.end_idx
    → build_llm_context t (s ∷ ss)
      ≡ drop_bookkeeping (new_branch_summary_message s.summary ∷ drop s.end_idx t)
unfolding sort_summaries gap
build_llm_context-first_summary t s ss z zs h =
    let empty : gap t 0 s.start_idx ≡ [] = ground arith in
    build-eq-drop t (s ∷ ss)
    ∙ ap (λ l. drop_bookkeeping (apply_summaries t l 0))
        (sort_rounds-ascending (length (s ∷ ss)) (s ∷ ss) (zeros-IsAscending (s ∷ ss) (z, zs)))
    ∙ ap drop_bookkeeping (
        apply-step t s ss 0 (omega arith)
        ∙ ap₂ (λ (a b : List Message). a ++ new_branch_summary_message s.summary ∷ b) empty
            (zeros-skipped t s.end_idx ss h zs))
