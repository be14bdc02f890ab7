-- ===== src/Compaction.antt =====
-- compact.go: the settings, the token estimate, the choice of a cut point and the context that is
-- sent to the model. Indices into a transcript are natural numbers: Compact writes no other.
pub mod CutPoint
pub mod Context
use Prim.Native.String.{len}
use resolute_agent_core_go.Prelude.{
  ℕ, zero, suc, ◌+◌, ◌-◌, ◌*◌, ◌/◌, ◌≤◌, String, Bool, true, false, ◌&&◌, ◌||◌, not, List, [], ◌∷◌,
  ◌++◌, Option, none, some, ℤ, pos, ltb_ℤ, leb_ℤ, ◌-ℤ◌, ltb, leb, str_eq, if◌then◌else◌, length,
  get_elem?, take, drop, last?,
}
use resolute_agent_core_go.Json.{raw_len}
use resolute_agent_core_go.Message.{Message, Usage, new_branch_summary_message}
use resolute_agent_core_go.ModelRef.{parse_model_ref}

pub record CompactionBudget : Type 0 where
  pub reserve_tokens : ℤ
  pub keep_recent_tokens : ℤ

-- The map of overrides is an association list; a key stands in it at most once.
pub record CompactionSettings : Type 0 where
  pub enabled : Bool
  pub reserve_tokens : ℤ
  pub keep_recent_tokens : ℤ
  pub model_overrides : List (String × CompactionBudget)

unfoldable pub override_for : String → List (String × CompactionBudget) → Option CompactionBudget
override_for model [] = none
override_for model ((m, b) ∷ rest) = if str_eq m model then some b else override_for model rest

-- The full reference first, then the bare model id.
find_override : List (String × CompactionBudget) → String → Option CompactionBudget
unfolding override_for
find_override overrides model = elim (override_for model overrides) [
  | some ov ↦ some ov
  | none ↦ elim (parse_model_ref model) [
    | none ↦ none
    | some (provider, bare) ↦ override_for bare overrides
  ]
]

overlay : CompactionBudget → CompactionSettings → CompactionSettings
overlay ov s = record s {
  reserve_tokens = if ltb_ℤ (pos 0) ov.reserve_tokens then ov.reserve_tokens else s.reserve_tokens;
  keep_recent_tokens =
      if ltb_ℤ (pos 0) ov.keep_recent_tokens then ov.keep_recent_tokens else s.keep_recent_tokens;
}

-- The early return for no overrides is the case in which find_override finds none.
unfoldable pub for_model : CompactionSettings → String → CompactionSettings
unfolding find_override overlay
for_model s model =
    if str_eq model ""
    then s
    else elim (find_override s.model_overrides model) [ none ↦ s | some ov ↦ overlay ov s ]

abbrev pub default_compaction_settings : CompactionSettings
default_compaction_settings = record {
  enabled = true;
  reserve_tokens = pos 16384;
  keep_recent_tokens = pos 20000;
  model_overrides = [];
}

unfoldable pub should_compact : ℤ → ℤ → CompactionSettings → Bool
unfolding ◌-ℤ◌
should_compact context_tokens context_window s =
    if not s.enabled || leb_ℤ context_window (pos 0)
    then false
    else ltb_ℤ (context_window -ℤ s.reserve_tokens) context_tokens

-- `len` of a text is its length in bytes of UTF-8, as in Go.
unfoldable pub chars_of : Message → ℕ
unfolding raw_len
chars_of m = raw_len m.body + len m.role + len m.type + 4800 * length m.images

total_chars : List Message → ℕ
unfolding chars_of
total_chars [] = 0
total_chars (m ∷ ms) = chars_of m + total_chars ms

unfoldable pub estimate_tokens : List Message → ℕ
unfolding total_chars
estimate_tokens ms = (total_chars ms + 3) / 4

unfoldable pub estimate_message_tokens : Message → ℕ
unfolding chars_of
estimate_message_tokens m = (chars_of m + 3) / 4

-- session.go
pub record BranchSummary : Type 0 where
  pub start_idx : ℕ
  pub end_idx : ℕ
  pub summary : String
  pub created_at : ℕ
  pub usage : Option Usage

-- One round of the outer loop of the sort: the head is exchanged with each smaller element.
sweep : BranchSummary → List BranchSummary → BranchSummary × List BranchSummary
sweep x [] = (x, [])
sweep x (y ∷ ys) =
    let swap = ltb y.start_idx x.start_idx in
    let (m, rest) = sweep (if swap then y else x) ys in (m, (if swap then x else y) ∷ rest)

-- The fuel is the length of the list.
sort_rounds : ℕ → List BranchSummary → List BranchSummary
unfolding sweep
sort_rounds (suc n) (x ∷ xs) = let (m, rest) = sweep x xs in m ∷ sort_rounds n rest
sort_rounds _ xs = xs

unfoldable pub sort_summaries : List BranchSummary → List BranchSummary
unfolding sort_rounds
sort_summaries xs = sort_rounds (length xs) xs

-- transcript[from:to]
abbrev pub slice : ℕ → ℕ → List Message → List Message
slice from to transcript = take (to - from) (drop from transcript)

-- The messages before a summary, where the guard on the range holds.
gap : List Message → ℕ → ℕ → List Message
gap transcript last_end start =
    if ltb last_end start && leb start (length transcript)
    then slice last_end start transcript
    else []

apply_summaries : List Message → List BranchSummary → ℕ → List Message
unfolding gap
apply_summaries transcript [] last_end =
    if ltb last_end (length transcript) then drop last_end transcript else []
apply_summaries transcript (s ∷ ss) last_end =
    let skipped = apply_summaries transcript ss last_end in
    let applied =
      gap transcript last_end s.start_idx
      ++ new_branch_summary_message s.summary ∷ apply_summaries transcript ss s.end_idx in
    if ltb s.start_idx last_end then skipped else applied

abbrev pub is_bookkeeping : Message → Bool
is_bookkeeping m = str_eq m.type "active_tools_change"

pub has_bookkeeping : List Message → Bool
has_bookkeeping [] = false
has_bookkeeping (m ∷ ms) = is_bookkeeping m || has_bookkeeping ms

unfoldable pub drop_bookkeeping : List Message → List Message
drop_bookkeeping [] = []
drop_bookkeeping (m ∷ ms) =
    let rest = drop_bookkeeping ms in if is_bookkeeping m then rest else m ∷ rest

unfoldable pub exclude_bookkeeping : List Message → List Message
unfolding has_bookkeeping drop_bookkeeping
exclude_bookkeeping ms = if has_bookkeeping ms then drop_bookkeeping ms else ms

unfoldable pub build_llm_context : List Message → List BranchSummary → List Message
unfolding sort_summaries apply_summaries exclude_bookkeeping
build_llm_context transcript [] = exclude_bookkeeping transcript
build_llm_context transcript (s ∷ ss) =
    exclude_bookkeeping (apply_summaries transcript (sort_summaries (s ∷ ss)) 0)

unfoldable pub is_valid_cut_point : Message → Bool
is_valid_cut_point m =
    if str_eq m.type "tool_result" || str_eq m.type "active_tools_change" then false else true

-- The inner loop of findCutPoint: the first valid cut point at or after i.
first_valid : List Message → ℕ → Option ℕ
unfolding is_valid_cut_point
first_valid [] j = none
first_valid (m ∷ ms) j = if is_valid_cut_point m then some j else first_valid ms (suc j)

cut_at : List Message → ℕ → ℕ
unfolding first_valid
cut_at msgs i = elim (first_valid (drop i msgs) i) [ some j ↦ j | none ↦ i ]

tokens_at : List Message → ℕ → ℕ
unfolding estimate_message_tokens
tokens_at msgs i = elim (get_elem? msgs i) [ some m ↦ estimate_message_tokens m | none ↦ 0 ]

-- The outer loop: `suc i` messages are left, and the newest of them is msgs[i].
walk_back : List Message → ℤ → ℕ → ℕ → ℕ
unfolding cut_at tokens_at
walk_back msgs keep zero tokens = 0
walk_back msgs keep (suc i) tokens =
    let sum = tokens + tokens_at msgs i in
    let older = walk_back msgs keep i sum in if leb_ℤ keep (pos sum) then cut_at msgs i else older

unfoldable pub find_cut_point : List Message → ℤ → ℕ
unfolding walk_back
find_cut_point msgs keep = walk_back msgs keep (length msgs) 0

pub record CompactionPrep : Type 0 where
  pub cut_idx : ℕ
  pub prefix : List Message
  pub kept_tail : List Message

ends_in_summary : List Message → Bool
ends_in_summary msgs = elim (last? msgs) [ none ↦ false | some m ↦ str_eq m.type "branch_summary" ]

-- `none` is a nil plan: nothing to compact.
unfoldable pub prepare_compaction : List Message → CompactionSettings → Option CompactionPrep
unfolding ends_in_summary
prepare_compaction [] settings = none
prepare_compaction (m ∷ ms) settings =
    let cut = find_cut_point (m ∷ ms) settings.keep_recent_tokens in
    if ends_in_summary (m ∷ ms) || leb cut 0
    then none
    else some (record { cut_idx = cut; prefix = take cut (m ∷ ms); kept_tail = drop cut (m ∷ ms) })
