-- ===== src/Examples/Compacting.antt =====
-- The cut of a transcript, and what the model sees of a compacted one.
use resolute_agent_core_go.Prelude.{
  true, List, [], ◌∷◌, ◌++◌, none, ◌≡◌, refl, arith, pos, ◌<◌, length,
}
use resolute_agent_core_go.Json.{text_len}
use resolute_agent_core_go.Message.{Message, new_text, new_active_tools_change}
use resolute_agent_core_go.Compaction.{
  BranchSummary, CompactionSettings, CompactionPrep, drop_bookkeeping, build_llm_context,
  find_cut_point, prepare_compaction,
}
use resolute_agent_core_go.Compaction.CutPoint.{
  CutBy, find_cut_point-CutBy, prepare_compaction-divides,
}
use resolute_agent_core_go.Compaction.Context.{
  Part, kept, folded, transcript_of, summaries_from, context_of, build_llm_context-parts,
}

abbrev talk : List Message
talk =
    new_text "user" "12345678"
    ∷ new_text "assistant" "12345678"
    ∷ new_active_tools_change none
    ∷ new_text "user" "1234"
    ∷ []

abbrev small_budget : CompactionSettings
small_budget = record {
  enabled = true;
  reserve_tokens = pos 16384;
  keep_recent_tokens = pos 3;
  model_overrides = [];
}

abbrev summary_of_two : BranchSummary
summary_of_two = record {
  start_idx = 0;
  end_idx = 2;
  summary = "numbers";
  created_at = 1;
  usage = none;
}

abbrev summary_of_three : BranchSummary
summary_of_three = record summary_of_two { end_idx = 3; created_at = 2 }

abbrev parts : List Part
parts =
    folded (new_text "user" "a" ∷ new_text "assistant" "b" ∷ []) summary_of_two
    ∷ kept (new_text "user" "c" ∷ [])
    ∷ []

find_cut_point-CutBy_example : CutBy talk (pos 3) (find_cut_point talk (pos 3))
find_cut_point-CutBy_example = find_cut_point-CutBy talk (pos 3) (omega arith)

abbrev plan : CompactionPrep
plan = record {
  cut_idx = 3;
  prefix =
      new_text "user" "12345678"
      ∷ new_text "assistant" "12345678"
      ∷ new_active_tools_change none
      ∷ [];
  kept_tail = new_text "user" "1234" ∷ [];
}

prepare_compaction-divides_example :
    (plan.prefix ++ plan.kept_tail ≡ talk)
    × (length plan.prefix ≡ plan.cut_idx)
    × (0 < plan.cut_idx)
    × (0 < length plan.kept_tail)
unfolding prepare_compaction new_text new_active_tools_change find_cut_point text_len
prepare_compaction-divides_example =
    prepare_compaction-divides talk small_budget plan (omega arith) refl

build_llm_context-parts_example :
    build_llm_context (transcript_of parts) (summaries_from 0 parts)
    ≡ drop_bookkeeping (context_of parts)
build_llm_context-parts_example = build_llm_context-parts parts
