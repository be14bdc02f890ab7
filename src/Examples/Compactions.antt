-- ===== src/Examples/Compactions.antt =====
-- Compactions of a session by an agent.
use mathlib.Core.Option.{none-ne-some}
use resolute_agent_core_go.ModelRef.{parse_model_ref}
use resolute_agent_core_go.Prelude.{
  String, false, List, [], ◌∷◌, ◌++◌, none, some, ok, ◌≡◌, refl, arith, pos, drop,
}
use resolute_agent_core_go.Json.{text_len}
use resolute_agent_core_go.Message.{
  Message, new_text, new_branch_summary_message, new_active_tools_change,
}
use resolute_agent_core_go.Compaction.{
  BranchSummary, drop_bookkeeping, find_cut_point, prepare_compaction, for_model,
}
use resolute_agent_core_go.Retry.{summarize_with_llm}
use resolute_agent_core_go.Config.{Agent, AgentConfig, is_running}
use resolute_agent_core_go.Compact.Summarize.{
  single_run, single, is_mid_turn, with_summaries, summarize,
}
use resolute_agent_core_go.Compact.Request.{
  CompactEnv, text_delta, ended_otherwise, collected, collect_events, trim_space, summarize_once,
  services, ask,
}
use resolute_agent_core_go.Compact.Store.{Contents, IsStore}
use resolute_agent_core_go.Compact.Recorded.{CompactCase, compact-CompactCase}
use resolute_agent_core_go.Compact.Effect.{context_of, compact-first_context, compact-same_context}
use resolute_agent_core_go.Compact.{
  CompactOpts, CompactResult, Compacted, settings_of, notify_after, after_append, record_summary,
  after_summarize, after_before_hook, run_before_hook, with_plan, with_messages,
  session_id_from_config_or_last_run, session_to_compact, compact,
}

abbrev settings : AgentConfig Unit Unit
settings = record {
  default_model = "p/m";
  system_prompt = "";
  tools = [];
  active_tool_names = none;
  max_parallel_tools = pos 32;
  shutdown_timeout = pos 30000000000;
  event_buffer_size = pos 16;
  steer_buffer_size = pos 8;
  default_thinking = tt;
  thinking_budgets = [];
  reserve_tokens = pos 16384;
  keep_recent_tokens = pos 20000;
  skills = [];
}

abbrev agent : Agent Unit Unit
agent = record {
  config = settings;
  model = "p/m";
  tools = [];
  active_tool_names = none;
  system_prompt = "";
  thinking_level = tt;
  thinking_budgets = [];
  skills = [];
  pending_active_tools = [];
  running = 0;
  last_session_id = "s";
}

abbrev talk : List Message
talk =
    new_text "user" "12345678"
    ∷ new_text "assistant" "12345678"
    ∷ new_active_tools_change none
    ∷ new_text "user" "1234"
    ∷ []

-- One session with the talk; the world is its summaries.
abbrev contents : Contents (List BranchSummary)
contents = record { messages = λ id w. talk; summaries = λ id w. w }

abbrev compactor : CompactEnv String (List BranchSummary)
compactor = record {
  stream = λ r w. (text_delta " numbers\n" ∷ ended_otherwise ∷ [], none, w);
  is_a = λ s e. false;
  truncated = "truncated";
  sleep = λ d w. (none, w);
  now = λ w. (7, w);
  load = λ id w. (ok talk, w);
  load_branch_summaries = λ id w. (ok w, w);
  append_branch_summary = λ id s w. (none, w ++ s ∷ []);
  before_compact = none;
  after_compact = none;
  body_text = λ b. "";
  model_overrides = [];
  retry = record { max_retries = pos 2; base_delay = pos 1000; max_delay = pos 5000 };
}

compactor-IsStore : IsStore compactor contents
compactor-IsStore = record {
  stream_keeps = λ r w id. (refl, refl);
  sleep_keeps = λ d w id. (refl, refl);
  now_keeps = λ w id. (refl, refl);
  load_keeps = λ i w id. (refl, refl);
  loads = λ id w. refl;
  load_summaries_keeps = λ i w id. (refl, refl);
  appends = λ id s w. (refl, refl);
  before_keeps = λ hook set i cut w id. absurd (none-ne-some hook set);
  after_keeps = λ hook set i s w id. absurd (none-ne-some hook set);
}

abbrev opts : CompactOpts
opts = record { session_id = ""; keep_recent_tokens = pos 3 }

abbrev written : BranchSummary
written = record { start_idx = 0; end_idx = 3; summary = "numbers"; created_at = 7; usage = none }

abbrev result : CompactResult
result = record { summary = written; removed_count = 3 }

abbrev left : List BranchSummary → Compacted String (List BranchSummary)
left w = record { result = ok result; events = []; world = w ++ written ∷ [] }

abbrev earlier : BranchSummary
earlier = record { start_idx = 0; end_idx = 2; summary = "one"; created_at = 1; usage = none }

runs_first : compact agent compactor opts 2 [] ≡ some (left [])
unfolding compact session_to_compact is_running with_messages with_plan settings_of for_model
    prepare_compaction find_cut_point text_len new_text new_active_tools_change run_before_hook
    after_before_hook summarize with_summaries is_mid_turn single single_run ask summarize_with_llm
    services summarize_once collected collect_events trim_space after_summarize record_summary
    after_append notify_after session_id_from_config_or_last_run parse_model_ref
runs_first = refl

runs_again : compact agent compactor opts 2 (earlier ∷ []) ≡ some (left (earlier ∷ []))
unfolding compact session_to_compact is_running with_messages with_plan settings_of for_model
    prepare_compaction find_cut_point text_len new_text new_active_tools_change run_before_hook
    after_before_hook summarize with_summaries is_mid_turn single single_run ask summarize_with_llm
    services summarize_once collected collect_events trim_space after_summarize record_summary
    after_append notify_after session_id_from_config_or_last_run parse_model_ref
runs_again = refl

compact-CompactCase_example :
    (r : Compacted String (List BranchSummary)) × (compact agent compactor opts 2 [] ≡ some r)
    × CompactCase agent compactor contents 2
        (session_to_compact agent compactor opts)
        (settings_of agent compactor opts)
        []
        r.world
        r.result
compact-CompactCase_example =
    compact-CompactCase agent compactor contents compactor-IsStore 2 2 refl (omega arith) opts []

compact-first_context_example :
    context_of contents (session_to_compact agent compactor opts) (written ∷ [])
    ≡ new_branch_summary_message "numbers" ∷ drop_bookkeeping (drop 3 talk)
compact-first_context_example =
    compact-first_context agent compactor contents compactor-IsStore 2 2 refl (omega arith) opts []
      (left []) result runs_first refl (omega arith) refl

compact-same_context_example :
    context_of contents (session_to_compact agent compactor opts) (earlier ∷ written ∷ [])
    ≡ context_of contents (session_to_compact agent compactor opts) (earlier ∷ [])
compact-same_context_example =
    compact-same_context agent compactor contents compactor-IsStore 2 2 refl (omega arith) opts
      (earlier ∷ []) (left (earlier ∷ [])) result runs_again refl (omega arith) earlier [] refl
      (refl, tt) (omega arith)
