-- ===== src/Compact/Summarize.antt =====
-- summarize and splitTurnSummarize of compact.go.
use Prim.Native.String.{◌++◌ as concat}
use resolute_agent_core_go.Prelude.{
  ℕ, String, Bool, false, ◌&&◌, List, [], ◌∷◌, ◌++◌, Option, none, some, Outcome, ok, err,
  if◌then◌else◌, ltb, str_eq, last?, length,
}
use resolute_agent_core_go.Message.{Message, Usage, new_branch_summary_message}
use resolute_agent_core_go.ModelRef.{parse_model_ref}
use resolute_agent_core_go.Compaction.{BranchSummary, CompactionPrep}
use resolute_agent_core_go.Retry.{RetryEvent, Failure, Summarized}
use resolute_agent_core_go.Compact.Prompts.{
  summarization_prompt, update_summarization_prompt, turn_prefix_summarization_prompt,
}
use resolute_agent_core_go.Compact.Request.{CompactEnv, add_usage, ask, with_instruction}

unfoldable pub combine_usage : Option Usage → Option Usage → Option Usage
unfolding add_usage
combine_usage none b = b
combine_usage (some a) none = some a
combine_usage (some a) (some b) = some (add_usage (some a) b)

pub data SummarizeError (E : Type 0) : Type 0 where
  no_model invalid_model : SummarizeError E
  loading_summaries : E → SummarizeError E
  summarizing history turn_prefix : Failure E → SummarizeError E

-- The summary and its usage, or the error, with the events of OnSummarizationRetry.
pub record SummaryRun (E W : Type 0) : Type 0 where
  pub answer : Outcome (SummarizeError E) (String × Option Usage)
  pub events : List (RetryEvent E)
  pub world : W

abbrev pub split_turn_heading : String
split_turn_heading = "\n\n---\n\n**Turn Context (split turn):**\n\n"

module _ {E W : Type 0} (env : CompactEnv E W) where
  unfoldable pub single_run : Summarized E W → SummaryRun E W
  single_run s = record {
    answer = elim s.answer [ ok a ↦ ok a | err f ↦ err (summarizing f) ];
    events = s.events;
    world = s.world;
  }

  -- The answer of the second call behind that of the first.
  unfoldable pub combined :
      String × Option Usage → List (RetryEvent E) → Summarized E W → SummaryRun E W
  unfolding combine_usage
  combined first events s = record {
    answer = elim s.answer [
      | ok (turn, usage) ↦
          ok (concat first.0 (concat split_turn_heading turn), combine_usage first.1 usage)
      | err f ↦ err (turn_prefix f)
    ];
    events = events ++ s.events;
    world = s.world;
  }

  unfoldable pub turn_run :
      String × Option Usage
      → List (RetryEvent E)
      → Option (Summarized E W)
      → Option (SummaryRun E W)
  turn_run first events none = none
  turn_run first events (some s) = some (combined first events s)

  -- The second call is made only behind an answer to the first.
  unfoldable pub history_run :
      String → CompactionPrep → ℕ → Option (Summarized E W) → Option (SummaryRun E W)
  history_run model prep fuel none = none
  history_run model prep fuel (some s) = elim s.answer [
    | err f ↦ some (record { answer = err (history f); events = s.events; world = s.world })
    | ok first ↦ turn_run first s.events (
        ask env model (with_instruction env prep.prefix turn_prefix_summarization_prompt) fuel
          s.world)
  ]

  unfoldable pub split_turn_summarize : String → CompactionPrep → ℕ → W → Option (SummaryRun E W)
  split_turn_summarize model prep fuel w =
      history_run model prep fuel
        (ask env model (with_instruction env prep.prefix summarization_prompt) fuel w)

  -- The messages of a request, with the summary that it is to update, if there is one.
  unfoldable pub request_messages : List BranchSummary → CompactionPrep → List Message
  request_messages summaries prep = elim (last? summaries) [
    | none ↦ with_instruction env prep.prefix summarization_prompt
    | some earlier ↦
        with_instruction env (new_branch_summary_message earlier.summary ∷ prep.prefix)
          update_summarization_prompt
  ]

  -- The prefix ends in a call whose result is kept. A cut behind index 0 leaves a last message.
  unfoldable pub is_mid_turn : CompactionPrep → Bool
  is_mid_turn prep =
      ltb 0 (length prep.kept_tail)
      && ltb 0 prep.cut_idx
      && elim (last? prep.prefix) [ none ↦ false | some m ↦ str_eq m.type "tool_call" ]

  unfoldable pub single : Option (Summarized E W) → Option (SummaryRun E W)
  single none = none
  single (some s) = some (single_run s)

  unfoldable pub with_summaries :
      String → CompactionPrep → ℕ → Outcome E (List BranchSummary) × W → Option (SummaryRun E W)
  with_summaries model prep fuel (err e, w) =
      some (record { answer = err (loading_summaries e); events = []; world = w })
  with_summaries model prep fuel (ok summaries, w) =
      if is_mid_turn prep
      then split_turn_summarize model prep fuel w
      else single (ask env model (request_messages summaries prep) fuel w)

  unfoldable pub refused : SummarizeError E → W → Option (SummaryRun E W)
  refused e w = some (record { answer = err e; events = []; world = w })

  -- `none` is fuel that ran out. The first string is the session's id, the second the default model.
  unfoldable pub summarize : String → String → CompactionPrep → ℕ → W → Option (SummaryRun E W)
  summarize sid default_model prep fuel w =
      if str_eq default_model "" then refused no_model w else elim (parse_model_ref default_model) [
        | none ↦ refused invalid_model w
        | some (provider, model) ↦ with_summaries model prep fuel (env.load_branch_summaries sid w)
      ]
