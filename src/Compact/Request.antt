-- ===== src/Compact/Request.antt =====
-- A request for a summary in compact.go: summarizeOnce, and what Compact calls.
use Prim.Native.Char.{code}
use Prim.Native.String.{◌++◌ as concat}
use resolute_agent_core_go.Prelude.{
  ℕ, String, Bool, true, false, ◌&&◌, ◌||◌, List, [], ◌∷◌, ◌++◌, Option, none, some, ℤ, ◌+ℤ◌,
  Outcome, ok, err, if◌then◌else◌, leb, ◌==◌, str_eq,
}
use resolute_agent_core_go.Json.{RawMessage}
use resolute_agent_core_go.Message.{Message, Usage, new_system, new_text}
use resolute_agent_core_go.Convert.{LlmMessage, default_convert_to_llm}
use resolute_agent_core_go.Compaction.{BranchSummary, CompactionBudget}
use resolute_agent_core_go.Retry.{
  Sentinel, Services, SummarizationRetryPolicy, Summarized, summarize_with_llm,
}
use resolute_agent_core_go.Compact.Prompts.{summarization_system_prompt}

-- The events of a provider's stream that summarizeOnce reads, and the others.
pub data SummaryEvent : Type 0 where
  text_delta : String → SummaryEvent
  used : Usage → SummaryEvent
  ended_at_length ended_otherwise other_event : SummaryEvent

-- llm.LLMRequest, as summarizeOnce fills it.
pub record SummaryRequest : Type 0 where
  pub model : String
  pub messages : List LlmMessage

-- What Compact calls and reads: the provider, errors.Is, the timer and the clock, the session, the
-- hooks, where they are set, and the settings of AgentConfig for compaction. `truncated` is the error
-- for ErrSummaryTruncated.
pub record CompactEnv (E W : Type 0) : Type 0 where
  pub stream : SummaryRequest → W → List SummaryEvent × Option E × W
  pub is_a : Sentinel → E → Bool
  pub truncated : E
  pub sleep : ℤ → W → Option E × W
  pub now : W → ℕ × W
  pub load : String → W → Outcome E (List Message) × W
  pub load_branch_summaries : String → W → Outcome E (List BranchSummary) × W
  pub append_branch_summary : String → BranchSummary → W → Option E × W
  pub before_compact : Option (String → ℕ → W → Option E × W)
  pub after_compact : Option (String → BranchSummary → W → W)
  pub body_text : RawMessage → String
  pub model_overrides : List (String × CompactionBudget)
  pub retry : SummarizationRetryPolicy

-- The variables that the loop over the stream fills; `at_length` is stop == StopReasonLength.
pub record Collecting : Type 0 where
  pub summary : String
  pub usage : Option Usage
  pub at_length : Bool

unfoldable pub add_usage : Option Usage → Usage → Usage
unfolding ◌+ℤ◌
add_usage none u = u
add_usage (some v) u = record {
  input_tokens = v.input_tokens +ℤ u.input_tokens;
  output_tokens = v.output_tokens +ℤ u.output_tokens;
}

unfoldable pub collect_event : SummaryEvent → Collecting → Collecting
unfolding add_usage
collect_event (text_delta t) c = record c { summary = concat c.summary t }
collect_event (used u) c = record c { usage = some (add_usage c.usage u) }
collect_event ended_at_length c = record c { at_length = true }
collect_event ended_otherwise c = record c { at_length = false }
collect_event other_event c = c

unfoldable pub collect_events : List SummaryEvent → Collecting → Collecting
unfolding collect_event
collect_events [] c = c
collect_events (e ∷ es) c = collect_events es (collect_event e c)

-- unicode.IsSpace
is_space : ℕ → Bool
is_space c =
    (leb 9 c && leb c 13)
    || c == 32
    || c == 133
    || c == 160
    || c == 5760
    || (leb 8192 c && leb c 8202)
    || c == 8232
    || c == 8233
    || c == 8239
    || c == 8287
    || c == 12288

trim_left : String → String
unfolding is_space
trim_left String.[] = String.[]
trim_left (String.◌∷◌ c s) =
    let rest = trim_left s in if is_space (code c) then rest else String.◌∷◌ c s

trim_right : String → String
unfolding is_space
trim_right String.[] = String.[]
trim_right (String.◌∷◌ c s) =
    let rest = trim_right s in if is_space (code c) && str_eq rest "" then "" else String.◌∷◌ c rest

-- strings.TrimSpace
unfoldable pub trim_space : String → String
unfolding trim_left trim_right
trim_space s = trim_right (trim_left s)

module _ {E W : Type 0} (env : CompactEnv E W) where
  unfoldable pub collected :
      List SummaryEvent × Option E × W → Outcome E (String × Option Usage) × W
  unfolding collect_events trim_space
  collected (events, some e, w) = (err e, w)
  collected (events, none, w) =
      let c = collect_events events (record { summary = ""; usage = none; at_length = false }) in
      (if c.at_length then err env.truncated else ok (trim_space c.summary, c.usage), w)

  unfoldable pub summarize_once : String → List Message → W → Outcome E (String × Option Usage) × W
  summarize_once model msgs w = collected (
      env.stream (record { model = model; messages = default_convert_to_llm env.body_text msgs }) w)

  unfoldable pub services : String → List Message → Services E W
  services model msgs = record {
    is_a = env.is_a;
    once = summarize_once model msgs;
    sleep = env.sleep;
  }

  unfoldable pub ask : String → List Message → ℕ → W → Option (Summarized E W)
  ask model msgs fuel w = summarize_with_llm (services model msgs) env.retry fuel w

  -- The system prompt, the messages to summarize and the instruction.
  unfoldable pub with_instruction : List Message → String → List Message
  with_instruction msgs instruction =
      (new_system summarization_system_prompt ∷ msgs) ++ new_text "user" instruction ∷ []
