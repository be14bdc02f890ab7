-- ===== src/Loop/Machine.antt =====
-- What the prompt loop works on: the events of event.go, the state of a promptRun, the world around
-- it, and the steps that read and write them (prompt.go, agent_state.go).
-- E is the type of Go errors, L of thinking levels, X of what a tool runs, and W is everything that
-- lives outside the promptRun: the session, the Agent, the queues of Steer and FollowUp, the clock.
use resolute_agent_core_go.Prelude.{
  ℕ, String, Bool, List, [], ◌∷◌, ◌++◌, Option, none, some, ℤ, Outcome, ok, err,
}
use resolute_agent_core_go.Json.{RawMessage}
use resolute_agent_core_go.Message.{Message, Usage, ToolResult}
use resolute_agent_core_go.Compaction.{BranchSummary}
use resolute_agent_core_go.ActiveTools.{RegisteredTool}
use resolute_agent_core_go.Config.{Agent}
use resolute_agent_core_go.Convert.{LlmMessage}

-- llm.ToolCallContent, as a stream finalizes it
pub record ToolCallContent : Type 0 where
  pub call_id : String
  pub tool_name : String
  pub args : RawMessage
  pub thought_signature : List ℕ

-- The events of event.go that a prompt emits; a ToolLeakEvent without its duration, a
-- ThinkingUnsupportedEvent without its constant reason, an LLMRetryEvent with its delay in milliseconds.
pub data AgentEvent (E : Type 0) : Type 0 where
  agent_start : AgentEvent E
  agent_end : List Message → AgentEvent E
  message_start : String → String → AgentEvent E
  message_end : Option Message → AgentEvent E
  turn_start turn_end : ℕ → AgentEvent E
  text_delta thinking_delta : String → List ℕ → AgentEvent E
  tool_call_start : ToolCallContent → AgentEvent E
  tool_call_end tool_update : String → String → ToolResult → AgentEvent E
  tool_error : String → String → E → AgentEvent E
  llm_error : E → Bool → AgentEvent E
  llm_retry : String → String → ℕ → ℕ → String → Bool → AgentEvent E
  thinking_unsupported : String → String → String → AgentEvent E
  tool_leak : String → String → AgentEvent E
  steer_injected follow_up_injected : Message → AgentEvent E

pub data AgentPhase : Type 0 where
  idle waiting_llm executing_tools compacting shutting_down over : AgentPhase

pub record PromptResult (E : Type 0) : Type 0 where
  pub messages : List Message
  pub error : Option E
  pub suspended : Bool

-- promptRun, with the events that were emitted and the result that was delivered, oldest first.
pub record PromptRun (L E : Type 0) : Type 0 where
  pub opt_model : String
  pub opt_thinking : L
  pub model : String
  pub thinking : L
  pub session_id : String
  pub phase : AgentPhase
  pub turn : ℕ
  pub transcript : List Message
  pub branch_summaries : List BranchSummary
  pub terminated : Bool
  pub suspended : Bool
  pub events : List (AgentEvent E)
  pub results : List (PromptResult E)

pub record Machine (L E W : Type 0) : Type 0 where
  pub run : PromptRun L E
  pub world : W

-- The preparedCall of a tool call.
pub data PreparedCall (X E : Type 0) : Type 0 where
  immediate : String → String → E → PreparedCall X E
  runnable : String → String → RawMessage → RegisteredTool X → PreparedCall X E

-- What the goroutines of a batch do, in the order in which it happens: a tool streams a partial
-- result, or a call finishes, with what Execute and the AfterToolCall hook returned. A call is named
-- by its index.
pub data BatchStep (E : Type 0) : Type 0 where
  updated : ℕ → ToolResult → BatchStep E
  finished : ℕ → Outcome E ToolResult → Option E → BatchStep E

-- How the wait for a batch ends: all calls have finished, also after a cancellation, or the shutdown
-- timeout has passed after a cancellation with its cause.
pub data BatchEnd (E : Type 0) : Type 0 where
  waited honored : BatchEnd E
  abandoned : E → BatchEnd E

-- What becomes of a batch: the steps until the wait for it ends, and how that is.
pub record BatchRun (E : Type 0) : Type 0 where
  pub steps : List (BatchStep E)
  pub end : BatchEnd E

-- The reasons why a stream ends, of which the code knows one.
pub data StopReason : Type 0 where
  length_limit other_reason : StopReason

-- The events of a provider's stream.
pub data StreamEvent (E : Type 0) : Type 0 where
  text : String → List ℕ → StreamEvent E
  thought : String → List ℕ → StreamEvent E
  call_start : StreamEvent E
  call_end : ToolCallContent → StreamEvent E
  failed : E → Bool → StreamEvent E
  retrying : String → String → ℕ → ℕ → String → Bool → StreamEvent E
  used : Usage → StreamEvent E
  ended : StopReason → StreamEvent E

-- llm.LLMRequest, without hints, transport and the two hooks on headers, which the code passes on.
pub record LlmRequest (X L : Type 0) : Type 0 where
  pub model : String
  pub messages : List LlmMessage
  pub tools : List (RegisteredTool X)
  pub thinking : L
  pub thinking_budgets : List (L × ℤ)
  pub session_id : String

pub record Provider (X L E W : Type 0) : Type 0 where
  pub name : String
  -- Capabilities(model).Thinking
  pub can_think : String → Bool
  -- The events of the stream, and the error of its Done.
  pub stream : LlmRequest X L → W → (List (StreamEvent E) × Option E) × W

-- What the loop calls outside of itself. A hook that is not set is `none`.
pub record Environment (X L E W : Type 0) : Type 0 where
  -- the Agent as its setters left it, and the removal of its queue of active-tools changes
  pub agent : W → Agent X L × W
  pub take_pending : W → List (Option (List String)) × W
  -- the session
  pub append : String → Message → W → Option E × W
  pub load : String → W → Outcome E (List Message) × W
  pub load_branch_summaries : String → W → Outcome E (List BranchSummary) × W
  -- context.Cause(ctx), once ctx is done
  pub cancelled : W → Option E × W
  pub steer : W → Option Message × W
  pub follow_up : W → Option Message × W
  pub providers : List (Provider X L E W)
  pub convert_to_llm : List Message → List LlmMessage
  pub transform_context : Option (List Message → W → Outcome E (List Message) × W)
  pub should_stop_after_turn : Option (ℕ → Bool → W → Bool × W)
  pub before_tool_call : Option (ToolCallContent → W → Option E × W)
  -- the goroutines of a batch
  pub run_batch : List (PreparedCall X E) → W → BatchRun E × W
  -- running.Add(-1), at the end of the loop
  pub release : W → W
  -- %q of fmt
  pub quoted : String → String
  -- errors: their text, errors.Is, the sentinels and fmt.Errorf with %w
  pub error_text : E → String
  pub is_agent_stopped : E → Bool
  pub is_prompt_cancelled : E → Bool
  pub is_canceled : E → Bool
  pub agent_stopped : E
  pub prompt_cancelled : E
  pub tool_not_found : E
  pub invalid_model_ref : String → E
  pub provider_not_found : String → E
  pub wrapped : String → E → E
  -- llm.ThinkingOff
  pub thinking_off : L
  pub is_off : L → Bool
  pub level_text : L → String

-- A step of the loop: it returns or fails, and leaves the machine.
abbrev pub M : Type 0 → Type 0 → Type 0 → Type 0 → Type 0
M L E W A = Machine L E W → Outcome E A × Machine L E W

module _ {L E W : Type 0} where
  abbrev pub pure : {A : Type 0} → A → M L E W A
  pure a m = (ok a, m)

  abbrev pub throw : {A : Type 0} → E → M L E W A
  throw e m = (err e, m)

  abbrev pub continue :
      {A B : Type 0} → (A → M L E W B) → Outcome E A × Machine L E W → Outcome E B × Machine L E W
  continue f (ok a, m) = f a m
  continue f (err e, m) = (err e, m)

  infixl 5 ◌>>=◌ ◌>>◌
  unfoldable pub ◌>>=◌ : {A B : Type 0} → M L E W A → (A → M L E W B) → M L E W B
  ◌>>=◌ step f m = continue f (step m)

  abbrev pub ◌>>◌ : {B : Type 0} → M L E W (Unit {0}) → M L E W B → M L E W B
  first >> second = first >>= λ _. second

  -- A call of the world.
  abbrev pub ask : {A : Type 0} → (W → A × W) → M L E W A
  ask f m = (ok (f m.world).0, record m { world = (f m.world).1 })

  abbrev pub get_run : M L E W (PromptRun L E)
  get_run m = (ok m.run, m)

  abbrev pub modify : (PromptRun L E → PromptRun L E) → M L E W (Unit {0})
  modify f m = (ok tt, record m { run = f m.run })

  -- An error value of Go, as a failure of the step that returns it.
  abbrev pub check : Option E → M L E W (Unit {0})
  check none m = (ok tt, m)
  check (some e) m = (err e, m)

  abbrev pub from_outcome : {A : Type 0} → Outcome E A → M L E W A
  from_outcome o m = (o, m)

  -- emit; the consumer of the events is not part of the model, which may drop some
  unfoldable pub emit : AgentEvent E → M L E W (Unit {0})
  emit e = modify (λ r. record r { events = r.events ++ e ∷ [] })

  unfoldable pub set_phase : AgentPhase → M L E W (Unit {0})
  set_phase p = modify (λ r. record r { phase = p })
