-- ===== src/Loop/Turn.antt =====
-- runOneTurn of prompt.go: a request to the provider, its stream, and the tools it calls.
use resolute_agent_core_go.Prelude.{
  ◌+◌, String, Bool, true, false, ◌||◌, List, [], ◌∷◌, Option, none, some, Outcome, ok, err, str_eq,
  if◌then◌else◌,
}
use resolute_agent_core_go.Message.{Message}
use resolute_agent_core_go.ModelRef.{parse_model_ref}
use resolute_agent_core_go.Compaction.{build_llm_context}
use resolute_agent_core_go.ActiveTools.{RegisteredTool}
use resolute_agent_core_go.Config.{TurnSnapshot, snapshot}
use resolute_agent_core_go.Convert.{LlmMessage}
use resolute_agent_core_go.Skills.{apply_skills_to_system_prompt}
use resolute_agent_core_go.Loop.Machine.{
  ToolCallContent, turn_start, turn_end, thinking_unsupported, waiting_llm, PromptRun, LlmRequest,
  Provider, length_limit, other_reason, StopReason, Environment, M, pure, throw, ◌>>=◌, ◌>>◌, ask,
  get_run, modify, check, from_outcome, emit, set_phase,
}
use resolute_agent_core_go.Loop.Stream.{Streamed, nothing_streamed, turn_messages, consume_all}
use resolute_agent_core_go.Loop.Tools.{
  append_transcript, check_cancelled, fail_truncated_tool_calls, execute_tools,
}

module _ {X L E W : Type 0} (env : Environment X L E W) where
  unfoldable pub find_provider : String → List (Provider X L E W) → Option (Provider X L E W)
  find_provider name [] = none
  find_provider name (p ∷ ps) = if str_eq p.name name then some p else find_provider name ps

  unfoldable pub provider_by_name : String → Outcome E (Provider X L E W)
  provider_by_name name = elim (find_provider name env.providers) [
    | none ↦ err (env.provider_not_found name)
    | some p ↦ ok p
  ]

  unfoldable pub resolve : String → Outcome E (Provider X L E W × String)
  resolve ref = elim (parse_model_ref ref) [
    | none ↦ err (env.invalid_model_ref ref)
    | some (name, model) ↦ elim (provider_by_name name) [ err e ↦ err e | ok p ↦ ok (p, model) ]
  ]

  unfoldable pub transformed : Outcome E (List Message) → M L E W (List LlmMessage)
  transformed (err e) = throw (env.wrapped "transform context hook" e)
  transformed (ok context) = pure (env.convert_to_llm context)

  -- The TransformContext hook and the conversion.
  unfoldable pub context_messages : List Message → M L E W (List LlmMessage)
  context_messages context = elim env.transform_context [
    | none ↦ pure (env.convert_to_llm context)
    | some hook ↦ ask (hook context) >>= transformed
  ]

  -- The thinking level that a model without thinking is not asked for.
  unfoldable pub supported : Provider X L E W → String → L → M L E W L
  supported p model thinking =
      if env.is_off thinking || p.can_think model
      then pure thinking
      else (emit (thinking_unsupported (env.level_text thinking) p.name model) >>= λ _.
          pure env.thinking_off)

  unfoldable pub next_turn_number : M L E W (Unit {0})
  next_turn_number = modify (λ r. record r { turn = r.turn + 1 })

  unfoldable pub start_turn : M L E W (Unit {0})
  start_turn = do
    set_phase waiting_llm
    next_turn_number
    started ← get_run
    emit (turn_start started.turn)

  unfoldable pub set_target : String → L → M L E W (Unit {0})
  set_target model thinking = modify (λ r. record r { model = model; thinking = thinking })

  unfoldable pub stream_error : Option E → Option E
  stream_error none = none
  stream_error (some e) = some (env.wrapped "llm stream" e)

  unfoldable pub request_of :
      TurnSnapshot X L → PromptRun L E → String → L → List LlmMessage → LlmRequest X L
  request_of snap run model level msgs = record {
    model = model;
    messages = apply_skills_to_system_prompt msgs snap.skills;
    tools = snap.tools;
    thinking = level;
    thinking_budgets = snap.thinking_budgets;
    session_id = run.session_id;
  }

  -- The request to the provider that was resolved, and what it streams.
  unfoldable pub send_request :
      TurnSnapshot X L
      → PromptRun L E
      → Provider X L E W × String
      → M L E W (Streamed × List (RegisteredTool X))
  send_request snap run target = do
    let thinking = if env.is_off run.opt_thinking then snap.thinking_level else run.opt_thinking
    set_target target.1 thinking
    msgs ← context_messages (build_llm_context run.transcript run.branch_summaries)
    level ← supported target.0 target.1 thinking
    reply ← ask (target.0.stream (request_of snap run target.1 level msgs))
    streamed ← consume_all env reply.0 nothing_streamed
    check (stream_error reply.1)
    pure (streamed, snap.tools)

  -- From the snapshot to what the provider streamed, with the turn's tools.
  unfoldable pub request_turn : M L E W (Streamed × List (RegisteredTool X))
  request_turn = do
    check_cancelled env
    agent ← ask env.agent
    let snap = snapshot agent
    run ← get_run
    target ← from_outcome (resolve (if str_eq run.opt_model "" then snap.model else run.opt_model))
    send_request snap run target

  unfoldable pub append_all : List Message → M L E W (Unit {0})
  append_all [] = pure tt
  append_all (m ∷ ms) = append_transcript env m >>= λ _. append_all ms

  -- The calls of a turn that has some; those of a truncated message are not executed.
  unfoldable pub run_calls :
      StopReason → List ToolCallContent → List (RegisteredTool X) → M L E W Bool
  run_calls reason [] tools = pure false
  run_calls length_limit (c ∷ cs) tools =
      fail_truncated_tool_calls env env.quoted (c ∷ cs) >>= λ _. pure true
  run_calls other_reason (c ∷ cs) tools = execute_tools env (c ∷ cs) tools >>= λ _. pure true

  unfoldable pub turn_body : M L E W Bool
  turn_body = do
    turn ← request_turn
    append_all (turn_messages turn.0)
    run ← get_run
    emit (turn_end run.turn)
    run_calls turn.0.stop_reason turn.0.tool_calls turn.1

  -- Whether the turn called tools.
  unfoldable pub run_one_turn : M L E W Bool
  run_one_turn = start_turn >>= λ _. turn_body
