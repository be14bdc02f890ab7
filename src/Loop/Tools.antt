-- ===== src/Loop/Tools.antt =====
-- executeTools of prompt.go: the calls of a turn are prepared in order, run together, and recorded in
-- order; and failTruncatedToolCalls.
use Prim.Native.String.{◌++◌ as concat}
use resolute_agent_core_go.Prelude.{
  ℕ, zero, suc, String, Bool, true, false, ◌&&◌, ◌||◌, List, [], ◌∷◌, ◌++◌, Option, none, some,
  Outcome, ok, err, str_eq, if◌then◌else◌,
}
use resolute_agent_core_go.Json.{absent}
use resolute_agent_core_go.Message.{Message, ToolResult, new_tool_result_msg}
use resolute_agent_core_go.ActiveTools.{RegisteredTool}
use resolute_agent_core_go.Loop.Machine.{
  ToolCallContent, tool_call_end, tool_update, tool_error, tool_leak, executing_tools,
  shutting_down, PreparedCall, immediate, runnable, BatchStep, updated, finished, BatchEnd, waited,
  honored, abandoned, Environment, M, pure, throw, ◌>>=◌, ◌>>◌, ask, get_run, modify, check, emit,
  set_phase,
}

-- toolOutcome: the call's id and name, and its result or the error that kept it from running.
pub record ToolOutcome (E : Type 0) : Type 0 where
  pub call_id : String
  pub name : String
  pub outcome : Outcome E ToolResult

unfoldable pub find_tool :
    {X : Type 0} → List (RegisteredTool X) → String → Option (RegisteredTool X)
find_tool [] name = none
find_tool (t ∷ ts) name = if str_eq t.name name then some t else find_tool ts name

abbrev pub error_result : String → ToolResult
error_result s = record {
  content = s;
  payload = absent;
  is_error = true;
  terminate = false;
  suspend = false;
  images = [];
}

-- fmt.Sprintf with %q, which quotes the name, is the parameter `quoted`
unfoldable pub truncated_result : (String → String) → String → ToolResult
truncated_result quoted name = error_result (
    concat "Tool call " (
      concat (quoted name)
        " was not executed: the response hit the output token limit, so its arguments may be truncated. Re-issue the tool call with complete arguments."))

-- The results array, call by call: a slot of a call that still runs is `none`.
abbrev pub Slots : Type 0 → Type 0 → Type 0
Slots X E = List (PreparedCall X E × Option ToolResult)

module _ {X E : Type 0} where
  unfoldable pub initial_slots : List (PreparedCall X E) → Slots X E
  initial_slots [] = []
  initial_slots (p ∷ ps) = (p, none) ∷ initial_slots ps

  -- results[idx] = ..., completed[idx] = true
  unfoldable pub fill : ℕ → ToolResult → Slots X E → Slots X E
  fill i r [] = []
  fill zero r ((p, o) ∷ slots) = (p, some r) ∷ slots
  fill (suc i) r (slot ∷ slots) = slot ∷ fill i r slots

  unfoldable pub call_of : ℕ → Slots X E → Option (String × String)
  call_of i [] = none
  call_of zero ((immediate id name e, o) ∷ slots) = none
  call_of zero ((runnable id name args tool, o) ∷ slots) = some (id, name)
  call_of (suc i) (slot ∷ slots) = call_of i slots

  -- The outcomes in the order of the calls, or the calls that were given up.
  unfoldable pub outcomes : Slots X E → List (ToolOutcome E)
  outcomes [] = []
  outcomes ((immediate id name e, o) ∷ slots) =
      record { call_id = id; name = name; outcome = err e } ∷ outcomes slots
  outcomes ((runnable id name args tool, none) ∷ slots) = outcomes slots
  outcomes ((runnable id name args tool, some r) ∷ slots) =
      record { call_id = id; name = name; outcome = ok r } ∷ outcomes slots

  unfoldable pub leaked_calls : Slots X E → List (String × String)
  leaked_calls [] = []
  leaked_calls ((immediate id name e, o) ∷ slots) = leaked_calls slots
  leaked_calls ((runnable id name args tool, none) ∷ slots) = (name, id) ∷ leaked_calls slots
  leaked_calls ((runnable id name args tool, some r) ∷ slots) = leaked_calls slots

-- allTerminate, which an empty batch is not
unfoldable pub terminates : {E : Type 0} → ToolOutcome E → Bool
terminates o = elim o.outcome [ err e ↦ false | ok r ↦ r.terminate ]

unfoldable pub every_terminates : {E : Type 0} → List (ToolOutcome E) → Bool
every_terminates [] = true
every_terminates (o ∷ os) = terminates o && every_terminates os

unfoldable pub all_terminate : {E : Type 0} → List (ToolOutcome E) → Bool
all_terminate [] = false
all_terminate (o ∷ os) = every_terminates (o ∷ os)

unfoldable pub suspends : {E : Type 0} → ToolOutcome E → Bool
suspends o = elim o.outcome [ err e ↦ false | ok r ↦ r.suspend ]

unfoldable pub any_suspends : {E : Type 0} → List (ToolOutcome E) → Bool
any_suspends [] = false
any_suspends (o ∷ os) = suspends o || any_suspends os

-- The message that records an outcome.
unfoldable pub outcome_message : {E : Type 0} → (E → String) → ToolOutcome E → Message
outcome_message error_text o = elim o.outcome [
  | err e ↦ new_tool_result_msg o.call_id o.name (error_result (error_text e))
  | ok r ↦ new_tool_result_msg o.call_id o.name (record r { terminate = false; suspend = false })
]

module _ {X L E W : Type 0} (env : Environment X L E W) where
  -- appendTranscript, of one message
  unfoldable pub append_transcript : Message → M L E W (Unit {0})
  append_transcript msg = do
    r ← get_run
    failed ← ask (env.append r.session_id msg)
    check failed
    modify (λ r'. record r' { transcript = r'.transcript ++ msg ∷ [] })

  unfoldable pub check_cancelled : M L E W (Unit {0})
  check_cancelled = ask env.cancelled >>= check

  unfoldable pub fail_truncated_tool_calls :
      (String → String) → List ToolCallContent → M L E W (Unit {0})
  fail_truncated_tool_calls quoted [] = pure tt
  fail_truncated_tool_calls quoted (c ∷ cs) = do
    let result = truncated_result quoted c.tool_name
    emit (tool_call_end c.call_id c.tool_name result)
    append_transcript (new_tool_result_msg c.call_id c.tool_name result)
    fail_truncated_tool_calls quoted cs

  unfoldable pub rejected : ToolCallContent → E → M L E W (PreparedCall X E)
  rejected c e = do
    emit (tool_error c.call_id c.tool_name e)
    pure (immediate c.call_id c.tool_name e)

  unfoldable pub hook_answered :
      RegisteredTool X → ToolCallContent → Option E → M L E W (PreparedCall X E)
  hook_answered tool c none = pure (runnable c.call_id c.tool_name c.args tool)
  hook_answered tool c (some e) = rejected c e

  -- The BeforeToolCall hook gets a copy of the arguments, so they are the call's.
  unfoldable pub prepare_tool_call :
      List (RegisteredTool X) → ToolCallContent → M L E W (PreparedCall X E)
  prepare_tool_call tools c = elim (find_tool tools c.tool_name) [
    | none ↦ rejected c env.tool_not_found
    | some tool ↦ elim env.before_tool_call [
      | none ↦ pure (runnable c.call_id c.tool_name c.args tool)
      | some hook ↦ ask (hook c) >>= hook_answered tool c
    ]
  ]

  -- The preflight loop. A cancellation stops it, and executeTools returns its cause.
  unfoldable pub prepare_all :
      List (RegisteredTool X) → List ToolCallContent → M L E W (List (PreparedCall X E))
  prepare_all tools [] = pure []
  prepare_all tools (c ∷ cs) = do
    check_cancelled
    p ← prepare_tool_call tools c
    ps ← prepare_all tools cs
    pure (p ∷ ps)

  -- The result of a call: the tool's, or the error of the tool or of the hook AfterToolCall as one.
  unfoldable pub final_result : Outcome E ToolResult → Option E → ToolResult
  final_result (ok r) none = r
  final_result (err e) none = error_result (env.error_text e)
  final_result o (some e) = error_result (env.error_text e)

  unfoldable pub run_step : BatchStep E → Slots X E → M L E W (Slots X E)
  run_step (updated i partial) slots = elim (call_of i slots) [
    | none ↦ pure slots
    | some (id, name) ↦ emit (tool_update id name partial) >>= λ _. pure slots
  ]
  run_step (finished i o hook) slots = elim (call_of i slots) [
    | none ↦ pure slots
    | some (id, name) ↦ emit (tool_call_end id name (final_result o hook)) >>= λ _.
        pure (fill i (final_result o hook) slots)
  ]

  unfoldable pub run_steps : List (BatchStep E) → Slots X E → M L E W (Slots X E)
  run_steps [] slots = pure slots
  run_steps (s ∷ ss) slots = run_step s slots >>= run_steps ss

  unfoldable pub report_leaks : List (String × String) → M L E W (Unit {0})
  report_leaks [] = pure tt
  report_leaks ((name, id) ∷ leaks) = emit (tool_leak name id) >>= λ _. report_leaks leaks

  -- awaitToolBatch: of a batch that is abandoned, the calls that did not finish are reported, and the
  -- cause of the cancellation is returned.
  unfoldable pub await_tool_batch : BatchEnd E → Slots X E → M L E W (Unit {0})
  await_tool_batch waited slots = pure tt
  await_tool_batch honored slots = set_phase shutting_down
  await_tool_batch (abandoned cause) slots = do
    set_phase shutting_down
    report_leaks (leaked_calls slots)
    throw cause

  unfoldable pub record_outcomes : List (ToolOutcome E) → M L E W (Unit {0})
  record_outcomes [] = pure tt
  record_outcomes (o ∷ os) =
      if suspends o
      then record_outcomes os
      else (append_transcript (outcome_message env.error_text o) >>= λ _. record_outcomes os)

  unfoldable pub set_terminated : M L E W (Unit {0})
  set_terminated = modify (λ r. record r { terminated = true })

  unfoldable pub set_suspended : M L E W (Unit {0})
  set_suspended = modify (λ r. record r { suspended = true })

  -- Where all results terminate, none is recorded.
  unfoldable pub conclude : List (ToolOutcome E) → M L E W (Unit {0})
  conclude os =
      if all_terminate os
      then set_terminated
      else (record_outcomes os >>= λ _. if any_suspends os then set_suspended else pure tt)

  unfoldable pub execute_tools : List ToolCallContent → List (RegisteredTool X) → M L E W (Unit {0})
  execute_tools calls tools = do
    set_phase executing_tools
    check_cancelled
    ps ← prepare_all tools calls
    check_cancelled
    batch ← ask (env.run_batch ps)
    slots ← run_steps batch.steps (initial_slots ps)
    await_tool_batch batch.end slots
    conclude (outcomes slots)
