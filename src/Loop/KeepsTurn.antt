-- ===== src/Loop/KeepsTurn.antt =====
-- Properties that appending to the transcript keeps too, through a turn and what follows it.
use resolute_agent_core_go.Prelude.{
  String, Bool, true, false, ◌||◌, List, [], ◌∷◌, Option, none, some, Outcome, ok, err, refl, subst,
  inl, inr, All, Option-cases, Bool-cases, if◌then◌else◌, str_eq,
}
use resolute_agent_core_go.Message.{Message}
use resolute_agent_core_go.ModelRef.{parse_model_ref}
use resolute_agent_core_go.ActiveTools.{RegisteredTool}
use resolute_agent_core_go.Config.{TurnSnapshot}
use resolute_agent_core_go.Loop.Machine.{
  AgentEvent, PromptRun, Provider, LlmRequest, ToolCallContent, StopReason, length_limit,
  other_reason, Environment, Machine, pure, ask, get_run, emit,
}
use resolute_agent_core_go.Loop.Tools.{
  ToolOutcome, append_transcript, fail_truncated_tool_calls, record_outcomes, suspends,
  all_terminate, any_suspends, set_terminated, set_suspended, conclude, execute_tools,
}
use resolute_agent_core_go.Loop.Turn.{
  find_provider, provider_by_name, resolve, transformed, context_messages, supported, set_target,
  send_request, request_turn, append_all, run_calls, turn_body,
}
use resolute_agent_core_go.Loop.Prompt.{
  flush_pending, asked_to_stop, inject, cancelled_or, unless_cancelled, followed_up, no_steer,
  steered, next_turn, after_turn,
}
use resolute_agent_core_go.Loop.Keeps.{
  Keeps, IsStable, IsQuiet, keeps_bind, keeps_outcome, keeps_check, keeps_pure, keeps_throw,
  emit-Keeps, set_phase-Keeps, ask-Keeps, check_cancelled-Keeps, consume_all-Keeps,
  prepare_all-Keeps, run_steps-Keeps, await_tool_batch-Keeps,
}

-- What the steps that change the transcript and the two marks keep.
pub record IsFree {X L E W : Type 0} (env : Environment X L E W) (P : Machine L E W → Type 0)
    : Type 0 where
  pub append_transcript : (msg : Message) → Keeps P (append_transcript env msg)
  pub set_terminated : Keeps P (set_terminated env)
  pub set_suspended : Keeps P (set_suspended env)

module _ {X L E W : Type 0} (env : Environment X L E W) (P : Machine L E W → Type 0)
    (Quiet : (W → W) → Type 0) (stable : IsStable P Quiet) (calm : IsQuiet env Quiet)
    (free : IsFree env P) where
  quiet_emit : (e : AgentEvent E) → Keeps P (emit {W = W} e)
  quiet_emit = emit-Keeps env P Quiet stable calm

  quiet_ask : {A : Type 0} (f : W → A × W) → Quiet (λ w. (f w).1) → Keeps P (ask f)
  quiet_ask f = ask-Keeps env P Quiet stable calm f

  keeps_get_run : Keeps P (get_run {L = L} {E = E} {W = W})
  keeps_get_run = record { kept = λ m h. h }

  fail_truncated_tool_calls-Keeps :
      (quoted : String → String) (cs : List ToolCallContent)
      → Keeps P (fail_truncated_tool_calls env quoted cs)
  unfolding fail_truncated_tool_calls
  fail_truncated_tool_calls-Keeps quoted [] = keeps_pure P _
  fail_truncated_tool_calls-Keeps quoted (c ∷ cs) = keeps_bind P _ _ (quiet_emit _) (λ _.
      keeps_bind P _ _ (free.append_transcript _) (λ _. fail_truncated_tool_calls-Keeps quoted cs))

  record_outcomes-Keeps : (os : List (ToolOutcome E)) → Keeps P (record_outcomes env os)
  unfolding record_outcomes
  record_outcomes-Keeps [] = keeps_pure P _
  record_outcomes-Keeps (o ∷ os) = elim (Bool-cases (suspends o)) [
    | inl pending ↦ rw (pending, record_outcomes) (record_outcomes-Keeps os)
    | inr done ↦
        rw (done, record_outcomes)
          (keeps_bind P _ _ (free.append_transcript _) (λ _. record_outcomes-Keeps os))
  ]

  mark-Keeps : (b : Bool) → Keeps P (if b then set_suspended env else pure tt)
  mark-Keeps true = free.set_suspended
  mark-Keeps false = keeps_pure P _

  conclude-Keeps : (os : List (ToolOutcome E)) → Keeps P (conclude env os)
  unfolding conclude
  conclude-Keeps os = elim (Bool-cases (all_terminate os)) [
    | inl all ↦ rw (all, conclude) free.set_terminated
    | inr some_goes_on ↦
        rw (some_goes_on, conclude)
          (keeps_bind P _ _ (record_outcomes-Keeps os) (λ _. mark-Keeps (any_suspends os)))
  ]

  execute_tools-Keeps :
      (cs : List ToolCallContent) (tools : List (RegisteredTool X))
      → Keeps P (execute_tools env cs tools)
  unfolding execute_tools
  execute_tools-Keeps cs tools = keeps_bind P _ _ (set_phase-Keeps env P Quiet stable calm _) (λ _.
      keeps_bind P _ _ (check_cancelled-Keeps env P Quiet stable calm) (λ _.
        keeps_bind P _ _ (prepare_all-Keeps env P Quiet stable calm tools cs) (λ ps.
          keeps_bind P _ _ (check_cancelled-Keeps env P Quiet stable calm) (λ _.
            keeps_bind P _ _ (quiet_ask (env.run_batch ps) (calm.run_batch ps)) (λ batch.
              keeps_bind P _ _ (run_steps-Keeps env P Quiet stable calm batch.steps _) (λ slots.
                keeps_bind P _ _ (await_tool_batch-Keeps env P Quiet stable calm batch.end slots)
                  (λ _. conclude-Keeps _)))))))

  -- The provider that a name resolves to is one of the environment's.
  abbrev IsCalm : Provider X L E W → Type 0
  IsCalm p = (req : LlmRequest X L) → Quiet (λ w. (p.stream req w).1)

  FoundCalm : Option (Provider X L E W) → Type 0
  FoundCalm none = Unit
  FoundCalm (some p) = IsCalm p

  ResolvedCalm : Outcome E (Provider X L E W × String) → Type 0
  ResolvedCalm (err e) = Unit
  ResolvedCalm (ok target) = IsCalm (target.0)

  find_provider-FoundCalm :
      (name : String) (ps : List (Provider X L E W))
      → All IsCalm ps
      → FoundCalm (find_provider env name ps)
  unfolding find_provider FoundCalm
  find_provider-FoundCalm name [] h = tt
  find_provider-FoundCalm name (q ∷ qs) (h, hs) = elim (Bool-cases (str_eq q.name name)) [
    | inl named ↦ rw (named, find_provider, FoundCalm) h
    | inr other ↦ rw (other, find_provider) (find_provider-FoundCalm name qs hs)
  ]

  resolve-ResolvedCalm : (ref : String) → ResolvedCalm (resolve env ref)
  unfolding resolve provider_by_name ResolvedCalm FoundCalm
  resolve-ResolvedCalm ref = elim (Option-cases (parse_model_ref ref)) [
    | inl bad ↦ rw (bad, resolve, ResolvedCalm) tt
    | inr ((name, model), parsed) ↦ elim (Option-cases (find_provider env name env.providers)) [
      | inl unknown ↦ rw (parsed, unknown, resolve, provider_by_name, ResolvedCalm) tt
      | inr (p, found) ↦
          rw (parsed, found, resolve, provider_by_name, ResolvedCalm)
            (subst FoundCalm found (find_provider-FoundCalm name env.providers calm.streams))
    ]
  ]

  transformed-Keeps : (o : Outcome E (List Message)) → Keeps P (transformed env o)
  unfolding transformed
  transformed-Keeps (ok ms) = keeps_pure P _
  transformed-Keeps (err e) = keeps_throw P _

  context_messages-Keeps : (ms : List Message) → Keeps P (context_messages env ms)
  unfolding context_messages
  context_messages-Keeps ms = elim (Option-cases env.transform_context) [
    | inl unset ↦ rw (unset, context_messages) (keeps_pure P _)
    | inr (hook, set) ↦
        rw (set, context_messages)
          (keeps_bind P _ _ (quiet_ask (hook ms) (calm.transform_context hook set ms))
            transformed-Keeps)
  ]

  supported-Keeps :
      (p : Provider X L E W) (model : String) (level : L) → Keeps P (supported env p model level)
  unfolding supported
  supported-Keeps p model level = elim (Bool-cases (env.is_off level || p.can_think model)) [
    | inl fine ↦ rw (fine, supported) (keeps_pure P _)
    | inr not_fine ↦
        rw (not_fine, supported) (keeps_bind P _ _ (quiet_emit _) (λ _. keeps_pure P _))
  ]

  set_target-Keeps : (model : String) (level : L) → Keeps P (set_target env model level)
  unfolding set_target
  set_target-Keeps model level = record {
    kept =
        stable.minor (λ r. record r { model = model; thinking = level })
          (record {
            same_transcript = λ r. refl;
            same_session = λ r. refl;
            same_turn = λ r. refl;
            same_terminated = λ r. refl;
            same_suspended = λ r. refl;
            same_results = λ r. refl;
          });
  }

  send_request-Keeps :
      (snap : TurnSnapshot X L) (run : PromptRun L E) (target : Provider X L E W × String)
      → IsCalm (target.0)
      → Keeps P (send_request env snap run target)
  unfolding send_request
  send_request-Keeps snap run target h = keeps_bind P _ _ (set_target-Keeps _ _) (λ _.
      keeps_bind P _ _ (context_messages-Keeps _) (λ msgs.
        keeps_bind P _ _ (supported-Keeps _ _ _) (λ level.
          keeps_bind P _ _ (quiet_ask _ (h _)) (λ reply.
            keeps_bind P _ _ (consume_all-Keeps env P Quiet stable calm reply.0 _)
              (λ streamed. keeps_bind P _ _ (keeps_check P _) (λ _. keeps_pure P _))))))

  request_turn-Keeps : Keeps P (request_turn env)
  unfolding request_turn ResolvedCalm
  request_turn-Keeps = keeps_bind P _ _ (check_cancelled-Keeps env P Quiet stable calm) (λ _.
      keeps_bind P _ _ (quiet_ask env.agent calm.agent) (λ agent.
        keeps_bind P _ _ keeps_get_run (λ run. keeps_outcome P _ _ (λ target e.
          send_request-Keeps _ run target (subst ResolvedCalm e (resolve-ResolvedCalm _))))))

  pub append_all-Keeps : (ms : List Message) → Keeps P (append_all env ms)
  unfolding append_all
  append_all-Keeps [] = keeps_pure P _
  append_all-Keeps (m ∷ ms) = keeps_bind P _ _ (free.append_transcript m) (λ _. append_all-Keeps ms)

  run_calls-Keeps :
      (reason : StopReason) (cs : List ToolCallContent) (tools : List (RegisteredTool X))
      → Keeps P (run_calls env reason cs tools)
  unfolding run_calls
  run_calls-Keeps reason [] tools = keeps_pure P _
  run_calls-Keeps length_limit (c ∷ cs) tools =
      keeps_bind P _ _ (fail_truncated_tool_calls-Keeps env.quoted (c ∷ cs)) (λ _. keeps_pure P _)
  run_calls-Keeps other_reason (c ∷ cs) tools =
      keeps_bind P _ _ (execute_tools-Keeps (c ∷ cs) tools) (λ _. keeps_pure P _)

  pub turn_body-Keeps : Keeps P (turn_body env)
  unfolding turn_body
  turn_body-Keeps = keeps_bind P _ _ request_turn-Keeps (λ turn.
      keeps_bind P _ _ (append_all-Keeps _) (λ _.
        keeps_bind P _ _ keeps_get_run
          (λ run. keeps_bind P _ _ (quiet_emit _) (λ _. run_calls-Keeps _ _ _))))

  pub flush_pending-Keeps : Keeps P (flush_pending env)
  unfolding flush_pending
  flush_pending-Keeps =
      keeps_bind P _ _ (quiet_ask env.take_pending calm.take_pending)
        (λ pending. append_all-Keeps _)

  asked_to_stop-Keeps : (b : Bool) → Keeps P (asked_to_stop env b)
  unfolding asked_to_stop
  asked_to_stop-Keeps b = elim (Option-cases env.should_stop_after_turn) [
    | inl unset ↦ rw (unset, asked_to_stop) (keeps_pure P _)
    | inr (hook, set) ↦
        rw (set, asked_to_stop)
          (keeps_bind P _ _ keeps_get_run
            (λ r. quiet_ask (hook r.turn b) (calm.should_stop_after_turn hook set r.turn b)))
  ]

  inject-Keeps : (event : Message → AgentEvent E) (m : Message) → Keeps P (inject env event m)
  unfolding inject
  inject-Keeps event m = keeps_bind P _ _ (free.append_transcript m) (λ _.
      keeps_bind P _ _ (quiet_emit _) (λ _. keeps_bind P _ _ (quiet_emit _) (λ _. keeps_pure P _)))

  cancelled_or-Keeps : (b : Bool) (o : Option E) → Keeps P (cancelled_or env b o)
  unfolding cancelled_or
  cancelled_or-Keeps b none = keeps_pure P _
  cancelled_or-Keeps b (some e) = keeps_throw P _

  unless_cancelled-Keeps : (b : Bool) → Keeps P (unless_cancelled env b)
  unfolding unless_cancelled
  unless_cancelled-Keeps b =
      keeps_bind P _ _ (quiet_ask env.cancelled calm.cancelled) (cancelled_or-Keeps b)

  followed_up-Keeps : (o : Option Message) → Keeps P (followed_up env o)
  unfolding followed_up
  followed_up-Keeps (some m) = inject-Keeps _ m
  followed_up-Keeps none = unless_cancelled-Keeps false

  no_steer-Keeps : (b : Bool) → Keeps P (no_steer env b)
  unfolding no_steer
  no_steer-Keeps true = unless_cancelled-Keeps true
  no_steer-Keeps false = keeps_bind P _ _ (quiet_ask env.follow_up calm.follow_up) followed_up-Keeps

  steered-Keeps : (b : Bool) (o : Option Message) → Keeps P (steered env b o)
  unfolding steered
  steered-Keeps b (some m) = inject-Keeps _ m
  steered-Keeps b none = no_steer-Keeps b

  next_turn-Keeps : (b c : Bool) → Keeps P (next_turn env b c)
  unfolding next_turn
  next_turn-Keeps b true = keeps_pure P _
  next_turn-Keeps b false = keeps_bind P _ _ (quiet_ask env.steer calm.steer) (steered-Keeps b)

  pub after_turn-Keeps : (b : Bool) → Keeps P (after_turn env b)
  unfolding after_turn
  after_turn-Keeps b = keeps_bind P _ _ flush_pending-Keeps (λ _.
      keeps_bind P _ _ (asked_to_stop-Keeps b)
        (λ stop. keeps_bind P _ _ keeps_get_run (λ r. next_turn-Keeps b _)))
