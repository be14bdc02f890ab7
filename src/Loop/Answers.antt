-- ===== src/Loop/Answers.antt =====
-- What executeTools of prompt.go leaves in the transcript: a result for each call, in order.
use resolute_agent_core_go.Prelude.{
  ℕ, String, Bool, List, [], ◌∷◌, ◌++◌, Option, none, some, ◌≡◌, ◌∙◌, refl, ap, subst, inl, inr,
  Option-cases,
}
use resolute_agent_core_go.Message.{Message}
use resolute_agent_core_go.ActiveTools.{RegisteredTool}
use resolute_agent_core_go.Loop.Machine.{
  ToolCallContent, PreparedCall, immediate, runnable, BatchStep, BatchEnd, waited, honored,
  abandoned, updated, finished, Environment, Machine, ◌>>=◌, ask, emit, AgentEvent,
}
use resolute_agent_core_go.Loop.Tools.{
  Slots, call_of, leaked_calls, find_tool, rejected, hook_answered, prepare_tool_call, prepare_all,
  run_step, run_steps, await_tool_batch, append_transcript,
}
use resolute_agent_core_go.Loop.Keeps.{
  Keeps, IsStable, emit-Keeps, set_phase-Keeps, ask-Keeps, check_cancelled-Keeps,
  report_leaks-Keeps,
}
use resolute_agent_core_go.Loop.AtTurn.{AnyChange, env-IsQuiet}
use resolute_agent_core_go.Loop.Triples.{
  After, Triple, triple_bind, triple_keeps, triple_pure, triple_throw, triple_given, triple_map,
}
use resolute_agent_core_go.Loop.Slots.{IsOverAt}
use resolute_agent_core_go.Loop.Batch.{filled, filled_by}

-- What a batch of calls changes of the prompt besides its events.
pub record Marks {L E W : Type 0} (transcript : List Message) (terminated suspended : Bool)
    (m : Machine L E W) : Type 0 where
  pub transcript_is : m.run.transcript ≡ transcript
  pub terminated_is : m.run.terminated ≡ terminated
  pub suspended_is : m.run.suspended ≡ suspended

-- The id and the name of a call.
unfoldable pub called : {X E : Type 0} → PreparedCall X E → String × String
called (immediate id name e) = (id, name)
called (runnable id name args tool) = (id, name)

unfoldable pub calls_of : List ToolCallContent → List (String × String)
calls_of [] = []
calls_of (c ∷ cs) = (c.call_id, c.tool_name) ∷ calls_of cs

unfoldable pub all_called : {X E : Type 0} → List (PreparedCall X E) → List (String × String)
all_called [] = []
all_called (p ∷ ps) = called p ∷ all_called ps

-- The end of a batch that was not given up.
abbrev pub IsWaited : {E : Type 0} → BatchEnd E → Type 0
IsWaited waited = Unit
IsWaited honored = Unit
IsWaited (abandoned cause) = ⊥

module _ {X L E W : Type 0} (env : Environment X L E W) (t : List Message) (b s : Bool) where
  pub Marks-IsStable : IsStable (Marks {L = L} {E = E} {W = W} t b s) AnyChange
  Marks-IsStable = record {
    minor = λ f small m h. record {
      transcript_is = small.same_transcript m.run ∙ h.transcript_is;
      terminated_is = small.same_terminated m.run ∙ h.terminated_is;
      suspended_is = small.same_suspended m.run ∙ h.suspended_is;
    };
    quiet = λ g any m h. record {
      transcript_is = h.transcript_is;
      terminated_is = h.terminated_is;
      suspended_is = h.suspended_is;
    };
  }

  pub quiet_emit : (e : AgentEvent E) → Keeps (Marks {L = L} {W = W} t b s) (emit e)
  quiet_emit = emit-Keeps env _ AnyChange Marks-IsStable (env-IsQuiet env)

  pub quiet_ask : {A : Type 0} (f : W → A × W) → Keeps (Marks {L = L} {E = E} t b s) (ask f)
  unfolding AnyChange
  quiet_ask f = ask-Keeps env _ AnyChange Marks-IsStable (env-IsQuiet env) f tt

  -- The preflight of a call keeps its id and name, whether it is to run or not.
  rejected-Triple :
      (c : ToolCallContent) (e : E)
      → Triple
          (Marks t b s)
          (rejected env c e)
          (λ p m. Marks t b s m × (called p ≡ (c.call_id, c.tool_name)))
  unfolding rejected called
  rejected-Triple c e =
      triple_bind _ _ (triple_keeps _ (quiet_emit _)) (λ _. triple_pure _ (λ m h. (h, refl)))

  hook_answered-Triple :
      (tool : RegisteredTool X) (c : ToolCallContent) (o : Option E)
      → Triple
          (Marks t b s)
          (hook_answered env tool c o)
          (λ p m. Marks t b s m × (called p ≡ (c.call_id, c.tool_name)))
  unfolding hook_answered called
  hook_answered-Triple tool c none = triple_pure _ (λ m h. (h, refl))
  hook_answered-Triple tool c (some e) = rejected-Triple c e

  prepare_tool_call-Triple :
      (tools : List (RegisteredTool X)) (c : ToolCallContent)
      → Triple
          (Marks t b s)
          (prepare_tool_call env tools c)
          (λ p m. Marks t b s m × (called p ≡ (c.call_id, c.tool_name)))
  unfolding prepare_tool_call called
  prepare_tool_call-Triple tools c = elim (Option-cases (find_tool tools c.tool_name)) [
    | inl unknown ↦ rw (unknown, prepare_tool_call) (rejected-Triple c env.tool_not_found)
    | inr (tool, found) ↦ elim (Option-cases env.before_tool_call) [
      | inl unset ↦ rw (found, unset, prepare_tool_call) (triple_pure _ (λ m h. (h, refl)))
      | inr (hook, set) ↦
          rw (found, set, prepare_tool_call)
            (triple_bind _ _ (triple_keeps _ (quiet_ask (hook c))) (hook_answered-Triple tool c))
    ]
  ]

  pub prepare_all-Triple :
      (tools : List (RegisteredTool X)) (cs : List ToolCallContent)
      → Triple
          (Marks t b s)
          (prepare_all env tools cs)
          (λ ps m. Marks t b s m × (all_called ps ≡ calls_of cs))
  unfolding prepare_all all_called calls_of
  prepare_all-Triple tools [] = triple_pure _ (λ m h. (h, refl))
  prepare_all-Triple tools (c ∷ cs) =
      triple_bind _ _
        (triple_keeps _ (check_cancelled-Keeps env _ AnyChange Marks-IsStable (env-IsQuiet env)))
        (λ _. triple_bind _ _ (prepare_tool_call-Triple tools c) (λ p. triple_given (λ same.
          triple_bind _ _ (prepare_all-Triple tools cs)
            (λ ps. triple_pure _ (λ m h. (h.0, rw (same, h.1) refl))))))

  run_step-Triple :
      (step : BatchStep E) (slots : Slots X E)
      → Triple
          (Marks t b s)
          (run_step env step slots)
          (λ slots' m. Marks t b s m × (slots' ≡ filled_by env step slots))
  unfolding run_step filled_by
  run_step-Triple (updated i partial) slots = elim (Option-cases (call_of i slots)) [
    | inl nobody ↦ rw (nobody, run_step) (triple_pure _ (λ m h. (h, refl)))
    | inr (c, found) ↦
        rw (found, run_step)
          (triple_bind _ _ (triple_keeps _ (quiet_emit _)) (λ _. triple_pure _ (λ m h. (h, refl))))
  ]
  run_step-Triple (finished i o e) slots = elim (Option-cases (call_of i slots)) [
    | inl nobody ↦ rw (nobody, run_step, filled_by) (triple_pure _ (λ m h. (h, refl)))
    | inr (c, found) ↦
        rw (found, run_step, filled_by)
          (triple_bind _ _ (triple_keeps _ (quiet_emit _)) (λ _. triple_pure _ (λ m h. (h, refl))))
  ]

  pub run_steps-Triple :
      (ss : List (BatchStep E)) (slots : Slots X E)
      → Triple
          (Marks t b s)
          (run_steps env ss slots)
          (λ slots' m. Marks t b s m × (slots' ≡ filled env ss slots))
  unfolding run_steps filled
  run_steps-Triple [] slots = triple_pure _ (λ m h. (h, refl))
  run_steps-Triple (step ∷ ss) slots = triple_bind _ _ (run_step-Triple step slots) (λ slots'.
      triple_given (λ same.
        subst
          (λ r.
            Triple (Marks t b s) (run_steps env ss slots')
              (λ slots'' m. Marks t b s m × (slots'' ≡ filled env ss r)))
          same (run_steps-Triple ss slots')))

  pub await_tool_batch-Triple :
      (end : BatchEnd E) (slots : Slots X E)
      → (IsWaited end → (i : ℕ) → IsOverAt i slots)
      → Triple
          (Marks t b s)
          (await_tool_batch env end slots)
          (λ u m. Marks t b s m × ((i : ℕ) → IsOverAt i slots))
  unfolding await_tool_batch
  await_tool_batch-Triple waited slots over = triple_pure _ (λ m h. (h, over tt))
  await_tool_batch-Triple honored slots over =
      triple_map _ (λ u m h. (h, over tt))
        (triple_keeps _ (set_phase-Keeps env _ AnyChange Marks-IsStable (env-IsQuiet env) _))
  await_tool_batch-Triple (abandoned cause) slots over =
      triple_bind _ _
        (triple_keeps _ (set_phase-Keeps env _ AnyChange Marks-IsStable (env-IsQuiet env) _))
        (λ _.
          triple_bind _ _
            (triple_keeps _ (
              report_leaks-Keeps env _ AnyChange Marks-IsStable (env-IsQuiet env)
                (leaked_calls slots)))
            (λ _. triple_throw _))

  pub append_transcript-Triple :
      (msg : Message)
      → Triple (Marks t b s) (append_transcript env msg) (λ u. Marks (t ++ msg ∷ []) b s)
  unfolding append_transcript After ◌>>=◌
  append_transcript-Triple msg = record {
    holds = λ m h. elim (Option-cases ((env.append m.run.session_id msg m.world).0)) [
      | inl fine ↦
          rw (fine, append_transcript, After)
            (record {
              transcript_is = ap (λ l. l ++ msg ∷ []) h.transcript_is;
              terminated_is = h.terminated_is;
              suspended_is = h.suspended_is;
            })
      | inr (e, bad) ↦ rw (bad, append_transcript, After) tt
    ];
  }
