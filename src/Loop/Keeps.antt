-- ===== src/Loop/Keeps.antt =====
-- Properties of the machine that the steps of the loop keep, whether they succeed or fail.
use resolute_agent_core_go.Prelude.{
  ℕ, String, Bool, true, false, List, [], ◌∷◌, ◌++◌, Option, none, some, Outcome, ok, err, ◌≡◌,
  refl, inl, inr, All, Option-cases, Bool-cases,
}
use resolute_agent_core_go.Message.{Message}
use resolute_agent_core_go.ActiveTools.{RegisteredTool}
use resolute_agent_core_go.Loop.Machine.{
  AgentEvent, AgentPhase, PromptRun, PreparedCall, BatchStep, updated, finished, BatchEnd, waited,
  honored, abandoned, LlmRequest, ToolCallContent, StreamEvent, text, thought, call_start, call_end,
  failed, retrying, used, ended, Environment, Machine, M, pure, throw, ◌>>=◌, continue, ask, check,
  from_outcome, emit, set_phase,
}
use resolute_agent_core_go.Loop.Stream.{Streamed, start_message, consume, consume_all}
use resolute_agent_core_go.Loop.Tools.{
  Slots, find_tool, rejected, hook_answered, prepare_tool_call, prepare_all, check_cancelled,
  run_step, run_steps, call_of, report_leaks, await_tool_batch, leaked_calls,
}

-- A change of the promptRun that leaves what the loop decides on: the turn, the transcript, the
-- session and the two marks.
pub record IsMinor {L E : Type 0} (f : PromptRun L E → PromptRun L E) : Type 0 where
  pub same_transcript : (r : PromptRun L E) → (f r).transcript ≡ r.transcript
  pub same_session : (r : PromptRun L E) → (f r).session_id ≡ r.session_id
  pub same_turn : (r : PromptRun L E) → (f r).turn ≡ r.turn
  pub same_terminated : (r : PromptRun L E) → (f r).terminated ≡ r.terminated
  pub same_suspended : (r : PromptRun L E) → (f r).suspended ≡ r.suspended
  pub same_results : (r : PromptRun L E) → (f r).results ≡ r.results

module _ {L E W : Type 0} (P : Machine L E W → Type 0) where
  pub record Keeps {A : Type 0} (step : M L E W A) : Type 0 where
    pub kept : (m : Machine L E W) → P m → P (step m).1

  -- A property that minor changes keep, and the changes of the world that are quiet.
  pub record IsStable (Quiet : (W → W) → Type 0) : Type 0 where
    pub minor :
        (f : PromptRun L E → PromptRun L E)
        → IsMinor f
        → (m : Machine L E W) → P m
        → P (record m { run = f m.run })
    pub quiet :
        (g : W → W) → Quiet g → (m : Machine L E W) → P m → P (record m { world = g m.world })

  pub keeps_bind :
      {A B : Type 0} (step : M L E W A) (f : A → M L E W B)
      → Keeps step
      → ((a : A) → Keeps (f a))
      → Keeps (step >>= f)
  unfolding ◌>>=◌
  keeps_bind step f first then_each = record { kept = λ m h. bound (step m) (first.kept m h) }
    where
      bound : (r : Outcome E _ × Machine L E W) → P r.1 → P (continue f r).1
      bound (ok a, m') h' = (then_each a).kept m' h'
      bound (err e, m') h' = h'

  pub keeps_outcome :
      {A B : Type 0} (o : Outcome E A) (f : A → M L E W B)
      → ((a : A) → o ≡ ok a → Keeps (f a))
      → Keeps (from_outcome o >>= f)
  unfolding ◌>>=◌
  keeps_outcome (ok a) f then_each = record { kept = λ m h. (then_each a refl).kept m h }
  keeps_outcome (err e) f then_each = record { kept = λ m h. h }

  pub keeps_check : (o : Option E) → Keeps (check o)
  keeps_check none = record { kept = λ m h. h }
  keeps_check (some e) = record { kept = λ m h. h }

  pub keeps_pure : {A : Type 0} (a : A) → Keeps (pure a)
  keeps_pure a = record { kept = λ m h. h }

  pub keeps_throw : {A : Type 0} (e : E) → Keeps (throw {A = A} e)
  keeps_throw e = record { kept = λ m h. h }

-- The environment's calls before and within a turn, and between two turns, change the world quietly.
pub record IsQuiet {X L E W : Type 0} (env : Environment X L E W) (Quiet : (W → W) → Type 0)
    : Type 0 where
  pub agent : Quiet (λ w. (env.agent w).1)
  pub take_pending : Quiet (λ w. (env.take_pending w).1)
  pub cancelled : Quiet (λ w. (env.cancelled w).1)
  pub steer : Quiet (λ w. (env.steer w).1)
  pub follow_up : Quiet (λ w. (env.follow_up w).1)
  pub release : Quiet env.release
  pub streams : All (λ p. (req : LlmRequest X L) → Quiet (λ w. (p.stream req w).1)) env.providers
  pub transform_context :
      (hook : List Message → W → Outcome E (List Message) × W)
      → env.transform_context ≡ some hook
      → (ms : List Message) → Quiet (λ w. (hook ms w).1)
  pub should_stop_after_turn :
      (hook : ℕ → Bool → W → Bool × W)
      → env.should_stop_after_turn ≡ some hook
      → (t : ℕ) (b : Bool) → Quiet (λ w. (hook t b w).1)
  pub before_tool_call :
      (hook : ToolCallContent → W → Option E × W)
      → env.before_tool_call ≡ some hook
      → (c : ToolCallContent) → Quiet (λ w. (hook c w).1)
  pub run_batch : (ps : List (PreparedCall X E)) → Quiet (λ w. (env.run_batch ps w).1)

module _ {X L E W : Type 0} (env : Environment X L E W) (P : Machine L E W → Type 0)
    (Quiet : (W → W) → Type 0) (stable : IsStable P Quiet) (calm : IsQuiet env Quiet) where
  pub emit-Keeps : (e : AgentEvent E) → Keeps P (emit {W = W} e)
  unfolding emit
  emit-Keeps e = record {
    kept =
        stable.minor (λ r. record r { events = r.events ++ e ∷ [] })
          (record {
            same_transcript = λ r. refl;
            same_session = λ r. refl;
            same_turn = λ r. refl;
            same_terminated = λ r. refl;
            same_suspended = λ r. refl;
            same_results = λ r. refl;
          });
  }

  pub set_phase-Keeps : (p : AgentPhase) → Keeps P (set_phase {W = W} p)
  unfolding set_phase
  set_phase-Keeps p = record {
    kept =
        stable.minor (λ r. record r { phase = p })
          (record {
            same_transcript = λ r. refl;
            same_session = λ r. refl;
            same_turn = λ r. refl;
            same_terminated = λ r. refl;
            same_suspended = λ r. refl;
            same_results = λ r. refl;
          });
  }

  pub ask-Keeps : {A : Type 0} (f : W → A × W) → Quiet (λ w. (f w).1) → Keeps P (ask f)
  ask-Keeps f q = record { kept = stable.quiet (λ w. (f w).1) q }

  pub check_cancelled-Keeps : Keeps P (check_cancelled env)
  unfolding check_cancelled
  check_cancelled-Keeps =
      keeps_bind P (ask env.cancelled) check (ask-Keeps env.cancelled calm.cancelled)
        (keeps_check P)

  start_message-Keeps : (kind : String) (s : Streamed) → Keeps P (start_message env kind s)
  unfolding start_message
  start_message-Keeps kind s = elim (Bool-cases s.message_started) [
    | inl started ↦ rw started (keeps_pure P tt)
    | inr fresh ↦ rw fresh (emit-Keeps _)
  ]

  consume-Keeps : (e : StreamEvent E) (s : Streamed) → Keeps P (consume env e s)
  unfolding consume
  consume-Keeps (text delta signature) s =
      keeps_bind P _ _ (start_message-Keeps "text" s)
        (λ _. keeps_bind P _ _ (emit-Keeps _) (λ _. keeps_pure P _))
  consume-Keeps (thought delta signature) s =
      keeps_bind P _ _ (start_message-Keeps "thinking" s)
        (λ _. keeps_bind P _ _ (emit-Keeps _) (λ _. keeps_pure P _))
  consume-Keeps call_start s = keeps_pure P _
  consume-Keeps (call_end c) s = keeps_bind P _ _ (emit-Keeps _) (λ _. keeps_pure P _)
  consume-Keeps (failed e true) s = keeps_bind P _ _ (emit-Keeps _) (λ _. keeps_pure P _)
  consume-Keeps (failed e false) s = keeps_throw P _
  consume-Keeps (retrying p n a d r b) s = keeps_bind P _ _ (emit-Keeps _) (λ _. keeps_pure P _)
  consume-Keeps (used u) s = keeps_pure P _
  consume-Keeps (ended r) s = keeps_bind P _ _ (emit-Keeps _) (λ _. keeps_pure P _)

  pub consume_all-Keeps :
      (es : List (StreamEvent E)) (s : Streamed) → Keeps P (consume_all env es s)
  unfolding consume_all
  consume_all-Keeps [] s = keeps_pure P _
  consume_all-Keeps (e ∷ es) s = keeps_bind P _ _ (consume-Keeps e s) (consume_all-Keeps es)

  rejected-Keeps : (c : ToolCallContent) (e : E) → Keeps P (rejected env c e)
  unfolding rejected
  rejected-Keeps c e = keeps_bind P _ _ (emit-Keeps _) (λ _. keeps_pure P _)

  hook_answered-Keeps :
      (tool : RegisteredTool X) (c : ToolCallContent) (answer : Option E)
      → Keeps P (hook_answered env tool c answer)
  unfolding hook_answered
  hook_answered-Keeps tool c none = keeps_pure P _
  hook_answered-Keeps tool c (some e) = rejected-Keeps c e

  prepare_tool_call-Keeps :
      (tools : List (RegisteredTool X)) (c : ToolCallContent)
      → Keeps P (prepare_tool_call env tools c)
  unfolding prepare_tool_call
  prepare_tool_call-Keeps tools c = elim (Option-cases (find_tool tools c.tool_name)) [
    | inl missing ↦ rw (missing, prepare_tool_call) (rejected-Keeps c env.tool_not_found)
    | inr (tool, found) ↦ elim (Option-cases env.before_tool_call) [
      | inl unset ↦ rw (found, unset, prepare_tool_call) (keeps_pure P _)
      | inr (hook, set) ↦
          rw (found, set, prepare_tool_call)
            (keeps_bind P (ask (hook c)) _ (ask-Keeps (hook c) (calm.before_tool_call hook set c))
              (hook_answered-Keeps tool c))
    ]
  ]

  pub prepare_all-Keeps :
      (tools : List (RegisteredTool X)) (cs : List ToolCallContent)
      → Keeps P (prepare_all env tools cs)
  unfolding prepare_all
  prepare_all-Keeps tools [] = keeps_pure P _
  prepare_all-Keeps tools (c ∷ cs) = keeps_bind P _ _ check_cancelled-Keeps (λ _.
      keeps_bind P _ _ (prepare_tool_call-Keeps tools c)
        (λ p. keeps_bind P _ _ (prepare_all-Keeps tools cs) (λ ps. keeps_pure P _)))

  run_step-Keeps : (s : BatchStep E) (slots : Slots X E) → Keeps P (run_step env s slots)
  unfolding run_step
  run_step-Keeps (updated i partial) slots = elim (Option-cases (call_of i slots)) [
    | inl nobody ↦ rw (nobody, run_step) (keeps_pure P _)
    | inr (c, found) ↦ rw (found, run_step) (keeps_bind P _ _ (emit-Keeps _) (λ _. keeps_pure P _))
  ]
  run_step-Keeps (finished i o hook) slots = elim (Option-cases (call_of i slots)) [
    | inl nobody ↦ rw (nobody, run_step) (keeps_pure P _)
    | inr (c, found) ↦ rw (found, run_step) (keeps_bind P _ _ (emit-Keeps _) (λ _. keeps_pure P _))
  ]

  pub run_steps-Keeps :
      (ss : List (BatchStep E)) (slots : Slots X E) → Keeps P (run_steps env ss slots)
  unfolding run_steps
  run_steps-Keeps [] slots = keeps_pure P _
  run_steps-Keeps (s ∷ ss) slots = keeps_bind P _ _ (run_step-Keeps s slots) (run_steps-Keeps ss)

  pub report_leaks-Keeps : (leaks : List (String × String)) → Keeps P (report_leaks env leaks)
  unfolding report_leaks
  report_leaks-Keeps [] = keeps_pure P _
  report_leaks-Keeps ((name, id) ∷ leaks) =
      keeps_bind P _ _ (emit-Keeps _) (λ _. report_leaks-Keeps leaks)

  pub await_tool_batch-Keeps :
      (end : BatchEnd E) (slots : Slots X E) → Keeps P (await_tool_batch env end slots)
  unfolding await_tool_batch
  await_tool_batch-Keeps waited slots = keeps_pure P _
  await_tool_batch-Keeps honored slots = set_phase-Keeps _
  await_tool_batch-Keeps (abandoned cause) slots =
      keeps_bind P _ _ (set_phase-Keeps _)
        (λ _. keeps_bind P _ _ (report_leaks-Keeps (leaked_calls slots)) (λ _. keeps_throw P _))
