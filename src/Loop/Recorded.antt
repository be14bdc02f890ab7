-- ===== src/Loop/Recorded.antt =====
-- What executeTools of prompt.go records of a batch, in the transcript and in the two marks.
use mathlib.Core.List.{append-nil, append_assoc}
use resolute_agent_core_go.Prelude.{
  ℕ, String, Bool, true, false, ◌&&◌, ◌||◌, not, List, [], ◌∷◌, ◌++◌, some, ok, ◌≡◌, ◌∙◌, refl, sym,
  ap, subst, inl, inr, All, Bool-cases, if◌then◌else◌,
}
use resolute_agent_core_go.Message.{Message}
use resolute_agent_core_go.ActiveTools.{RegisteredTool}
use resolute_agent_core_go.Loop.Machine.{
  ToolCallContent, PreparedCall, BatchRun, Environment, Machine, pure, ask,
}
use resolute_agent_core_go.Loop.Tools.{
  ToolOutcome, Slots, initial_slots, call_of, outcomes, check_cancelled, outcome_message, suspends,
  any_suspends, all_terminate, record_outcomes, set_terminated, set_suspended, conclude,
  execute_tools,
}
use resolute_agent_core_go.Loop.Judged.{IsJudged, outcomes-IsJudged}
use resolute_agent_core_go.Loop.Keeps.{set_phase-Keeps, check_cancelled-Keeps}
use resolute_agent_core_go.Loop.AtTurn.{AnyChange, env-IsQuiet}
use resolute_agent_core_go.Loop.Triples.{
  After, Triple, triple_bind, triple_keeps, triple_pure, triple_given, triple_map, triple_result,
}
use resolute_agent_core_go.Loop.Slots.{Answers, HasFinished, IsAnswer, IsOverAt, expected}
use resolute_agent_core_go.Loop.Batch.{filled, results, filled_lem, initial_slots-IsOverAt}
use resolute_agent_core_go.Loop.Answers.{
  Marks, IsWaited, Marks-IsStable, calls_of, all_called, prepare_all-Triple, run_steps-Triple,
  await_tool_batch-Triple, append_transcript-Triple,
}

-- The results that are recorded: those of the calls that do not suspend.
unfoldable pub recorded :
    {X L E W : Type 0} → Environment X L E W → List (ToolOutcome E) → List Message
recorded env [] = []
recorded env (o ∷ os) =
    if suspends o then recorded env os else outcome_message env.error_text o ∷ recorded env os

-- Where all results terminate, none is recorded.
unfoldable pub added :
    {X L E W : Type 0} → Environment X L E W → List (ToolOutcome E) → List Message
added env os = if all_terminate os then [] else recorded env os

module _ {X L E W : Type 0} (env : Environment X L E W) (b s : Bool) where
  record_outcomes-Triple :
      (os : List (ToolOutcome E)) (t : List Message)
      → Triple (Marks t b s) (record_outcomes env os) (λ u. Marks (t ++ recorded env os) b s)
  unfolding record_outcomes recorded
  record_outcomes-Triple [] t =
      triple_pure _ (λ m h. subst (λ l. Marks l b s m) (sym (append-nil t)) h)
  record_outcomes-Triple (o ∷ os) t = elim (Bool-cases (suspends o)) [
    | inl pending ↦ rw (pending, record_outcomes, recorded) (record_outcomes-Triple os t)
    | inr done ↦
        rw (done, record_outcomes, recorded)
          (triple_bind _ _ (append_transcript-Triple env t b s _) (λ _.
            triple_map _
              (λ u m h. subst (λ l. Marks l b s m) (append_assoc t _ (recorded env os)) h)
              (record_outcomes-Triple os _)))
  ]

  mark_suspended-Triple :
      (t : List Message) (c : Bool)
      → Triple (Marks t b s) (if c then set_suspended env else pure tt) (λ u. Marks t b (c || s))
  unfolding set_suspended After
  mark_suspended-Triple t true = record {
    holds = λ m h. record {
      transcript_is = h.transcript_is;
      terminated_is = h.terminated_is;
      suspended_is = refl;
    };
  }
  mark_suspended-Triple t false = record { holds = λ m h. h }

  conclude-Triple :
      (os : List (ToolOutcome E)) (t : List Message)
      → Triple (Marks t b s) (conclude env os) (λ u.
        Marks
          (t ++ added env os)
          (all_terminate os || b)
          ((not (all_terminate os) && any_suspends os) || s))
  unfolding conclude added set_terminated After
  conclude-Triple os t = elim (Bool-cases (all_terminate os)) [
    | inl all ↦
        rw (all, conclude, added)
          (record {
            holds = λ m h. record {
              transcript_is = h.transcript_is ∙ sym (append-nil t);
              terminated_is = refl;
              suspended_is = h.suspended_is;
            };
          })
    | inr goes_on ↦
        rw (goes_on, conclude, added)
          (triple_bind _ _ (record_outcomes-Triple os t)
            (λ _. mark_suspended-Triple _ (any_suspends os)))
  ]

-- A batch that is not given up finishes its runnable calls.
abbrev pub Waits : {X L E W : Type 0} → Environment X L E W → Type 0
Waits {X} {L} {E} {W} env =
    (ps : List (PreparedCall X E)) (w : W)
    → IsWaited (((env.run_batch ps w).0).end)
    → (i : ℕ) (c : String × String) → call_of i (initial_slots ps) ≡ some c
    → HasFinished i (((env.run_batch ps w).0).steps)

module _ {X L E W : Type 0} (env : Environment X L E W) (waits : Waits env)
    (answers : List (PreparedCall X E) → W → Answers E)
    (agree : (ps : List (PreparedCall X E)) (w : W)
      → All (IsAnswer (answers ps w)) (((env.run_batch ps w).0).steps)) where
  -- A batch of calls that was executed: the outcomes are in the order of the calls.
  pub record IsExecuted (calls : List ToolCallContent) (before m : Machine L E W) : Type 0 where
    pub prepared : List (PreparedCall X E)
    pub world : W
    pub same_calls : all_called prepared ≡ calls_of calls
    pub transcript_is :
        m.run.transcript
        ≡ before.run.transcript
          ++ added env (expected (results env (answers prepared world)) prepared)
    pub terminated_is : m.run.terminated ≡ (
        all_terminate (expected (results env (answers prepared world)) prepared)
        || before.run.terminated)
    pub judged : IsJudged env.error_text (expected (results env (answers prepared world)) prepared)
    pub suspended_is : m.run.suspended ≡ (
        (not (all_terminate (expected (results env (answers prepared world)) prepared))
          && any_suspends (expected (results env (answers prepared world)) prepared))
        || before.run.suspended)

  IsExecutedFrom : List ToolCallContent → List Message → Bool → Bool → Machine L E W → Type 0
  IsExecutedFrom calls t b s m =
      (ps : List (PreparedCall X E)) × (w : W) × (all_called ps ≡ calls_of calls)
      × (let os : List (ToolOutcome E) = expected (results env (answers ps w)) ps in
          Marks (t ++ added env os) (all_terminate os || b)
            ((not (all_terminate os) && any_suspends os) || s) m)

  batch_over :
      (ps : List (PreparedCall X E)) (w : W) (batch : BatchRun E) (slots : Slots X E)
      → batch ≡ (env.run_batch ps w).0
      → slots ≡ filled env batch.steps (initial_slots ps)
      → IsWaited batch.end
      → (i : ℕ) → IsOverAt i slots
  batch_over ps w batch slots ran filled_so was i = subst (IsOverAt i) (sym filled_so) (
      initial_slots-IsOverAt env ps batch.steps
        (λ k c at.
          subst (λ r. HasFinished k r.steps) (sym ran)
            (waits ps w (subst (λ r. IsWaited r.end) ran was) k c at))
        i)

  in_order :
      (ps : List (PreparedCall X E)) (w : W) (batch : BatchRun E) (slots : Slots X E)
      → batch ≡ (env.run_batch ps w).0
      → slots ≡ filled env batch.steps (initial_slots ps)
      → ((i : ℕ) → IsOverAt i slots)
      → outcomes slots ≡ expected (results env (answers ps w)) ps
  in_order ps w batch slots ran filled_so over =
      ap outcomes filled_so
      ∙ filled_lem env (answers ps w) ps batch.steps
          (subst (λ r. All (IsAnswer (answers ps w)) r.steps) (sym ran) (agree ps w))
          (λ i. subst (IsOverAt i) filled_so (over i))

  run_batch-Triple :
      (ps : List (PreparedCall X E)) (t : List Message) (b s : Bool)
      → Triple
          (Marks {L = L} {E = E} t b s)
          (ask (env.run_batch ps))
          (λ batch m. Marks t b s m × ((w : W) × (batch ≡ (env.run_batch ps w).0)))
  unfolding After
  run_batch-Triple ps t b s = record {
    holds = λ m h. (
      record {
        transcript_is = h.transcript_is;
        terminated_is = h.terminated_is;
        suspended_is = h.suspended_is;
      },
      (m.world, refl),
    );
  }

  concluded-Triple :
      (calls : List ToolCallContent) (ps : List (PreparedCall X E)) (w : W) (slots : Slots X E)
      (t : List Message) (b s : Bool)
      → all_called ps ≡ calls_of calls
      → outcomes slots ≡ expected (results env (answers ps w)) ps
      → Triple (Marks t b s) (conclude env (outcomes slots)) (λ u. IsExecutedFrom calls t b s)
  unfolding IsExecutedFrom
  concluded-Triple calls ps w slots t b s same ordered =
      subst (λ os. Triple (Marks t b s) (conclude env os) (λ u. IsExecutedFrom calls t b s))
        (sym ordered)
        (triple_map _ (λ u m h. (ps, w, same, h))
          (conclude-Triple env b s (expected (results env (answers ps w)) ps) t))

  execute_tools-Triple :
      (calls : List ToolCallContent) (tools : List (RegisteredTool X)) (t : List Message)
      (b s : Bool)
      → Triple (Marks t b s) (execute_tools env calls tools) (λ u. IsExecutedFrom calls t b s)
  unfolding execute_tools
  execute_tools-Triple calls tools t b s =
      triple_bind _ _
        (triple_keeps _
          (set_phase-Keeps env _ AnyChange (Marks-IsStable env t b s) (env-IsQuiet env) _))
        (λ _. triple_bind _ _ calm (λ _.
          triple_bind _ _ (prepare_all-Triple env t b s tools calls) (λ ps. triple_given (λ same.
            triple_bind _ _ calm (λ _. triple_bind _ _ (run_batch-Triple ps t b s) (λ batch.
              triple_given (λ ran.
                triple_bind _ _ (run_steps-Triple env t b s batch.steps (initial_slots ps))
                  (λ slots. triple_given (λ so.
                    triple_bind _ _
                      (await_tool_batch-Triple env t b s batch.end slots
                        (batch_over ps ran.0 batch slots ran.1 so))
                      (λ _. triple_given (λ over.
                        concluded-Triple calls ps ran.0 slots t b s same
                          (in_order ps ran.0 batch slots ran.1 so over))))))))))))
    where
      calm : Triple (Marks t b s) (check_cancelled env) (λ u. Marks t b s)
      calm =
          triple_keeps _
            (check_cancelled-Keeps env _ AnyChange (Marks-IsStable env t b s) (env-IsQuiet env))

  -- Where a batch that is not given up finishes its calls, in whatever order, and executeTools
  -- returns without error: the transcript has, after what it had, a result for each call in the order of
  -- the calls, with its id and name, the error of one that was not run or what its tool answered, but
  -- none for a call that suspends, and none at all where all results terminate. What is recorded
  -- reads back with the id, the name and the result, or the text of the error. The prompt is marked
  -- terminated where there are results and all carry that mark, and suspended where they do not and one
  -- carries that one.
  pub execute_tools-IsExecuted :
      (calls : List ToolCallContent) (tools : List (RegisteredTool X)) (before m : Machine L E W)
      → execute_tools env calls tools before ≡ (ok tt, m)
      → IsExecuted calls before m
  unfolding IsExecutedFrom
  execute_tools-IsExecuted calls tools before m returned =
      let h : IsExecutedFrom calls before.run.transcript before.run.terminated before.run.suspended
          m =
        triple_result _ before m tt
          (execute_tools-Triple calls tools before.run.transcript before.run.terminated
            before.run.suspended)
          (record { transcript_is = refl; terminated_is = refl; suspended_is = refl }) returned in
      record {
        prepared = h.0;
        world = h.1;
        same_calls = h.2;
        transcript_is = h.3.transcript_is;
        terminated_is = h.3.terminated_is;
        judged = outcomes-IsJudged env.error_text _;
        suspended_is = h.3.suspended_is;
      }
