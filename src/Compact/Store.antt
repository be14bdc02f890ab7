-- ===== src/Compact/Store.antt =====
-- What a session holds, and that a summarization ends and leaves it as it was.
use resolute_agent_core_go.Prelude.{
  if-either, ℕ, ◌≤◌, String, List, [], ◌∷◌, ◌++◌, Option, none, some, ◌≡◌, refl, sym, ap, ◌∙◌,
  subst, ℤ, pos, Outcome, ok, err, str_eq,
}
use resolute_agent_core_go.Message.{Message, Usage}
use resolute_agent_core_go.ModelRef.{parse_model_ref}
use resolute_agent_core_go.Compaction.{BranchSummary, CompactionPrep}
use resolute_agent_core_go.Convert.{default_convert_to_llm}
use resolute_agent_core_go.Retry.{Answer, RetryEvent, Summarized}
use resolute_agent_core_go.Retry.Protocol.{summarize_with_llm-Course}
use resolute_agent_core_go.Retry.Kept.{KeptBy, summarize_with_llm-KeptBy}
use resolute_agent_core_go.Compact.Summarize.{
  SummarizeError, SummaryRun, single_run, combined, turn_run, history_run, split_turn_summarize,
  is_mid_turn, no_model, invalid_model, history, loading_summaries, request_messages, single,
  with_summaries, refused, summarize,
}
use resolute_agent_core_go.Compact.Request.{
  SummaryEvent, SummaryRequest, CompactEnv, collected, summarize_once, services, ask,
  with_instruction,
}
use resolute_agent_core_go.Compact.Prompts.{summarization_prompt, turn_prefix_summarization_prompt}

-- What the sessions hold in a world: their messages and their summaries.
pub record Contents (W : Type 0) : Type 0 where
  pub messages : String → W → List Message
  pub summaries : String → W → List BranchSummary

-- No session has changed.
abbrev pub Same : {W : Type 0} → Contents W → W → W → Type 0
Same c w w' =
    (id : String) → (c.messages id w' ≡ c.messages id w) × (c.summaries id w' ≡ c.summaries id w)

pub Same-trans : {W : Type 0} (c : Contents W) (u v w : W) → Same c u v → Same c v w → Same c u w
Same-trans c u v w h k id = ((k id).0 ∙ (h id).0, (k id).1 ∙ (h id).1)

-- What a load answers with.
abbrev pub Loads : {E A : Type 0} → Outcome E A → A → Type 0
Loads (ok a) held = a ≡ held
Loads (err e) held = Unit

-- What is recorded, where appending succeeds.
abbrev pub Appends :
    {E W : Type 0} → Contents W → String → BranchSummary → W → Option E × W → Type 0
Appends c id s w (none, w') =
    (c.messages id w' ≡ c.messages id w) × (c.summaries id w' ≡ c.summaries id w ++ s ∷ [])
Appends c id s w (some e, w') = Same c w w'

-- The session answers with what it holds, and nothing but a summary that is appended changes it.
pub record IsStore {E W : Type 0} (env : CompactEnv E W) (c : Contents W) : Type 0 where
  pub stream_keeps : (r : SummaryRequest) (w : W) → Same c w (env.stream r w).2
  pub sleep_keeps : (delay : ℤ) (w : W) → Same c w (env.sleep delay w).1
  pub now_keeps : (w : W) → Same c w (env.now w).1
  pub load_keeps : (id : String) (w : W) → Same c w (env.load id w).1
  pub loads : (id : String) (w : W) → Loads (env.load id w).0 (c.messages id w)
  pub load_summaries_keeps : (id : String) (w : W) → Same c w (env.load_branch_summaries id w).1
  pub appends :
      (id : String) (s : BranchSummary) (w : W)
      → Appends c id s w (env.append_branch_summary id s w)
  pub before_keeps :
      (hook : String → ℕ → W → Option E × W)
      → env.before_compact ≡ some hook
      → (id : String) (cut : ℕ) (w : W) → Same c w (hook id cut w).1
  pub after_keeps :
      (hook : String → BranchSummary → W → W)
      → env.after_compact ≡ some hook
      → (id : String) (s : BranchSummary) (w : W) → Same c w (hook id s w)

module _ {E W : Type 0} (env : CompactEnv E W) (c : Contents W) (store : IsStore env c) where
  collected-world : (r : List SummaryEvent × Option E × W) → (collected env r).1 ≡ r.2
  unfolding collected
  collected-world (events, some e, w) = refl
  collected-world (events, none, w) = refl

  -- Where a call of the model ends, no session has changed.
  ask-KeptBy :
      (model : String) (msgs : List Message) (fuel : ℕ) (w0 w : W)
      → Same c w0 w
      → KeptBy (Same c w0) (ask env model msgs fuel w)
  unfolding ask services summarize_once
  ask-KeptBy model msgs fuel w0 w h =
      summarize_with_llm-KeptBy (services env model msgs) (Same c w0) once sleep env.retry fuel w h
    where
      once : (v : W) → Same c w0 v → Same c w0 (summarize_once env model msgs v).1
      once v k =
          let r : SummaryRequest = record {
            model = model;
            messages = default_convert_to_llm env.body_text msgs;
          } in
          subst (Same c w0) (sym (collected-world (env.stream r v)))
            (Same-trans c w0 v (env.stream r v).2 k (store.stream_keeps r v))

      sleep : (delay : ℤ) (v : W) → Same c w0 v → Same c w0 (env.sleep delay v).1
      sleep delay v k = Same-trans c w0 v (env.sleep delay v).1 k (store.sleep_keeps delay v)

  module _ (n fuel : ℕ) (bound : env.retry.max_retries ≡ pos n) (enough : n ≤ fuel) where
    ask-ends :
        (model : String) (msgs : List Message) (w0 w : W)
        → Same c w0 w
        → (s : Summarized E W) × (ask env model msgs fuel w ≡ some s) × Same c w0 s.world
    unfolding ask KeptBy
    ask-ends model msgs w0 w h =
        let (s, ends, _) =
          summarize_with_llm-Course (services env model msgs) env.retry n fuel w bound enough in
        (s, ends, subst (KeptBy (Same c w0)) ends (ask-KeptBy model msgs fuel w0 w h))

    -- A summarization ends and leaves the sessions as they were.
    abbrev pub Ends : W → Option (SummaryRun E W) → Type 0
    Ends w0 o = (r : SummaryRun E W) × (o ≡ some r) × Same c w0 r.world

    single-Ends :
        (model : String) (msgs : List Message) (w0 w : W)
        → Same c w0 w
        → Ends w0 (single env (ask env model msgs fuel w))
    unfolding single single_run
    single-Ends model msgs w0 w h =
        let (s, ends, same) = ask-ends model msgs w0 w h in
        (single_run env s, ap (single env) ends, same)

    turn_run-Ends :
        (first : String × Option Usage) (events : List (RetryEvent E)) (model : String)
        (msgs : List Message) (w0 w : W)
        → Same c w0 w
        → Ends w0 (turn_run env first events (ask env model msgs fuel w))
    unfolding turn_run combined
    turn_run-Ends first events model msgs w0 w h =
        let (s, ends, same) = ask-ends model msgs w0 w h in
        (combined env first events s, ap (turn_run env first events) ends, same)

    history_run-Ends :
        (model : String) (prep : CompactionPrep) (w0 : W) (s : Summarized E W)
        → Same c w0 s.world
        → Ends w0 (history_run env model prep fuel (some s))
    unfolding history_run
    history_run-Ends model prep w0 s h = by_answer s.answer s.events s.world h
      where
        by_answer :
            (answer : Answer E) (events : List (RetryEvent E)) (w : W)
            → Same c w0 w
            → Ends w0 (
                history_run env model prep fuel
                  (some (record { answer = answer; events = events; world = w })))
        by_answer (err f) events w h =
            (record { answer = err (history f); events = events; world = w }, refl, h)
        by_answer (ok first) events w h =
            turn_run-Ends first events model
              (with_instruction env prep.prefix turn_prefix_summarization_prompt) w0 w h

    split_turn_summarize-Ends :
        (model : String) (prep : CompactionPrep) (w0 w : W)
        → Same c w0 w
        → Ends w0 (split_turn_summarize env model prep fuel w)
    unfolding split_turn_summarize
    split_turn_summarize-Ends model prep w0 w h =
        let (s, ends, same) =
          ask-ends model (with_instruction env prep.prefix summarization_prompt) w0 w h in
        let (r, continued, kept) = history_run-Ends model prep w0 s same in
        (r, ap (history_run env model prep fuel) ends ∙ continued, kept)

    with_summaries-Ends :
        (model : String) (prep : CompactionPrep) (w0 : W) (r : Outcome E (List BranchSummary) × W)
        → Same c w0 r.1
        → Ends w0 (with_summaries env model prep fuel r)
    unfolding with_summaries
    with_summaries-Ends model prep w0 (err e, w) h =
        (record { answer = err (loading_summaries e); events = []; world = w }, refl, h)
    with_summaries-Ends model prep w0 (ok summaries, w) h =
        if-either (Ends w0) (is_mid_turn env prep) (split_turn_summarize-Ends model prep w0 w h)
          (single-Ends model (request_messages env summaries prep) w0 w h)

    refused-Ends : (e : SummarizeError E) (w0 w : W) → Same c w0 w → Ends w0 (refused env e w)
    unfolding refused
    refused-Ends e w0 w h = (record { answer = err e; events = []; world = w }, refl, h)

    pub summarize-Ends :
        (sid default_model : String) (prep : CompactionPrep) (w0 w : W)
        → Same c w0 w
        → Ends w0 (summarize env sid default_model prep fuel w)
    unfolding summarize
    summarize-Ends sid default_model prep w0 w h =
        if-either (Ends w0) (str_eq default_model "") (refused-Ends no_model w0 w h)
          (by_reference (parse_model_ref default_model))
      where
        by_reference :
            (o : Option (String × String))
            → Ends w0 (elim o [
              | none ↦ refused env invalid_model w
              | some (provider, model) ↦
                  with_summaries env model prep fuel (env.load_branch_summaries sid w)
            ])
        by_reference none = refused-Ends invalid_model w0 w h
        by_reference (some (provider, model)) =
            with_summaries-Ends model prep w0 (env.load_branch_summaries sid w) (
              Same-trans c w0 w (env.load_branch_summaries sid w).1 h
                (store.load_summaries_keeps sid w))
