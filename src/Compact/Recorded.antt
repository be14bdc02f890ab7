-- ===== src/Compact/Recorded.antt =====
-- What Agent.Compact records in the session, and what the model sees behind it.
use mathlib.Core.Option.{none-ne-some}
use resolute_agent_core_go.Prelude.{
  if-true, if-false, Bool-cases, false, true, ◌≢◌, eq_iff, arith, ℕ, ◌≤◌, String, List, [], ◌∷◌,
  ◌++◌, Option, none, some, ◌≡◌, refl, sym, ap, ◌∙◌, subst, ◌⊎◌, inl, inr, pos, Outcome, ok, err,
  str_eq,
}
use resolute_agent_core_go.Message.{Message, Usage}
use resolute_agent_core_go.Compaction.{
  BranchSummary, CompactionSettings, CompactionPrep, prepare_compaction,
}
use resolute_agent_core_go.Retry.{RetryEvent}
use resolute_agent_core_go.Config.{Agent, is_running}
use resolute_agent_core_go.Compact.Summarize.{SummarizeError, SummaryRun, summarize}
use resolute_agent_core_go.Compact.Request.{CompactEnv}
use resolute_agent_core_go.Compact.Store.{
  Contents, Same, Same-trans, Loads, Appends, IsStore, Ends, summarize-Ends,
}
use resolute_agent_core_go.Compact.{
  CompactOpts, CompactResult, nothing_compacted, CompactError, agent_busy, loading, before_hook,
  persisting, summarization, Compacted, settings_of, notify_after, after_append, record_summary,
  after_summarize, after_before_hook, run_before_hook, with_plan, with_messages, session_to_compact,
  compact,
}

-- A compaction of the session, whose plan is that of its messages: the summary of the prefix is
-- recorded behind the earlier ones.
pub record IsCompaction {W : Type 0} (c : Contents W) (sid : String) (s : CompactionSettings)
    (w w' : W) (r : CompactResult) : Type 0 where
  pub prep : CompactionPrep
  pub planned : prepare_compaction (c.messages sid w) s ≡ some prep
  pub from_start : r.summary.start_idx ≡ 0
  pub to_cut : r.summary.end_idx ≡ prep.cut_idx
  pub removed : r.removed_count ≡ prep.cut_idx
  pub messages_kept : c.messages sid w' ≡ c.messages sid w
  pub recorded : c.summaries sid w' ≡ c.summaries sid w ++ r.summary ∷ []

module _ {X L E W : Type 0} (a : Agent X L) (env : CompactEnv E W) (c : Contents W) (fuel : ℕ)
    (sid : String) (s : CompactionSettings) (w : W) where
  -- A compaction is called for: no prompt runs, there is a session, and its messages have a plan.
  abbrev pub IsDue : CompactionPrep → Type 0
  IsDue prep =
      (is_running a ≡ false) × (sid ≢ "") × (prepare_compaction (c.messages sid w) s ≡ some prep)

  -- Nothing is to compact: there is no session, or its messages have no plan.
  abbrev pub IsIdle : Type 0
  IsIdle = (sid ≡ "") ⊎ ((sid ≢ "") × (prepare_compaction (c.messages sid w) s ≡ none))

  -- What an error comes from: a running prompt, or the call that answered with it.
  unfoldable pub Cause : CompactError E → Type 0
  Cause agent_busy = is_running a ≡ true
  Cause (loading e) = (is_running a ≡ false) × (sid ≢ "") × ((env.load sid w).0 ≡ err e)
  Cause (before_hook e) =
      (prep : CompactionPrep) × IsDue prep
      × (hook : String → ℕ → W → Option E × W) × (v : W) × (env.before_compact ≡ some hook)
      × ((hook sid prep.cut_idx v).0 ≡ some e)
  Cause (summarization f) =
      (prep : CompactionPrep) × IsDue prep
      × (run : SummaryRun E W) × (v : W) × (summarize env sid a.config.default_model prep fuel v
          ≡ some run)
      × (run.answer ≡ err f)
  Cause (persisting e) =
      (prep : CompactionPrep) × IsDue prep
      × (bs : BranchSummary) × (v : W) × ((env.append_branch_summary sid bs v).0 ≡ some e)

  -- What a call of Compact may do.
  unfoldable pub CompactCase : W → Outcome (CompactError E) CompactResult → Type 0
  CompactCase w' (err e) = Cause e × Same c w w'
  CompactCase w' (ok r) =
      (is_running a ≡ false)
      × ((IsIdle × (r ≡ nothing_compacted) × Same c w w')
          ⊎ ((sid ≢ "") × IsCompaction c sid s w w' r))

module _ {X L E W : Type 0} (a : Agent X L) (env : CompactEnv E W) (c : Contents W)
    (store : IsStore env c) (n fuel : ℕ) (bound : env.retry.max_retries ≡ pos n) (enough : n ≤ fuel)
    (sid : String) (s : CompactionSettings) (w0 : W) (free : is_running a ≡ false)
    (session : sid ≢ "") where
  abbrev Case : Option (Compacted E W) → Type 0
  Case o = (r : Compacted E W) × (o ≡ some r) × CompactCase a env c fuel sid s w0 r.world r.result

  notify_after-Same : (bs : BranchSummary) (w : W) → Same c w (notify_after a env sid bs w)
  unfolding notify_after
  notify_after-Same bs w = by_hook env.after_compact store.after_keeps
    where
      by_hook :
          (o : Option (String → BranchSummary → W → W))
          → ((hook : String → BranchSummary → W → W)
              → o ≡ some hook
              → (id : String) (b : BranchSummary) (v : W) → Same c v (hook id b v))
          → Same c w (elim o [ none ↦ w | some hook ↦ hook sid bs w ])
      by_hook none k = λ id. (refl, refl)
      by_hook (some hook) k = k hook refl sid bs w

  after_append-Case :
      (prep : CompactionPrep) (bs : BranchSummary) (events : List (RetryEvent E)) (w : W)
      (r : Option E × W)
      → prepare_compaction (c.messages sid w0) s ≡ some prep
      → bs.start_idx ≡ 0
      → bs.end_idx ≡ prep.cut_idx
      → Same c w0 w
      → env.append_branch_summary sid bs w ≡ r
      → Appends c sid bs w r
      → Case (some (after_append a env sid bs events r))
  unfolding after_append CompactCase Cause
  after_append-Case prep bs events w (some e, w') planned start end h is k = (
    record { result = err (persisting e); events = events; world = w' },
    refl,
    (
      (prep, (free, session, planned), bs, w, ap (λ (o : Option E × W). o.0) is),
      Same-trans c w0 w w' h k,
    ),
  )
  after_append-Case prep bs events w (none, w') planned start end h is (kept, added) =
      let after = notify_after a env sid bs w' in
      let hooked = notify_after-Same bs w' sid in
      (
        record {
          result = ok (record { summary = bs; removed_count = bs.end_idx });
          events = events;
          world = after;
        },
        refl,
        (
          free,
          inr (
            session,
            record {
              prep = prep;
              planned = planned;
              from_start = start;
              to_cut = end;
              removed = end;
              messages_kept = hooked.0 ∙ kept ∙ (h sid).0;
              recorded = hooked.1 ∙ added ∙ ap (λ l. l ++ bs ∷ []) (h sid).1;
            },
          ),
        ),
      )

  record_summary-Case :
      (prep : CompactionPrep) (events : List (RetryEvent E)) (answer : String × Option Usage)
      (w : W)
      → prepare_compaction (c.messages sid w0) s ≡ some prep
      → Same c w0 w
      → Case (some (record_summary a env sid prep events answer (env.now w)))
  unfolding record_summary
  record_summary-Case prep events (summary, usage) w planned h =
      let (time, w1) = env.now w in
      let bs : BranchSummary = record {
        start_idx = 0;
        end_idx = prep.cut_idx;
        summary = summary;
        created_at = time;
        usage = usage;
      } in
      after_append-Case prep bs events w1 (env.append_branch_summary sid bs w1) planned refl refl
        (Same-trans c w0 w w1 h (store.now_keeps w)) refl (store.appends sid bs w1)

  after_summarize-Case :
      (prep : CompactionPrep) (o : Option (SummaryRun E W)) (v : W)
      → prepare_compaction (c.messages sid w0) s ≡ some prep
      → summarize env sid a.config.default_model prep fuel v ≡ o
      → Ends env c store n fuel bound enough w0 o
      → Case (after_summarize a env sid prep o)
  unfolding after_summarize CompactCase Cause
  after_summarize-Case prep o v planned is (run, ended, same) =
      subst (λ p. Case (after_summarize a env sid prep p)) (sym ended)
        (by_answer run.answer run.events run.world (is ∙ ended) same)
    where
      by_answer :
          (answer : Outcome (SummarizeError E) (String × Option Usage))
          (events : List (RetryEvent E)) (w : W)
          → summarize env sid a.config.default_model prep fuel v
            ≡ some (record { answer = answer; events = events; world = w })
          → Same c w0 w
          → Case (
              after_summarize a env sid prep
                (some (record { answer = answer; events = events; world = w })))
      by_answer (err f) events w run same = (
        record { result = err (summarization f); events = events; world = w },
        refl,
        ((prep, (free, session, planned), _, v, run, refl), same),
      )
      by_answer (ok answer) events w run same =
          record_summary-Case prep events answer w planned same

  run_before_hook-Same :
      (prep : CompactionPrep) (w : W) → Same c w (run_before_hook a env sid prep w).1
  unfolding run_before_hook
  run_before_hook-Same prep w = by_hook env.before_compact store.before_keeps
    where
      by_hook :
          (o : Option (String → ℕ → W → Option E × W))
          → ((hook : String → ℕ → W → Option E × W)
              → o ≡ some hook
              → (id : String) (cut : ℕ) (v : W) → Same c v (hook id cut v).1)
          → Same c w
              (elim o as (λ _. Option E × W) [
                | none ↦ (none, w)
                | some hook ↦ hook sid prep.cut_idx w
              ]).1
      by_hook none k = λ id. (refl, refl)
      by_hook (some hook) k = k hook refl sid prep.cut_idx w

  run_before_hook-Cause :
      (prep : CompactionPrep) (w : W) (e : E)
      → prepare_compaction (c.messages sid w0) s ≡ some prep
      → (run_before_hook a env sid prep w).0 ≡ some e
      → Cause a env c fuel sid s w0 (before_hook e)
  unfolding run_before_hook Cause
  run_before_hook-Cause prep w e planned = by_hook env.before_compact refl
    where
      by_hook :
          (o : Option (String → ℕ → W → Option E × W))
          → env.before_compact ≡ o
          → (elim o as (λ _. Option E × W) [
            | none ↦ (none, w)
            | some hook ↦ hook sid prep.cut_idx w
          ]).0
            ≡ some e
          → Cause a env c fuel sid s w0 (before_hook e)
      by_hook none is h = absurd (none-ne-some e h)
      by_hook (some hook) is h = (prep, (free, session, planned), hook, w, is, h)

  after_before_hook-Case :
      (prep : CompactionPrep) (r : Option E × W)
      → prepare_compaction (c.messages sid w0) s ≡ some prep
      → ((e : E) → r.0 ≡ some e → Cause a env c fuel sid s w0 (before_hook e))
      → Same c w0 r.1
      → Case (after_before_hook a env sid prep fuel r)
  unfolding after_before_hook CompactCase
  after_before_hook-Case prep (some e, w) planned cause same =
      (record { result = err (before_hook e); events = []; world = w }, refl, (cause e refl, same))
  after_before_hook-Case prep (none, w) planned cause same =
      after_summarize-Case prep (summarize env sid a.config.default_model prep fuel w) w planned
        refl
        (summarize-Ends env c store n fuel bound enough sid a.config.default_model prep w0 w same)

  with_plan-Case :
      (plan : Option CompactionPrep) (w : W)
      → prepare_compaction (c.messages sid w0) s ≡ plan
      → Same c w0 w
      → Case (with_plan a env sid plan fuel w)
  unfolding with_plan CompactCase
  with_plan-Case none w planned same = (
    record { result = ok nothing_compacted; events = []; world = w },
    refl,
    (free, inl (inr (session, planned), refl, same)),
  )
  with_plan-Case (some prep) w planned same =
      after_before_hook-Case prep (run_before_hook a env sid prep w) planned
        (λ e h. run_before_hook-Cause prep w e planned h)
        (Same-trans c w0 w (run_before_hook a env sid prep w).1 same (run_before_hook-Same prep w))

  with_messages-Case :
      (opts : CompactOpts) (r : Outcome E (List Message) × W)
      → settings_of a env opts ≡ s
      → (env.load sid w0).0 ≡ r.0
      → Loads r.0 (c.messages sid w0)
      → Same c w0 r.1
      → Case (with_messages a env sid opts fuel r)
  unfolding with_messages CompactCase Cause
  with_messages-Case opts (err e, w) settings is loaded same = (
    record { result = err (loading e); events = []; world = w },
    refl,
    ((free, session, is), same),
  )
  with_messages-Case opts (ok msgs, w) settings is loaded same =
      with_plan-Case (prepare_compaction msgs (settings_of a env opts)) w
        (rw (loaded, settings) refl) same

-- Where the session answers with what it holds and nothing but appending changes it, MaxRetries is n,
-- not negative, and there is fuel for n retries, Compact ends. An error leaves every session as it was
-- and has its cause: agent_busy that a prompt runs, any other that none runs and the loading of the
-- session, or, where its messages have a plan, the hook before it, the summary or the appending
-- answered with that error. Else no prompt runs, and where there is no session or no plan for its
-- messages the result is empty and nothing changed; where there is one, the session has, behind the
-- summaries that it had, a summary from index 0 to the cut of the plan, and the messages that it had.
pub compact-CompactCase :
    {X L E W : Type 0} (a : Agent X L) (env : CompactEnv E W) (c : Contents W)
    → IsStore env c
    → (n fuel : ℕ) → env.retry.max_retries ≡ pos n
    → n ≤ fuel
    → (opts : CompactOpts) (w : W)
    → (r : Compacted E W) × (compact a env opts fuel w ≡ some r)
      × CompactCase a env c fuel
          (session_to_compact a env opts)
          (settings_of a env opts)
          w
          r.world
          r.result
unfolding compact CompactCase Cause
compact-CompactCase {E = E} {W = W} a env c store n fuel bound enough opts w =
    let sid : String = session_to_compact a env opts in
    let s : CompactionSettings = settings_of a env opts in
    let P : Option (Compacted E W) → Type 0 =
      λ o. (r : Compacted E W) × (o ≡ some r) × CompactCase a env c fuel sid s w r.world r.result in
    elim (Bool-cases (is_running a)) [
      | inl busy ↦ if-true P (is_running a) _ _ busy (
        record { result = err agent_busy; events = []; world = w },
        refl,
        (busy, (λ id. (refl, refl))),
      )
      | inr free ↦ if-false P (is_running a) _ _ free (elim (Bool-cases (str_eq sid "")) [
        | inl none_there ↦ if-true P (str_eq sid "") _ _ none_there (
          record { result = ok nothing_compacted; events = []; world = w },
          refl,
          (free, inl (inl (ground (arith, eq_iff sid "")), refl, (λ id. (refl, refl)))),
        )
        | inr there ↦ if-false P (str_eq sid "") _ _ there (
            with_messages-Case a env c store n fuel bound enough sid s w free
              (ground (arith, eq_iff sid "")) opts (env.load sid w) refl refl (store.loads sid w)
              (store.load_keeps sid w))
      ])
    ]
