-- ===== src/Compact/Effect.antt =====
-- What the model is sent behind a compaction: Agent.Compact together with BuildLLMContext.
use mathlib.Core.Option.{some-injective}
use mathlib.Core.Path.{ap₂}
use resolute_agent_core_go.Prelude.{
  ℕ, ◌≤◌, ◌<◌, String, List, [], ◌∷◌, ◌++◌, some, ◌≡◌, sym, ap, ◌∙◌, subst, inl, inr, pos, Outcome,
  ok, drop, arith, All, All-append,
}
use resolute_agent_core_go.Message.{Message, new_branch_summary_message}
use resolute_agent_core_go.Compaction.{
  BranchSummary, CompactionSettings, build_llm_context, drop_bookkeeping,
}
use resolute_agent_core_go.Compaction.Context.{StartsAtZero, build_llm_context-first_summary}
use resolute_agent_core_go.Config.{Agent}
use resolute_agent_core_go.Compact.Request.{CompactEnv}
use resolute_agent_core_go.Compact.Store.{Contents, IsStore}
use resolute_agent_core_go.Compact.Recorded.{IsCompaction, CompactCase, compact-CompactCase}
use resolute_agent_core_go.Compact.{
  CompactOpts, CompactResult, CompactError, Compacted, settings_of, session_to_compact, compact,
}

-- What BuildLLMContext makes of a session.
abbrev pub context_of : {W : Type 0} → Contents W → String → W → List Message
context_of c id w = build_llm_context (c.messages id w) (c.summaries id w)

-- The context, by what is recorded.
context-recorded :
    {W : Type 0} (c : Contents W) (sid : String) (s : CompactionSettings) (w w' : W)
    (r : CompactResult)
    → IsCompaction c sid s w w' r
    → context_of c sid w'
      ≡ build_llm_context (c.messages sid w) (c.summaries sid w ++ r.summary ∷ [])
context-recorded c sid s w w' r h = ap₂ build_llm_context h.messages_kept h.recorded

context-first :
    {W : Type 0} (c : Contents W) (sid : String) (s : CompactionSettings) (w w' : W)
    (r : CompactResult)
    → 0 < r.removed_count
    → c.summaries sid w ≡ []
    → IsCompaction c sid s w w' r
    → context_of c sid w'
      ≡ new_branch_summary_message r.summary.summary
        ∷ drop_bookkeeping (drop r.removed_count (c.messages sid w))
unfolding drop_bookkeeping new_branch_summary_message
context-first c sid s w w' r some_removed none_before h =
    let ends : r.summary.end_idx ≡ r.removed_count = h.to_cut ∙ sym h.removed in
    context-recorded c sid s w w' r h
    ∙ ap (λ ss. build_llm_context (c.messages sid w) (ss ++ r.summary ∷ [])) none_before
    ∙ build_llm_context-first_summary (c.messages sid w) r.summary [] h.from_start tt
        (omega (arith, ends))
    ∙ ap
        (λ n.
          new_branch_summary_message r.summary.summary
          ∷ drop_bookkeeping (drop n (c.messages sid w)))
        ends

context-again :
    {W : Type 0} (c : Contents W) (sid : String) (s : CompactionSettings) (w w' : W)
    (r : CompactResult) (t : BranchSummary) (ts : List BranchSummary)
    → c.summaries sid w ≡ t ∷ ts
    → All StartsAtZero (t ∷ ts)
    → 0 < t.end_idx
    → IsCompaction c sid s w w' r
    → context_of c sid w' ≡ context_of c sid w
context-again c sid s w w' r t ts before (z, zs) covers h =
    context-recorded c sid s w w' r h
    ∙ ap (λ ss. build_llm_context (c.messages sid w) (ss ++ r.summary ∷ [])) before
    ∙ build_llm_context-first_summary (c.messages sid w) t (ts ++ r.summary ∷ []) z
        (All-append StartsAtZero ts (r.summary ∷ []) zs (h.from_start, tt)) covers
    ∙ sym (build_llm_context-first_summary (c.messages sid w) t ts z zs covers)
    ∙ ap (build_llm_context (c.messages sid w)) (sym before)

-- A result that is no error, of a call that removed something, is a compaction.
compacted :
    {X L E W : Type 0} (a : Agent X L) (env : CompactEnv E W) (c : Contents W) (fuel : ℕ)
    (sid : String) (s : CompactionSettings) (w w' : W) (o : Outcome (CompactError E) CompactResult)
    (r : CompactResult)
    → CompactCase a env c fuel sid s w w' o
    → o ≡ ok r
    → 0 < r.removed_count
    → IsCompaction c sid s w w' r
unfolding CompactCase
compacted a env c fuel sid s w w' o r h is_ok some_removed =
    elim (subst (CompactCase a env c fuel sid s w w') is_ok h).1 [
      | inl (_, nothing, _) ↦
          absurd (omega (arith, ap (λ (x : CompactResult). x.removed_count) nothing))
      | inr (_, compaction) ↦ compaction
    ]

module _ {X L E W : Type 0} (a : Agent X L) (env : CompactEnv E W) (c : Contents W)
    (store : IsStore env c) (n fuel : ℕ) (bound : env.retry.max_retries ≡ pos n) (enough : n ≤ fuel)
    (opts : CompactOpts) (w : W) (after : Compacted E W) (r : CompactResult)
    (ends : compact a env opts fuel w ≡ some after) (succeeds : after.result ≡ ok r)
    (removes : 0 < r.removed_count) where
  abbrev sid : String
  sid = session_to_compact a env opts

  compaction : IsCompaction c sid (settings_of a env opts) w after.world r
  compaction =
      let (found, found_ends, case) =
        compact-CompactCase a env c store n fuel bound enough opts w in
      let same : found ≡ after = some-injective found after (sym found_ends ∙ ends) in
      compacted a env c fuel sid (settings_of a env opts) w after.world after.result r
        (subst
          (λ (x : Compacted E W).
            CompactCase a env c fuel sid (settings_of a env opts) w x.world x.result)
          same case)
        succeeds removes

  -- Where Compact, over a session that keeps what it is given and with fuel for its retries, succeeds
  -- and removes something from a session without summaries, the model sees the new summary in the
  -- place of what was removed, then the other messages without the bookkeeping entries.
  pub compact-first_context :
      c.summaries sid w ≡ []
      → context_of c sid after.world
        ≡ new_branch_summary_message r.summary.summary
          ∷ drop_bookkeeping (drop r.removed_count (c.messages sid w))
  compact-first_context none_before =
      context-first c sid (settings_of a env opts) w after.world r removes none_before compaction

  -- Where Compact, over a session that keeps what it is given and with fuel for its retries, succeeds
  -- and removes something from a session whose summaries start at index 0, the first of them ending
  -- behind it, the model is sent what it was sent before.
  pub compact-same_context :
      (t : BranchSummary) (ts : List BranchSummary)
      → c.summaries sid w ≡ t ∷ ts
      → All StartsAtZero (t ∷ ts)
      → 0 < t.end_idx
      → context_of c sid after.world ≡ context_of c sid w
  compact-same_context t ts before zeros covers =
      context-again c sid (settings_of a env opts) w after.world r t ts before zeros covers
        compaction
