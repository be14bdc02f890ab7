-- ===== src/Compact.antt =====
-- Agent.Compact of compact.go, over the settings of the Agent, its session, its provider and its hooks.
-- The lock around the last session's id makes its reading one step.
pub mod Prompts
pub mod Request
pub mod Summarize
pub mod Store
pub mod Recorded
pub mod Effect
use resolute_agent_core_go.Prelude.{
  ℕ, zero, suc, String, Bool, true, false, List, [], ◌∷◌, ◌++◌, Option, none, some, ℤ, pos, ltb_ℤ,
  Outcome, ok, err, if◌then◌else◌, str_eq,
}
use resolute_agent_core_go.Message.{Message, Usage}
use resolute_agent_core_go.Compaction.{
  BranchSummary, CompactionSettings, CompactionPrep, for_model, prepare_compaction,
}
use resolute_agent_core_go.Retry.{RetryEvent}
use resolute_agent_core_go.Config.{Agent, is_running}
use resolute_agent_core_go.Compact.Summarize.{SummarizeError, SummaryRun, summarize}
use resolute_agent_core_go.Compact.Request.{CompactEnv}

pub record CompactOpts : Type 0 where
  pub session_id : String
  pub keep_recent_tokens : ℤ

pub record CompactResult : Type 0 where
  pub summary : BranchSummary
  pub removed_count : ℕ

-- CompactResult{}; the zero time is 0.
abbrev pub nothing_compacted : CompactResult
nothing_compacted = record {
  summary = record { start_idx = 0; end_idx = 0; summary = ""; created_at = 0; usage = none };
  removed_count = 0;
}

pub data CompactError (E : Type 0) : Type 0 where
  agent_busy : CompactError E
  loading before_hook persisting : E → CompactError E
  summarization : SummarizeError E → CompactError E

pub record Compacted (E W : Type 0) : Type 0 where
  pub result : Outcome (CompactError E) CompactResult
  pub events : List (RetryEvent E)
  pub world : W

unfoldable pub session_id_from_config_or_last_run : {X L : Type 0} → Agent X L → String
session_id_from_config_or_last_run a = a.last_session_id

module _ {X L E W : Type 0} (a : Agent X L) (env : CompactEnv E W) where
  unfoldable pub settings_of : CompactOpts → CompactionSettings
  unfolding for_model
  settings_of opts =
      let settings =
        for_model
          (record {
            enabled = true;
            reserve_tokens = a.config.reserve_tokens;
            keep_recent_tokens = a.config.keep_recent_tokens;
            model_overrides = env.model_overrides;
          })
          a.config.default_model in
      if ltb_ℤ (pos 0) opts.keep_recent_tokens
      then record settings { keep_recent_tokens = opts.keep_recent_tokens }
      else settings

  unfoldable pub notify_after : String → BranchSummary → W → W
  notify_after sid bs w = elim env.after_compact [ none ↦ w | some hook ↦ hook sid bs w ]

  unfoldable pub after_append :
      String → BranchSummary → List (RetryEvent E) → Option E × W → Compacted E W
  unfolding notify_after
  after_append sid bs events (some e, w) = record {
    result = err (persisting e);
    events = events;
    world = w;
  }
  after_append sid bs events (none, w) = record {
    result = ok (record { summary = bs; removed_count = bs.end_idx });
    events = events;
    world = notify_after sid bs w;
  }

  -- The summary is recorded with the time and its usage.
  unfoldable pub record_summary :
      String → CompactionPrep → List (RetryEvent E) → String × Option Usage → ℕ × W → Compacted E W
  record_summary sid prep events (summary, usage) (time, w) =
      let bs : BranchSummary = record {
        start_idx = 0;
        end_idx = prep.cut_idx;
        summary = summary;
        created_at = time;
        usage = usage;
      } in
      after_append sid bs events (env.append_branch_summary sid bs w)

  unfoldable pub after_summarize :
      String → CompactionPrep → Option (SummaryRun E W) → Option (Compacted E W)
  after_summarize sid prep none = none
  after_summarize sid prep (some run) = elim run.answer [
    | err f ↦
        some (record { result = err (summarization f); events = run.events; world = run.world })
    | ok answer ↦ some (record_summary sid prep run.events answer (env.now run.world))
  ]

  unfoldable pub after_before_hook :
      String → CompactionPrep → ℕ → Option E × W → Option (Compacted E W)
  after_before_hook sid prep fuel (some e, w) =
      some (record { result = err (before_hook e); events = []; world = w })
  after_before_hook sid prep fuel (none, w) =
      after_summarize sid prep (summarize env sid a.config.default_model prep fuel w)

  unfoldable pub run_before_hook : String → CompactionPrep → W → Option E × W
  run_before_hook sid prep w = elim env.before_compact [
    | none ↦ (none, w)
    | some hook ↦ hook sid prep.cut_idx w
  ]

  unfoldable pub with_plan : String → Option CompactionPrep → ℕ → W → Option (Compacted E W)
  with_plan sid none fuel w =
      some (record { result = ok nothing_compacted; events = []; world = w })
  with_plan sid (some prep) fuel w = after_before_hook sid prep fuel (run_before_hook sid prep w)

  unfoldable pub with_messages :
      String → CompactOpts → ℕ → Outcome E (List Message) × W → Option (Compacted E W)
  with_messages sid opts fuel (err e, w) =
      some (record { result = err (loading e); events = []; world = w })
  with_messages sid opts fuel (ok msgs, w) =
      with_plan sid (prepare_compaction msgs (settings_of opts)) fuel w

  unfoldable pub session_to_compact : CompactOpts → String
  session_to_compact opts =
      if str_eq opts.session_id "" then session_id_from_config_or_last_run a else opts.session_id

  -- `none` is fuel that ran out.
  unfoldable pub compact : CompactOpts → ℕ → W → Option (Compacted E W)
  compact opts fuel w =
      let sid = session_to_compact opts in
      if is_running a
      then some (record { result = err agent_busy; events = []; world = w })
      else if str_eq sid ""
      then some (record { result = ok nothing_compacted; events = []; world = w })
      else with_messages sid opts fuel (env.load sid w)
