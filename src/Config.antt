-- ===== src/Config.antt =====
-- The mutable configuration of an Agent: setters.go, snapshot.go, NewAgent of agent.go and the
-- recording and restoring of the active tools around a session (agent.go, prompt.go).
-- The type L of thinking levels and the transport preference belong to the LLM library; a setter
-- runs under the Agent's mutex, so it is one step. The session is any SessionRepo.
pub mod Repo
pub mod Invariant
pub mod Restore
use resolute_agent_core_go.Prelude.{
  ℕ, zero, suc, String, Bool, true, false, ◌&&◌, not, List, [], ◌∷◌, ◌++◌, Option, none, some,
  Outcome, ok, err, ℤ, pos, leb_ℤ, str_eq, ltb, if◌then◌else◌,
}
use resolute_agent_core_go.Message.{Message, new_active_tools_change}
use resolute_agent_core_go.ActiveTools.{
  RegisteredTool, ConfigError, tool_names, validate_tool_config, filter_active_tools,
  active_tool_names_from_transcript, same_string_set,
}
use resolute_agent_core_go.Config.Repo.{SessionRepo}

pub record Skill : Type 0 where
  pub name : String
  pub description : String
  pub content : String
  pub file_path : String
  pub disable_model_invocation : Bool

-- The fields of AgentConfig that NewAgent defaults, checks or copies into the Agent, less Session and
-- ConvertToLLM, whose defaults are the internal session and DefaultConvertToLLM; the others it only
-- stores.
pub record AgentConfig (X L : Type 0) : Type 0 where
  pub default_model : String
  pub system_prompt : String
  pub tools : List (RegisteredTool X)
  pub active_tool_names : Option (List String)
  pub max_parallel_tools : ℤ
  pub shutdown_timeout : ℤ
  pub event_buffer_size : ℤ
  pub steer_buffer_size : ℤ
  pub default_thinking : L
  pub thinking_budgets : List (L × ℤ)
  pub reserve_tokens : ℤ
  pub keep_recent_tokens : ℤ
  pub skills : List Skill

-- running is the atomic counter; last_session_id is empty before the first prompt. The session is
-- passed along, and the hooks and the prompt that runs are left out.
pub record Agent (X L : Type 0) : Type 0 where
  pub config : AgentConfig X L
  pub model : String
  pub tools : List (RegisteredTool X)
  pub active_tool_names : Option (List String)
  pub system_prompt : String
  pub thinking_level : L
  pub thinking_budgets : List (L × ℤ)
  pub skills : List Skill
  pub pending_active_tools : List (Option (List String))
  pub running : ℕ
  pub last_session_id : String

-- ConfigUpdateCtx: the pair of values that its Field selects, the old one first.
pub data ConfigUpdate (X L : Type 0) : Type 0 where
  model_changed : String → String → ConfigUpdate X L
  thinking_level_changed : L → L → ConfigUpdate X L
  tools_changed : List (RegisteredTool X) → List (RegisteredTool X) → ConfigUpdate X L
  system_prompt_changed : String → String → ConfigUpdate X L
  skills_changed : List Skill → List Skill → ConfigUpdate X L
  active_tools_changed : Option (List String) → Option (List String) → ConfigUpdate X L

unfoldable pub zero_default : ℤ → ℕ → ℤ
zero_default (pos zero) d = pos d
zero_default (pos (suc n)) d = pos (suc n)
zero_default z d = z

module _ {X L : Type 0} where
  -- A Duration is in nanoseconds.
  unfoldable pub with_defaults : AgentConfig X L → AgentConfig X L
  unfolding zero_default
  with_defaults c = record c {
    event_buffer_size = zero_default c.event_buffer_size 16;
    steer_buffer_size = zero_default c.steer_buffer_size 8;
    max_parallel_tools = zero_default c.max_parallel_tools 32;
    shutdown_timeout = zero_default c.shutdown_timeout 30000000000;
    reserve_tokens = zero_default c.reserve_tokens 16384;
    keep_recent_tokens = zero_default c.keep_recent_tokens 20000;
  }

  unfoldable pub new_agent : AgentConfig X L → Outcome ConfigError (Agent X L)
  unfolding with_defaults validate_tool_config
  new_agent c = elim (validate_tool_config c.tools c.active_tool_names) [
    | some e ↦ err e
    | none ↦ ok (record {
      config = with_defaults c;
      model = c.default_model;
      tools = c.tools;
      active_tool_names = c.active_tool_names;
      system_prompt = c.system_prompt;
      thinking_level = c.default_thinking;
      thinking_budgets = c.thinking_budgets;
      skills = c.skills;
      pending_active_tools = [];
      running = 0;
      last_session_id = "";
    })
  ]

  -- Each setter returns the Agent it leaves and what the hook OnConfigUpdate is told.
  unfoldable pub set_model : String → Agent X L → Agent X L × ConfigUpdate X L
  set_model m a = (record a { model = m }, model_changed a.model m)

  unfoldable pub set_system_prompt : String → Agent X L → Agent X L × ConfigUpdate X L
  set_system_prompt p a = (record a { system_prompt = p }, system_prompt_changed a.system_prompt p)

  unfoldable pub set_thinking_level : L → Agent X L → Agent X L × ConfigUpdate X L
  set_thinking_level l a =
      (record a { thinking_level = l }, thinking_level_changed a.thinking_level l)

  unfoldable pub set_skills : List Skill → Agent X L → Agent X L × ConfigUpdate X L
  set_skills s a = (record a { skills = s }, skills_changed a.skills s)

  unfoldable pub set_tools :
      List (RegisteredTool X) → Agent X L → Outcome ConfigError (Agent X L × ConfigUpdate X L)
  unfolding validate_tool_config
  set_tools tools a = elim (validate_tool_config tools a.active_tool_names) [
    | some e ↦ err e
    | none ↦ ok (record a { tools = tools }, tools_changed a.tools tools)
  ]

  unfoldable pub is_running : Agent X L → Bool
  is_running a = ltb 0 a.running

  unfoldable pub is_bound : Agent X L → Bool
  is_bound a = not (str_eq a.last_session_id "")

-- The Agent and the session after SetActiveTools. `persisted` is false where the session could not be
-- written, which SetActiveTools reports: the new set stays in the Agent, and the hook is told nothing.
pub record ActiveToolsSet (X L S : Type 0) : Type 0 where
  pub agent : Agent X L
  pub session : S
  pub persisted : Bool
  pub update : Option (ConfigUpdate X L)

module _ {S : Type 0} (repo : SessionRepo S) where
  unfoldable pub append_each : String → List (Option (List String)) → S → Option S
  append_each id [] s = some s
  append_each id (names ∷ more) s = elim (repo.append id (new_active_tools_change names ∷ []) s) [
    | none ↦ none
    | some s' ↦ append_each id more s'
  ]

module _ {X L S : Type 0} (repo : SessionRepo S) where
  written : Agent X L → ConfigUpdate X L → S → Option S → ActiveToolsSet X L S
  written a u s none = record { agent = a; session = s; persisted = false; update = none }
  written a u s (some s') = record { agent = a; session = s'; persisted = true; update = some u }

  -- The change after its validation: written, queued for the running prompt, or kept only.
  store_active_tools : Option (List String) → Agent X L → S → ActiveToolsSet X L S
  unfolding is_running is_bound written
  store_active_tools names a s =
      let a' = record a { active_tool_names = names } in
      let u = active_tools_changed a.active_tool_names names in
      if is_bound a
      then (if is_running a
          then record {
            agent = record a' { pending_active_tools = a.pending_active_tools ++ names ∷ [] };
            session = s;
            persisted = true;
            update = some u;
          }
          else written a' u s
              (repo.append a.last_session_id (new_active_tools_change names ∷ []) s))
      else record { agent = a'; session = s; persisted = true; update = some u }

  unfoldable pub set_active_tools :
      Option (List String) → Agent X L → S → Outcome ConfigError (ActiveToolsSet X L S)
  unfolding validate_tool_config store_active_tools
  set_active_tools names a s = elim (validate_tool_config a.tools names) [
    | some e ↦ err e
    | none ↦ ok (store_active_tools names a s)
  ]

  -- flushPendingActiveTools of the prompt that runs on the session `id`, without its copy of the
  -- transcript. The queue is emptied also where an append fails.
  unfoldable pub flush_pending_active_tools : String → Agent X L → S → Agent X L × Option S
  unfolding append_each
  flush_pending_active_tools id a s =
      (record a { pending_active_tools = [] }, append_each repo id a.pending_active_tools s)

  unfoldable pub record_active_tools_on_create : String → Agent X L → S → Option S
  unfolding same_string_set tool_names
  record_active_tools_on_create id a s = elim a.active_tool_names [
    | none ↦ some s
    | some names ↦
        if same_string_set names (tool_names a.tools)
        then some s
        else repo.append id (new_active_tools_change (some names) ∷ []) s
  ]

  unfoldable pub restore_active_tools_from_session : String → Agent X L → S → Option (Agent X L)
  unfolding active_tool_names_from_transcript
  restore_active_tools_from_session id a s = elim (repo.load id s) [
    | none ↦ none
    | some ms ↦ some (record a {
      active_tool_names = elim (active_tool_names_from_transcript ms) [
        | none ↦ none
        | some names ↦ names
      ];
    })
  ]

pub record TurnSnapshot (X L : Type 0) : Type 0 where
  pub model : String
  pub tools : List (RegisteredTool X)
  pub system_prompt : String
  pub thinking_level : L
  pub thinking_budgets : List (L × ℤ)
  pub skills : List Skill

unfoldable pub snapshot : {X L : Type 0} → Agent X L → TurnSnapshot X L
unfolding filter_active_tools
snapshot a = record {
  model = a.model;
  tools = filter_active_tools a.tools a.active_tool_names;
  system_prompt = a.system_prompt;
  thinking_level = a.thinking_level;
  thinking_budgets = a.thinking_budgets;
  skills = a.skills;
}
