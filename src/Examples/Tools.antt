-- ===== src/Examples/Tools.antt =====
-- Tool configurations and truncated outputs.
use resolute_agent_core_go.Prelude.{
  ℕ, String, true, false, List, [], ◌∷◌, ◌++◌, Option, none, some, ok, ◌≡◌, ◌↔◌, ◌⊎◌, refl, arith,
  pos, ◌<◌, ◌≤◌, ◌&&◌,
}
use resolute_agent_core_go.Json.{doc, null}
use resolute_agent_core_go.Message.{Message, new_text, new_active_tools_change, active_tool_names}
use resolute_agent_core_go.ActiveTools.{
  same_string_set, RegisteredTool, tool_names, contains, filter_active_tools, validate_tool_config,
}
use resolute_agent_core_go.ActiveTools.Sets.{same_string_set-contains}
use resolute_agent_core_go.ActiveTools.Validation.{
  Distinct, IsValidConfig, validate_tool_config-IsValidConfig,
}
use resolute_agent_core_go.ActiveTools.Selection.{is_active, filter_active_tools-offers}
use resolute_agent_core_go.Config.{
  ActiveToolsSet, set_active_tools, active_tools_changed, record_active_tools_on_create, is_bound,
  is_running, Agent, AgentConfig, new_agent, snapshot, flush_pending_active_tools,
  restore_active_tools_from_session,
}
use resolute_agent_core_go.Config.Repo.{SessionRepo}
use resolute_agent_core_go.Config.Invariant.{
  built, change, resume, to_active_tools, changed, validated, snapshot-offers,
}
use resolute_agent_core_go.Config.Restore.{
  set_active_tools-restores, record_active_tools_on_create-restores, RestoresActive,
  flush_pending_active_tools-restores,
}
use resolute_agent_core_go.Truncate.{
  TruncationOptions, TruncationResult, resolve_limits, truncate_head, truncate_tail,
  truncate_string_to_bytes_from_end,
}
use resolute_agent_core_go.Truncate.Bounds.{IsWhole, IsLongestHead, truncate_head-longest}
use resolute_agent_core_go.Truncate.Tail.{TailCase, truncate_tail-longest}
use resolute_agent_core_go.Truncate.Suffix.{IsCut, truncate_string_to_bytes_from_end-IsCut}

abbrev tool : String → RegisteredTool Unit
tool n = record { name = n; description = ""; schema = doc null; sequential = false; run = tt }

abbrev registered : List (RegisteredTool Unit)
registered = tool "read" ∷ tool "edit" ∷ []

abbrev only_edit : Option (List String)
only_edit = some ("edit" ∷ [])

validate_tool_config-IsValidConfig_example :
    (validate_tool_config registered only_edit ≡ none) ↔ IsValidConfig registered only_edit
validate_tool_config-IsValidConfig_example = validate_tool_config-IsValidConfig registered only_edit

filter_active_tools-offers_example :
    Distinct (tool_names (filter_active_tools registered only_edit))
    × ((n : String)
        → contains n (tool_names (filter_active_tools registered only_edit))
          ≡ is_active only_edit registered n)
unfolding validate_tool_config
filter_active_tools-offers_example = filter_active_tools-offers registered only_edit refl

abbrev settings : AgentConfig Unit Unit
settings = record {
  default_model = "p/m";
  system_prompt = "";
  tools = registered;
  active_tool_names = none;
  max_parallel_tools = pos 0;
  shutdown_timeout = pos 0;
  event_buffer_size = pos 0;
  steer_buffer_size = pos 0;
  default_thinking = tt;
  thinking_budgets = [];
  reserve_tokens = pos 0;
  keep_recent_tokens = pos 0;
  skills = [];
}

abbrev agent : Agent Unit Unit
agent = record {
  config = record settings {
    max_parallel_tools = pos 32;
    shutdown_timeout = pos 30000000000;
    event_buffer_size = pos 16;
    steer_buffer_size = pos 8;
    reserve_tokens = pos 16384;
    keep_recent_tokens = pos 20000;
  };
  model = "p/m";
  tools = registered;
  active_tool_names = none;
  system_prompt = "";
  thinking_level = tt;
  thinking_budgets = [];
  skills = [];
  pending_active_tools = [];
  running = 0;
  last_session_id = "";
}

all_written :
    (ms old s s' : List Message)
    → some s ≡ some old
    → some (s ++ ms) ≡ some s'
    → some s' ≡ some (old ++ ms)
all_written ms old s s' loaded done = ground arith

-- A session backend with one transcript.
abbrev one_transcript : SessionRepo (List Message)
one_transcript = record {
  append = λ id ms s. some (s ++ ms);
  load = λ id s. some s;
  load-append = λ id ms old s s' loaded done. all_written ms old s s' loaded done;
}

abbrev edit_only_agent : Agent Unit Unit
edit_only_agent = changed one_transcript (to_active_tools only_edit) agent []

agent-built : new_agent settings ≡ ok agent
unfolding new_agent
agent-built = refl

-- The session has a tool that is not registered.
abbrev stale_names : Option (List String)
stale_names = some ("edit" ∷ "gone" ∷ [])

abbrev resumed_agent : Agent Unit Unit
resumed_agent = record edit_only_agent { active_tool_names = stale_names }

resumed :
    restore_active_tools_from_session one_transcript "s" edit_only_agent
      (new_active_tools_change stale_names ∷ [])
    ≡ some resumed_agent
unfolding restore_active_tools_from_session active_tool_names new_active_tools_change
resumed = refl

snapshot-offers_example :
    IsValidConfig resumed_agent.tools (validated true resumed_agent.active_tool_names)
    × Distinct (tool_names (snapshot resumed_agent).tools)
    × ((n : String)
        → contains n (tool_names (snapshot resumed_agent).tools) ≡ (
            contains n (tool_names resumed_agent.tools)
            && is_active resumed_agent.active_tool_names resumed_agent.tools n))
snapshot-offers_example = snapshot-offers one_transcript true resumed_agent (
    resume false edit_only_agent resumed_agent
      (change false agent (built settings agent agent-built) (to_active_tools only_edit) []) "s"
      (new_active_tools_change stale_names ∷ []) resumed)

abbrev busy : Agent Unit Unit
busy = record agent {
  running = 1;
  last_session_id = "s";
  pending_active_tools = none ∷ only_edit ∷ [];
}

flush_pending_active_tools-restores_example :
    restore_active_tools_from_session one_transcript "s" agent (
      new_text "user" "go"
      ∷ new_active_tools_change none
      ∷ new_active_tools_change only_edit
      ∷ new_text "assistant" "ok"
      ∷ [])
    ≡ some (record agent { active_tool_names = only_edit })
unfolding flush_pending_active_tools active_tool_names new_text
flush_pending_active_tools-restores_example =
    flush_pending_active_tools-restores one_transcript "s" busy agent (none ∷ []) only_edit
      (new_text "user" "go" ∷ []) (new_text "assistant" "ok" ∷ []) (new_text "user" "go" ∷ [])
      (new_text "user" "go" ∷ new_active_tools_change none ∷ new_active_tools_change only_edit ∷ [])
      _ refl refl refl (refl, tt) refl

abbrev two_bytes : TruncationOptions
two_bytes = record { max_lines = pos 1; max_bytes = pos 2 }

-- "ab" and "c", a line each
abbrev two_lines : List ℕ
two_lines = 97 ∷ 98 ∷ 10 ∷ 99 ∷ []

truncate_head-longest_example :
    (r : TruncationResult) × (truncate_head two_lines two_bytes ≡ some r)
    × (((r.truncated ≡ false) × IsWhole 1 2 two_lines r)
        ⊎ ((r.truncated ≡ true) × IsLongestHead 1 2 two_lines r))
unfolding resolve_limits
truncate_head-longest_example = truncate_head-longest two_lines two_bytes 1 2 refl

truncate_string_to_bytes_from_end-IsCut_example :
    ((4 ≤ 2)
      × (truncate_string_to_bytes_from_end (97 ∷ 226 ∷ 130 ∷ 172 ∷ []) (pos 2)
          ≡ 97 ∷ 226 ∷ 130 ∷ 172 ∷ []))
    ⊎ ((2 < 4)
        × IsCut 2
            (97 ∷ 226 ∷ 130 ∷ 172 ∷ [])
            (truncate_string_to_bytes_from_end (97 ∷ 226 ∷ 130 ∷ 172 ∷ []) (pos 2)))
truncate_string_to_bytes_from_end-IsCut_example =
    truncate_string_to_bytes_from_end-IsCut (97 ∷ 226 ∷ 130 ∷ 172 ∷ []) 2

truncate_tail-longest_example : TailCase 1 2 two_lines (truncate_tail two_lines two_bytes)
unfolding resolve_limits
truncate_tail-longest_example = truncate_tail-longest two_lines two_bytes 1 2 refl

abbrev bound : Agent Unit Unit
bound = record agent { last_session_id = "s" }

abbrev edit_set : ActiveToolsSet Unit Unit (List Message)
edit_set = record {
  agent = record bound { active_tool_names = only_edit };
  session = new_text "user" "go" ∷ new_active_tools_change only_edit ∷ [];
  persisted = true;
  update = some (active_tools_changed none only_edit);
}

set_active_tools-restores_example :
    restore_active_tools_from_session one_transcript "s" agent edit_set.session
    ≡ some (record agent { active_tool_names = only_edit })
unfolding set_active_tools is_bound is_running
set_active_tools-restores_example =
    set_active_tools-restores one_transcript only_edit bound agent (new_text "user" "go" ∷ [])
      (new_text "user" "go" ∷ []) edit_set refl refl refl refl refl

abbrev edit_only : Agent Unit Unit
edit_only = record agent { active_tool_names = only_edit }

record_active_tools_on_create-restores_example :
    RestoresActive one_transcript "s" registered only_edit agent
      (new_active_tools_change only_edit ∷ [])
unfolding record_active_tools_on_create
record_active_tools_on_create-restores_example =
    record_active_tools_on_create-restores one_transcript "s" edit_only agent [] []
      (new_active_tools_change only_edit ∷ []) refl tt refl

same_string_set-contains_example :
    (same_string_set ("a" ∷ "b" ∷ "a" ∷ []) ("b" ∷ "a" ∷ []) ≡ true)
    ↔ ((n : String) → contains n ("a" ∷ "b" ∷ "a" ∷ []) ≡ contains n ("b" ∷ "a" ∷ []))
same_string_set-contains_example = same_string_set-contains ("a" ∷ "b" ∷ "a" ∷ []) ("b" ∷ "a" ∷ [])
