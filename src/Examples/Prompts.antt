-- ===== src/Examples/Prompts.antt =====
-- A prompt of two turns: the model calls two tools, which finish in the other order, and then answers.
use mathlib.Core.Option.{none-ne-some, some-injective}
use resolute_agent_core_go.Prelude.{
  ℕ, zero, suc, String, Bool, true, false, List, [], ◌∷◌, ◌++◌, Option, none, some, Outcome, ok,
  err, ◌≡◌, ◌≢◌, ◌↔◌, refl, sym, ap, inl, inr, All, arith, pos, ◌≤◌, leb, le→leb, last?, str_eq,
  if◌then◌else◌, map,
}
use resolute_agent_core_go.Json.{doc, null, absent}
use resolute_agent_core_go.Message.{Message, ToolResult, new_text}
use resolute_agent_core_go.ActiveTools.{RegisteredTool}
use resolute_agent_core_go.Config.{Agent}
use resolute_agent_core_go.Convert.{default_convert_to_llm}
use resolute_agent_core_go.Config.{Skill}
use resolute_agent_core_go.Convert.{LlmMessage, text_content}
use resolute_agent_core_go.Skills.{
  format_skills_for_system_prompt, apply_skills_to_system_prompt, visible, skill_entry, escape_xml,
}
use resolute_agent_core_go.Skills.Placement.{IsIndexed, apply_skills_to_system_prompt-IsIndexed}
use resolute_agent_core_go.Loop.Machine.{
  ToolCallContent, idle, PromptResult, Machine, PreparedCall, updated, finished, BatchRun, waited,
  abandoned, StreamEvent, text, call_start, call_end, ended, other_reason, length_limit, Provider,
  Environment, emit, ◌>>=◌, set_phase,
}
use resolute_agent_core_go.Loop.Tools.{
  initial_slots, call_of, execute_tools, find_tool, truncated_result, fill, outcomes, leaked_calls,
  terminates, every_terminates, all_terminate, suspends, any_suspends, outcome_message,
  append_transcript, check_cancelled, fail_truncated_tool_calls, rejected, hook_answered,
  prepare_tool_call, prepare_all, final_result, run_step, run_steps, report_leaks, await_tool_batch,
  record_outcomes, set_terminated, set_suspended, conclude,
}
use resolute_agent_core_go.Loop.Prompt.{
  begin, load_transcript, announce, announce_message, run_prompt,
}
use resolute_agent_core_go.Loop.Turn.{run_calls}
use resolute_agent_core_go.Loop.Keeps.{IsQuiet}
use resolute_agent_core_go.Loop.InSync.{IsSession, SameMessages}
use resolute_agent_core_go.Loop.Conclusion.{IsConcluded, run_prompt-IsConcluded}
use resolute_agent_core_go.Loop.Termination.{run_prompt_terminates}
use resolute_agent_core_go.Loop.Slots.{Answers, HasFinished, IsAnswer}
use resolute_agent_core_go.Loop.CutOff.{cut_off, IsUnexecuted, run_calls-cut_off}
use resolute_agent_core_go.Loop.Recorded.{Waits, IsExecuted, execute_tools-IsExecuted}

abbrev tool : String → RegisteredTool Unit
tool n = record { name = n; description = ""; schema = doc null; sequential = false; run = tt }

abbrev agent : Agent Unit Unit
agent = record {
  config = record {
    default_model = "p/m";
    system_prompt = "";
    tools = tool "read" ∷ tool "edit" ∷ [];
    active_tool_names = none;
    max_parallel_tools = pos 32;
    shutdown_timeout = pos 30;
    event_buffer_size = pos 16;
    steer_buffer_size = pos 8;
    default_thinking = tt;
    thinking_budgets = [];
    reserve_tokens = pos 16384;
    keep_recent_tokens = pos 20000;
    skills = [];
  };
  model = "p/m";
  tools = tool "read" ∷ tool "edit" ∷ [];
  active_tool_names = none;
  system_prompt = "";
  thinking_level = tt;
  thinking_budgets = [];
  skills = [];
  pending_active_tools = [];
  running = 1;
  last_session_id = "s";
}

abbrev read_call : ToolCallContent
read_call = record { call_id = "c1"; tool_name = "read"; args = doc null; thought_signature = [] }

abbrev edit_call : ToolCallContent
edit_call = record { call_id = "c2"; tool_name = "edit"; args = doc null; thought_signature = [] }

abbrev result : String → ToolResult
result s = record {
  content = s;
  payload = absent;
  is_error = false;
  terminate = false;
  suspend = false;
  images = [];
}

-- The model calls the tools where the conversation ends with the user's message.
abbrev reply : Option Message → List (StreamEvent String)
reply none = []
reply (some m) =
    if str_eq m.role "user"
    then call_start ∷ call_end read_call ∷ call_end edit_call ∷ ended other_reason ∷ []
    else text "done" [] ∷ ended other_reason ∷ []

abbrev provider : Provider Unit Unit String (List Message)
provider = record {
  name = "p";
  can_think = λ model. true;
  stream = λ req w. ((reply (last? w), none), w);
}

-- What the two tools answer: the first reads, the second fails.
abbrev answers : List (PreparedCall Unit String) → List Message → Answers String
answers ps w zero = (ok (result "text"), none)
answers ps w (suc i) = (err "no such file", none)

-- The second call finishes first. Other batches are not part of the example and are given up.
abbrev run_two : List (PreparedCall Unit String) → BatchRun String
run_two (p ∷ q ∷ []) = record {
  steps =
      updated 0 (result "te")
      ∷ finished 1 (err "no such file") none
      ∷ finished 0 (ok (result "text")) none
      ∷ [];
  end = waited;
}
run_two [] = record { steps = []; end = abandoned "stopped" }
run_two (p ∷ []) = record { steps = []; end = abandoned "stopped" }
run_two (p ∷ q ∷ r ∷ ps) = record { steps = []; end = abandoned "stopped" }

-- The session's one conversation is the world.
abbrev env : Environment Unit Unit String (List Message)
env = record {
  agent = λ w. (agent, w);
  take_pending = λ w. ([], w);
  append = λ id m w. (none, w ++ m ∷ []);
  load = λ id w. (ok w, w);
  load_branch_summaries = λ id w. (ok [], w);
  cancelled = λ w. (none, w);
  steer = λ w. (none, w);
  follow_up = λ w. (none, w);
  providers = provider ∷ [];
  convert_to_llm = default_convert_to_llm (λ body. "");
  transform_context = none;
  should_stop_after_turn = some (λ t b w. (leb 2 t, w));
  before_tool_call = none;
  run_batch = λ ps w. (run_two ps, w);
  release = λ w. w;
  quoted = λ s. s;
  error_text = λ e. e;
  is_agent_stopped = λ e. str_eq e "stopped";
  is_prompt_cancelled = λ e. str_eq e "cancelled";
  is_canceled = λ e. str_eq e "canceled";
  agent_stopped = "stopped";
  prompt_cancelled = "cancelled";
  tool_not_found = "no tool";
  invalid_model_ref = λ s. s;
  provider_not_found = λ s. s;
  wrapped = λ s e. e;
  thinking_off = tt;
  is_off = λ l. true;
  level_text = λ l. "off";
}

abbrev question : Message
question = new_text "user" "edit it"

abbrev before : Machine Unit String (List Message)
before = record {
  run = record {
    opt_model = "";
    opt_thinking = tt;
    model = "";
    thinking = tt;
    session_id = "s";
    phase = idle;
    turn = 0;
    transcript = [];
    branch_summaries = [];
    terminated = false;
    suspended = false;
    events = [];
    results = [];
  };
  world = question ∷ [];
}

abbrev loaded : Outcome String (List Message) → List Message
loaded (ok ms) = ms
loaded (err e) = []

env-IsSession : IsSession env (λ id w. w)
env-IsSession = record {
  append_ok = λ id m w fine. refl;
  append_err = λ id m e w bad. elim (none-ne-some _ bad) [ ];
  load_ok = λ id w ms good. ap loaded good;
  summaries_quiet = λ id k w. refl;
}

env-quiet : IsQuiet env (SameMessages (λ id w. w))
env-quiet = record {
  agent = λ id w. refl;
  take_pending = λ id w. refl;
  cancelled = λ id w. refl;
  steer = λ id w. refl;
  follow_up = λ id w. refl;
  release = λ id w. refl;
  streams = ((λ req id w. refl), tt);
  transform_context = λ hook set ms id w. elim (none-ne-some _ set) [ ];
  should_stop_after_turn =
      λ hook set t b id w. ap (λ h. (h t b w).1) (sym (some-injective _ _ set));
  before_tool_call = λ hook set c id w. elim (none-ne-some _ set) [ ];
  run_batch = λ ps id w. refl;
}

begun : (begin env before).0 ≡ ok tt
unfolding begin load_transcript announce announce_message emit ◌>>=◌ new_text
begun = refl

stops : (t : ℕ) (b : Bool) (w : List Message) → 2 ≤ t → leb 2 t ≡ true
stops t b w late = le→leb 2 t late

abbrev run_ends :
    (m : Machine Unit String (List Message)) × (run_prompt env 2 before ≡ some m)
    × (m.run.turn ≤ 2)
    × ((r : PromptResult String) × (m.run.results ≡ r ∷ []))
run_ends =
    run_prompt_terminates env (λ t b w. (leb 2 t, w)) refl 2 stops 2 before refl (omega arith)
      (omega arith)

run_prompt_terminates_example :
    (m : Machine Unit String (List Message)) × (run_prompt env 3 before ≡ some m)
    × (m.run.turn ≤ 2)
    × ((r : PromptResult String) × (m.run.results ≡ r ∷ []))
run_prompt_terminates_example =
    run_prompt_terminates env (λ t b w. (leb 2 t, w)) refl 2 stops 3 before refl (omega arith)
      (omega arith)

run_prompt-IsConcluded_example : IsConcluded (λ id w. w) before (run_ends.0)
run_prompt-IsConcluded_example =
    run_prompt-IsConcluded env (λ id w. w) env-IsSession env-quiet before 2 (run_ends.0) begun
      (run_ends.1)

env-Waits : Waits env
unfolding HasFinished call_of initial_slots
env-Waits [] w over i c at = elim over [ ]
env-Waits (p ∷ []) w over i c at = elim over [ ]
env-Waits (p ∷ q ∷ []) w over zero c at = inr (inl refl)
env-Waits (p ∷ q ∷ []) w over (suc zero) c at = inl refl
env-Waits (p ∷ q ∷ []) w over (suc (suc i)) c at = elim (none-ne-some _ at) [ ]
env-Waits (p ∷ q ∷ r ∷ ps) w over i c at = elim over [ ]

env-answers :
    (ps : List (PreparedCall Unit String)) (w : List Message)
    → All (IsAnswer (answers ps w)) ((run_two ps).steps)
unfolding IsAnswer
env-answers [] w = tt
env-answers (p ∷ []) w = tt
env-answers (p ∷ q ∷ []) w = (tt, (refl, (refl, tt)))
env-answers (p ∷ q ∷ r ∷ ps) w = tt

abbrev calls : List ToolCallContent
calls = read_call ∷ edit_call ∷ []

abbrev executed : Machine Unit String (List Message)
executed = (execute_tools env calls agent.tools before).1

returns : execute_tools env calls agent.tools before ≡ (ok tt, executed)
unfolding find_tool truncated_result initial_slots fill call_of outcomes leaked_calls terminates
    every_terminates all_terminate suspends any_suspends outcome_message append_transcript
    check_cancelled fail_truncated_tool_calls rejected hook_answered prepare_tool_call prepare_all
    final_result run_step run_steps report_leaks await_tool_batch record_outcomes set_terminated
    set_suspended conclude execute_tools ◌>>=◌ emit set_phase
returns = refl

execute_tools-IsExecuted_example :
    IsExecuted env env-Waits answers env-answers calls before executed
execute_tools-IsExecuted_example =
    execute_tools-IsExecuted env env-Waits answers env-answers calls agent.tools before executed
      returns

abbrev cut_machine : Machine Unit String (List Message)
cut_machine = (run_calls env length_limit calls agent.tools before).1

cut : run_calls env length_limit calls agent.tools before ≡ (ok true, cut_machine)
unfolding run_calls fail_truncated_tool_calls append_transcript emit ◌>>=◌
cut = refl

run_calls-cut_off_example :
    ((true ≡ true) ↔ (calls ≢ []))
    × (cut_machine.run.transcript ≡ [] ++ map (cut_off env.quoted) calls)
    × All (IsUnexecuted env.quoted) calls
    × (cut_machine.run.terminated ≡ false)
    × (cut_machine.run.suspended ≡ false)
run_calls-cut_off_example = run_calls-cut_off env calls agent.tools before cut_machine true cut

abbrev review : Skill
review = record {
  name = "review";
  description = "Reviews <code>";
  content = "";
  file_path = "/skills/review/SKILL.md";
  disable_model_invocation = false;
}

abbrev system_first : List LlmMessage
system_first =
    record { role = "user"; content = text_content "hello" [] }
    ∷ record { role = "system"; content = text_content "Be brief." [] }
    ∷ []

has_index : str_eq (format_skills_for_system_prompt (review ∷ [])) "" ≡ false
unfolding format_skills_for_system_prompt visible skill_entry escape_xml
has_index = refl

apply_skills_to_system_prompt-IsIndexed_example :
    IsIndexed
      (format_skills_for_system_prompt (review ∷ []))
      system_first
      (apply_skills_to_system_prompt system_first (review ∷ []))
apply_skills_to_system_prompt-IsIndexed_example =
    apply_skills_to_system_prompt-IsIndexed system_first (review ∷ []) has_index
