-- ===== src/Loop/CutOff.antt =====
-- Tool calls of a message that the token limit cut off (failTruncatedToolCalls, prompt.go).
use Prim.Native.String.{◌++◌ as concat}
use mathlib.Core.List.{append-nil, append_assoc}
use resolute_agent_core_go.Prelude.{
  String, Bool, true, false, List, [], ◌∷◌, ◌++◌, some, ok, ◌≡◌, ◌≢◌, ◌↔◌, sym, refl, subst, map,
  All,
}
use resolute_agent_core_go.Message.{Message, tool_result, new_tool_result_msg}
use resolute_agent_core_go.Message.RoundTrip.{tool_result-new_tool_result_msg}
use resolute_agent_core_go.Json.{absent, doc, null, marshal_raw}
use resolute_agent_core_go.ActiveTools.{RegisteredTool}
use resolute_agent_core_go.Loop.Machine.{ToolCallContent, Environment, Machine, length_limit}
use resolute_agent_core_go.Loop.Tools.{fail_truncated_tool_calls, truncated_result}
use resolute_agent_core_go.Loop.Turn.{run_calls}
use resolute_agent_core_go.Loop.Triples.{
  Triple, triple_bind, triple_keeps, triple_pure, triple_map, triple_result,
}
use resolute_agent_core_go.Loop.Answers.{Marks, quiet_emit, append_transcript-Triple}

-- The text that tells the model that a call is not run.
abbrev pub cut_off_text : (String → String) → String → String
cut_off_text quoted name = concat "Tool call " (
    concat (quoted name)
      " was not executed: the response hit the output token limit, so its arguments may be truncated. Re-issue the tool call with complete arguments.")

-- The message that stands for a call that is not run.
abbrev pub cut_off : (String → String) → ToolCallContent → Message
cut_off quoted c = new_tool_result_msg c.call_id c.tool_name (record {
  content = cut_off_text quoted c.tool_name;
  payload = absent;
  is_error = true;
  terminate = false;
  suspend = false;
  images = [];
})

-- A message that is read as an error, of a call that is not run.
abbrev pub IsUnexecuted : (String → String) → ToolCallContent → Type 0
IsUnexecuted quoted c =
    tool_result (cut_off quoted c)
    ≡ some (record {
      call_id = c.call_id;
      tool_name = c.tool_name;
      content = cut_off_text quoted c.tool_name;
      payload = doc null;
      is_error = true;
    })

cut_off-IsUnexecuted :
    (quoted : String → String) (cs : List ToolCallContent) → All (IsUnexecuted quoted) cs
unfolding marshal_raw
cut_off-IsUnexecuted quoted [] = tt
cut_off-IsUnexecuted quoted (c ∷ cs) =
    (tool_result-new_tool_result_msg c.call_id c.tool_name _, cut_off-IsUnexecuted quoted cs)

module _ {X L E W : Type 0} (env : Environment X L E W) where
  fail_truncated_tool_calls-Triple :
      (quoted : String → String) (cs : List ToolCallContent) (t : List Message) (b s : Bool)
      → Triple
          (Marks t b s)
          (fail_truncated_tool_calls env quoted cs)
          (λ u. Marks (t ++ map (cut_off quoted) cs) b s)
  unfolding fail_truncated_tool_calls truncated_result
  fail_truncated_tool_calls-Triple quoted [] t b s =
      triple_pure _ (λ m h. subst (λ l. Marks l b s m) (sym (append-nil t)) h)
  fail_truncated_tool_calls-Triple quoted (c ∷ cs) t b s =
      triple_bind _ _ (triple_keeps _ (quiet_emit env t b s _)) (λ _.
        triple_bind _ _ (append_transcript-Triple env t b s (cut_off quoted c)) (λ _.
          triple_map _
            (λ u m h. subst (λ l. Marks l b s m) (append_assoc t _ (map (cut_off quoted) cs)) h)
            (fail_truncated_tool_calls-Triple quoted cs _ b s)))

  run_calls-Triple :
      (cs : List ToolCallContent) (tools : List (RegisteredTool X)) (t : List Message) (b s : Bool)
      → Triple (Marks t b s) (run_calls env length_limit cs tools) (λ had_calls m.
        ((had_calls ≡ true) ↔ (cs ≢ [])) × Marks (t ++ map (cut_off env.quoted) cs) b s m)
  unfolding run_calls
  run_calls-Triple [] tools t b s = triple_pure _ (λ m h.
      ((λ e. absurd cc, λ e. absurd (e refl)), subst (λ l. Marks l b s m) (sym (append-nil t)) h))
  run_calls-Triple (c ∷ cs) tools t b s =
      triple_bind _ _ (fail_truncated_tool_calls-Triple env.quoted (c ∷ cs) t b s)
        (λ _. triple_pure _ (λ m h. ((λ e f. absurd cc, λ e. refl), h)))

  -- Where the token limit cut a message off and appending succeeds, the turn counts as one with calls
  -- just where the message has some, the transcript gets for each call, in order, a message that is
  -- read as an error with its id, its name and the text that it was not executed, and the prompt is
  -- marked neither terminated nor suspended by it.
  pub run_calls-cut_off :
      (cs : List ToolCallContent) (tools : List (RegisteredTool X)) (before m : Machine L E W)
      (had_calls : Bool)
      → run_calls env length_limit cs tools before ≡ (ok had_calls, m)
      → ((had_calls ≡ true) ↔ (cs ≢ []))
        × (m.run.transcript ≡ before.run.transcript ++ map (cut_off env.quoted) cs)
        × All (IsUnexecuted env.quoted) cs
        × (m.run.terminated ≡ before.run.terminated)
        × (m.run.suspended ≡ before.run.suspended)
  run_calls-cut_off cs tools before m had_calls returned =
      let h : ((had_calls ≡ true) ↔ (cs ≢ []))
          × Marks (before.run.transcript ++ map (cut_off env.quoted) cs) before.run.terminated
              before.run.suspended m =
        triple_result _ before m had_calls
          (run_calls-Triple cs tools before.run.transcript before.run.terminated
            before.run.suspended)
          (record { transcript_is = refl; terminated_is = refl; suspended_is = refl }) returned in
      (
        h.0,
        h.1.transcript_is,
        cut_off-IsUnexecuted env.quoted cs,
        h.1.terminated_is,
        h.1.suspended_is,
      )
