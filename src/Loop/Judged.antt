-- ===== src/Loop/Judged.antt =====
-- What the results of a batch of tool calls mean for a prompt, by their own marks (prompt.go).
use resolute_agent_core_go.Prelude.{
  String, Bool, true, false, List, [], ◌∷◌, Option, none, some, ◌∙◌, Outcome, ok, err, ◌≡◌, ◌≢◌,
  ◌↔◌, refl, All, arith,
}
use resolute_agent_core_go.Json.{Json, doc, null, marshal_raw}
use resolute_agent_core_go.Message.{ToolResult, ToolResultBody, tool_result}
use resolute_agent_core_go.Message.RoundTrip.{read_result, tool_result-new_tool_result_msg}
use resolute_agent_core_go.Loop.Tools.{
  ToolOutcome, terminates, every_terminates, all_terminate, suspends, any_suspends, outcome_message,
}

-- The two marks are not recorded.
read_result-unmarked :
    (v : Option Json) (call_id name : String) (r : ToolResult)
    → read_result v call_id name (record r { terminate = false; suspend = false })
      ≡ read_result v call_id name r
read_result-unmarked none call_id name r = refl
read_result-unmarked (some v) call_id name r = refl

module _ {E : Type 0} where
  -- A result with its terminate mark, and one with its suspend mark; an error has neither.
  abbrev pub IsTerminating : ToolOutcome E → Type 0
  IsTerminating o = (r : ToolResult) × (o.outcome ≡ ok r) × (r.terminate ≡ true)

  abbrev pub IsSuspending : ToolOutcome E → Type 0
  IsSuspending o = (r : ToolResult) × (o.outcome ≡ ok r) × (r.suspend ≡ true)

  -- What is read back of an outcome that was recorded: an error as an error with its text.
  pub told : (E → String) → String → String → Outcome E ToolResult → Option ToolResultBody
  told error_text call_id name (err e) = some (record {
    call_id = call_id;
    tool_name = name;
    content = error_text e;
    payload = doc null;
    is_error = true;
  })
  told error_text call_id name (ok r) = read_result (marshal_raw r.payload) call_id name r

  abbrev pub IsTold : (E → String) → ToolOutcome E → Type 0
  IsTold error_text o =
      tool_result (outcome_message error_text o) ≡ told error_text o.call_id o.name o.outcome

  -- The outcomes end the prompt where there are some and all terminate; they suspend it where one
  -- suspends.
  pub record IsJudged (error_text : E → String) (os : List (ToolOutcome E)) : Type 0 where
    pub ends : (all_terminate os ≡ true) ↔ ((os ≢ []) × All IsTerminating os)
    pub suspended : (any_suspends os ≡ false) ↔ All (λ o. suspends o ≡ false) os
    pub suspending : All (λ o. (suspends o ≡ true) ↔ IsSuspending o) os
    pub each_told : All (IsTold error_text) os

  terminates-IsTerminating : (o : ToolOutcome E) → (terminates o ≡ true) ↔ IsTerminating o
  unfolding terminates
  terminates-IsTerminating o = by_outcome o.outcome
    where
      by_outcome :
          (x : Outcome E ToolResult)
          → (elim x as (λ _. Bool) [ err e ↦ false | ok r ↦ r.terminate ] ≡ true)
            ↔ ((r : ToolResult) × (x ≡ ok r) × (r.terminate ≡ true))
      by_outcome (err e) = (λ h. absurd cc, λ (r, is, mark). absurd cc)
      by_outcome (ok r) = (λ h. (r, refl, h), λ (s, is, mark). ground (arith, is, mark))

  suspends-IsSuspending : (o : ToolOutcome E) → (suspends o ≡ true) ↔ IsSuspending o
  unfolding suspends
  suspends-IsSuspending o = by_outcome o.outcome
    where
      by_outcome :
          (x : Outcome E ToolResult)
          → (elim x as (λ _. Bool) [ err e ↦ false | ok r ↦ r.suspend ] ≡ true)
            ↔ ((r : ToolResult) × (x ≡ ok r) × (r.suspend ≡ true))
      by_outcome (err e) = (λ h. absurd cc, λ (r, is, mark). absurd cc)
      by_outcome (ok r) = (λ h. (r, refl, h), λ (s, is, mark). ground (arith, is, mark))

  outcome_message-IsTold : (error_text : E → String) (o : ToolOutcome E) → IsTold error_text o
  unfolding outcome_message told marshal_raw
  outcome_message-IsTold error_text o = by_outcome o.outcome
    where
      by_outcome :
          (x : Outcome E ToolResult)
          → tool_result (
              outcome_message error_text
                (record { call_id = o.call_id; name = o.name; outcome = x }))
            ≡ told error_text o.call_id o.name x
      by_outcome (err e) = tool_result-new_tool_result_msg o.call_id o.name _
      by_outcome (ok r) =
          tool_result-new_tool_result_msg o.call_id o.name _
          ∙ read_result-unmarked (marshal_raw r.payload) o.call_id o.name r

  every_terminates-All :
      (os : List (ToolOutcome E)) → (every_terminates os ≡ true) ↔ All IsTerminating os
  unfolding every_terminates
  every_terminates-All [] = (λ h. tt, λ h. refl)
  every_terminates-All (o ∷ os) =
      let (to, from) = terminates-IsTerminating o in
      let (to', from') = every_terminates-All os in
      (λ h. (to (ground arith), to' (ground arith)), λ (t, ts). ground (arith, from t, from' ts))

  any_suspends-All :
      (os : List (ToolOutcome E)) → (any_suspends os ≡ false) ↔ All (λ o. suspends o ≡ false) os
  unfolding any_suspends
  any_suspends-All [] = (λ h. tt, λ h. refl)
  any_suspends-All (o ∷ os) =
      let (to, from) = any_suspends-All os in
      (λ h. (ground arith, to (ground arith)), λ (t, ts). ground (arith, t, from ts))

  all_terminate-All :
      (os : List (ToolOutcome E)) → (all_terminate os ≡ true) ↔ ((os ≢ []) × All IsTerminating os)
  unfolding all_terminate
  all_terminate-All [] = (λ h. absurd cc, λ (some_there, ts). absurd (some_there refl))
  all_terminate-All (o ∷ os) =
      let (to, from) = every_terminates-All (o ∷ os) in
      (λ h. ((λ e. absurd cc), to h), λ (some_there, ts). from ts)

  for_all :
      (P : ToolOutcome E → Type 0)
      → ((o : ToolOutcome E) → P o)
      → (os : List (ToolOutcome E)) → All P os
  for_all P h [] = tt
  for_all P h (o ∷ os) = (h o, for_all P h os)

  pub outcomes-IsJudged :
      (error_text : E → String) (os : List (ToolOutcome E)) → IsJudged error_text os
  outcomes-IsJudged error_text os = record {
    ends = all_terminate-All os;
    suspended = any_suspends-All os;
    suspending = for_all _ suspends-IsSuspending os;
    each_told = for_all _ (outcome_message-IsTold error_text) os;
  }
