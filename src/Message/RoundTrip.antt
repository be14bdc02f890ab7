-- ===== src/Message/RoundTrip.antt =====
-- What the accessors of message.go read back from the messages that its constructors build.
use resolute_agent_core_go.Prelude.{
  ℕ, String, List, [], ◌∷◌, Option, none, some, ◌≡◌, refl, ap, arith, str_eq, if◌then◌else◌,
}
use resolute_agent_core_go.Json.{
  Json, null, obj, RawMessage, absent, doc, malformed, marshal_raw, get, without, struct_of,
  as_string,
}
use resolute_agent_core_go.Json.Laws.{get-put, as_strings-of_strings}
use resolute_agent_core_go.Message.{
  Message, Usage, ToolResult, ToolCallBody, ToolResultBody, new_tool_call_with_signature,
  new_tool_result_msg, new_active_tools_change, active_tool_names, text, text_of, tool_call,
  tool_result, usage, usage_json, usage_of, with_usage, with_usage_body, with_text_key,
}

-- What is expected back, from the arguments as JSON.
abbrev pub read_back : Option Json → String → String → Option ToolCallBody
read_back none call_id tool_name = none
read_back (some v) call_id tool_name =
    some (record { call_id = call_id; tool_name = tool_name; args = doc v })

-- A recorded tool call reads back as it was given, nil arguments as null; arguments that are no JSON
-- document leave a body that does not read back at all.
pub tool_call-new_tool_call_with_signature :
    (role call_id tool_name : String) (args : RawMessage) (signature : List ℕ)
    → tool_call (new_tool_call_with_signature role call_id tool_name args signature)
      ≡ read_back (marshal_raw args) call_id tool_name
unfolding tool_call new_tool_call_with_signature
tool_call-new_tool_call_with_signature role call_id tool_name absent [] = refl
tool_call-new_tool_call_with_signature role call_id tool_name (doc v) [] = refl
tool_call-new_tool_call_with_signature role call_id tool_name (malformed bytes) [] = refl
tool_call-new_tool_call_with_signature role call_id tool_name absent (b ∷ bs) = refl
tool_call-new_tool_call_with_signature role call_id tool_name (doc v) (b ∷ bs) = refl
tool_call-new_tool_call_with_signature role call_id tool_name (malformed bytes) (b ∷ bs) = refl

-- What is expected back, from the data as JSON.
abbrev pub read_result : Option Json → String → String → ToolResult → Option ToolResultBody
read_result none call_id tool_name r = none
read_result (some v) call_id tool_name r = some (record {
  call_id = call_id;
  tool_name = tool_name;
  content = r.content;
  payload = doc v;
  is_error = r.is_error;
})

-- A recorded tool result reads back as it was given, whatever the marks and images of the result, nil
-- data as null; data that is no JSON document leave a body that does not read back at all.
pub tool_result-new_tool_result_msg :
    (call_id tool_name : String) (r : ToolResult)
    → tool_result (new_tool_result_msg call_id tool_name r)
      ≡ read_result (marshal_raw r.payload) call_id tool_name r
unfolding tool_result new_tool_result_msg
tool_result-new_tool_result_msg call_id tool_name r = ground arith

-- The recorded set of names reads back exactly, nil apart from empty.
pub active_tool_names-new_active_tools_change :
    (names : Option (List String)) → active_tool_names (new_active_tools_change names) ≡ some names
unfolding active_tool_names new_active_tools_change
active_tool_names-new_active_tools_change names = as_strings-of_strings names

-- A value, unless there was nothing to marshal.
abbrev pub if_marshals {ℓ} : {A : Type ℓ} → Option Json → A → Option A
if_marshals none a = none
if_marshals (some v) a = some a

usage_body :
    (b : RawMessage) (u : Usage)
    → (elim (struct_of (with_usage_body u (with_text_key b))) [
      | none ↦ none
      | some fs ↦ usage_of (get "usage" fs)
    ])
      ≡ if_marshals (marshal_raw b) u
unfolding with_usage_body with_text_key struct_of usage_of marshal_raw without
usage_body absent u = refl
usage_body (malformed bytes) u = refl
usage_body (doc (obj fs)) u = ap usage_of (get-put "usage" "usage" (usage_json u) fs)
usage_body (doc v) u = refl

-- Recorded usage reads back, unless the body of the message was no JSON document, in which case no
-- usage is recorded.
pub usage-with_usage :
    (m : Message) (u : Usage) → usage (with_usage m u) ≡ if_marshals (marshal_raw m.body) u
unfolding usage with_usage
usage-with_usage m u = usage_body m.body u

text_of-with_usage_body :
    (u : Usage) (b : RawMessage) → text_of (with_usage_body u (with_text_key b)) ≡ text_of b
unfolding with_usage_body with_text_key text_of without
text_of-with_usage_body u absent = refl
text_of-with_usage_body u (malformed bytes) = refl
text_of-with_usage_body u (doc null) = refl
text_of-with_usage_body u (doc (obj fs)) =
    ap (λ (o : Option Json). elim (as_string o) [ none ↦ "" | some s ↦ s ])
      (get-put "usage" "text" (usage_json u) fs)
text_of-with_usage_body u (doc v) = refl

-- Recording usage changes no text: neither of a plain string body, which becomes an object, nor of
-- any other.
pub text-with_usage : (m : Message) (u : Usage) → text (with_usage m u) ≡ text m
unfolding text with_usage
text-with_usage m u =
    ap
      (λ (t : String).
        if str_eq m.type "text" then t else if str_eq m.type "branch_summary" then t else "")
      (text_of-with_usage_body u m.body)
