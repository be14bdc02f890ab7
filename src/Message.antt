-- ===== src/Message.antt =====
-- message.go: the transcript message, its constructors and its accessors. A Go result
-- `(a, b, ok)` is an `Option`, and `_ = json.Unmarshal(...)` keeps what could be decoded.
pub mod RoundTrip
use resolute_agent_core_go.Prelude.{
  ℕ, String, Bool, true, false, ◌&&◌, List, [], ◌∷◌, Option, none, some, ℤ, str_eq, if◌then◌else◌,
}
use resolute_agent_core_go.Json.{
  Json, Fields, null, bool, int, str, base64, obj, no_fields, field, RawMessage, absent, doc,
  malformed, marshal_raw, get, put, struct_of, as_string, as_bool, as_int, as_bytes, as_raw,
  as_strings, of_strings,
}

-- llm.ImageContent, of which the code reads and writes these two fields
pub record ImageContent : Type 0 where
  pub bytes : List ℕ
  pub mime_type : String

pub record Message : Type 0 where
  pub role : String
  pub type : String
  pub body : RawMessage
  pub images : List ImageContent

-- session.go
pub record Usage : Type 0 where
  pub input_tokens : ℤ
  pub output_tokens : ℤ

-- The part of tool.go's ToolResult that a message records, and the two marks that the loop reads.
pub record ToolResult : Type 0 where
  pub content : String
  pub payload : RawMessage
  pub is_error : Bool
  pub terminate : Bool
  pub suspend : Bool
  pub images : List ImageContent

pub record ToolCallBody : Type 0 where
  pub call_id : String
  pub tool_name : String
  pub args : RawMessage

pub record ToolResultBody : Type 0 where
  pub call_id : String
  pub tool_name : String
  pub content : String
  pub payload : RawMessage
  pub is_error : Bool

-- body, _ := json.Marshal(map): a member that cannot be marshalled leaves a nil body.
unfoldable pub body_of : Option Fields → RawMessage
body_of none = absent
body_of (some fs) = doc (obj fs)

unfoldable pub new_text : String → String → Message
new_text role text = record { role = role; type = "text"; body = doc (str text); images = [] }

signed_text : String → List ℕ → RawMessage
signed_text text signature =
    doc (obj (field "text" (str text) (field "thought_signature" (base64 signature) no_fields)))

unfoldable pub new_text_with_signature : String → String → List ℕ → Message
unfolding new_text signed_text
new_text_with_signature role text [] = new_text role text
new_text_with_signature role text (b ∷ bs) = record {
  role = role;
  type = "text";
  body = signed_text text (b ∷ bs);
  images = [];
}

tool_call_fields : String → String → RawMessage → Fields → Option Fields
tool_call_fields call_id tool_name args rest = elim (marshal_raw args) [
  | none ↦ none
  | some v ↦
      some (field "args" v (field "call_id" (str call_id) (field "tool_name" (str tool_name) rest)))
]

unfoldable pub new_tool_call : String → String → String → RawMessage → Message
unfolding body_of tool_call_fields marshal_raw
new_tool_call role call_id tool_name args = record {
  role = role;
  type = "tool_call";
  body = body_of (tool_call_fields call_id tool_name args no_fields);
  images = [];
}

unfoldable pub new_tool_call_with_signature :
    String → String → String → RawMessage → List ℕ → Message
unfolding new_tool_call
new_tool_call_with_signature role call_id tool_name args [] =
    new_tool_call role call_id tool_name args
new_tool_call_with_signature role call_id tool_name args (b ∷ bs) = record {
  role = role;
  type = "tool_call";
  body = body_of (
      tool_call_fields call_id tool_name args
        (field "thought_signature" (base64 (b ∷ bs)) no_fields));
  images = [];
}

tool_result_body : String → String → String → RawMessage → Bool → RawMessage
unfolding body_of marshal_raw
tool_result_body call_id tool_name content payload is_error = elim (marshal_raw payload) [
  | none ↦ absent
  | some v ↦ doc (
      obj (
        field "call_id" (str call_id) (
          field "content" (str content) (
            field "data" v
              (field "is_error" (bool is_error) (field "tool_name" (str tool_name) no_fields))))))
]

unfoldable pub new_tool_result : String → String → String → String → RawMessage → Bool → Message
unfolding tool_result_body
new_tool_result role call_id tool_name content payload is_error = record {
  role = role;
  type = "tool_result";
  body = tool_result_body call_id tool_name content payload is_error;
  images = [];
}

unfoldable pub new_tool_result_msg : String → String → ToolResult → Message
unfolding tool_result_body
new_tool_result_msg call_id tool_name r = record {
  role = "tool";
  type = "tool_result";
  body = tool_result_body call_id tool_name r.content r.payload r.is_error;
  images = r.images;
}

unfoldable pub new_thinking : String → String → Message
new_thinking role text = record {
  role = role;
  type = "thinking";
  body = doc (str text);
  images = [];
}

unfoldable pub new_thinking_with_signature : String → String → List ℕ → Message
unfolding new_thinking signed_text
new_thinking_with_signature role text [] = new_thinking role text
new_thinking_with_signature role text (b ∷ bs) = record {
  role = role;
  type = "thinking";
  body = signed_text text (b ∷ bs);
  images = [];
}

unfoldable pub new_system : String → Message
unfolding new_text
new_system text = new_text "system" text

unfoldable pub new_branch_summary_message : String → Message
new_branch_summary_message summary = record {
  role = "system";
  type = "branch_summary";
  body = doc (str summary);
  images = [];
}

unfoldable pub new_active_tools_change : Option (List String) → Message
unfolding of_strings
new_active_tools_change names = record {
  role = "system";
  type = "active_tools_change";
  body = doc (obj (field "activeToolNames" (of_strings names) no_fields));
  images = [];
}

-- The outer `none` is ok == false; the inner one is a nil slice.
unfoldable pub active_tool_names : Message → Option (Option (List String))
unfolding struct_of get as_strings
active_tool_names m =
    if str_eq m.type "active_tools_change"
    then (elim (struct_of m.body) [ none ↦ none | some fs ↦ as_strings (get "activeToolNames" fs) ])
    else none

-- A text body is a string, or an object with a text member.
text_of : RawMessage → String
unfolding struct_of get as_string
text_of (doc (str s)) = s
text_of (doc null) = ""
text_of body = elim (struct_of body) [
  | none ↦ ""
  | some fs ↦ elim (as_string (get "text" fs)) [ none ↦ "" | some s ↦ s ]
]

unfoldable pub text : Message → String
unfolding text_of
text m =
    if str_eq m.type "text"
    then text_of m.body
    else if str_eq m.type "branch_summary"
    then text_of m.body
    else ""

signature_of : RawMessage → List ℕ
unfolding struct_of get as_bytes
signature_of body = elim (struct_of body) [
  | none ↦ []
  | some fs ↦ elim (as_bytes (get "thought_signature" fs)) [ none ↦ [] | some bs ↦ bs ]
]

unfoldable pub text_thought_signature : Message → List ℕ
unfolding signature_of
text_thought_signature m = if str_eq m.type "text" then signature_of m.body else []

unfoldable pub thinking_text : Message → String
unfolding text_of
thinking_text m = if str_eq m.type "thinking" then text_of m.body else ""

unfoldable pub thinking_thought_signature : Message → List ℕ
unfolding signature_of
thinking_thought_signature m = if str_eq m.type "thinking" then signature_of m.body else []

tool_call_of : Fields → Option ToolCallBody
unfolding get as_string as_raw
tool_call_of fs = elim (as_string (get "call_id" fs)) [
  | none ↦ none
  | some call_id ↦ elim (as_string (get "tool_name" fs)) [
    | none ↦ none
    | some tool_name ↦
        some (record { call_id = call_id; tool_name = tool_name; args = as_raw (get "args" fs) })
  ]
]

unfoldable pub tool_call : Message → Option ToolCallBody
unfolding struct_of tool_call_of
tool_call m =
    if str_eq m.type "tool_call"
    then (elim (struct_of m.body) [ none ↦ none | some fs ↦ tool_call_of fs ])
    else none

unfoldable pub tool_call_thought_signature : Message → List ℕ
unfolding signature_of
tool_call_thought_signature m = if str_eq m.type "tool_call" then signature_of m.body else []

tool_result_of : Fields → Option ToolResultBody
unfolding get as_string as_raw as_bool
tool_result_of fs = elim (as_string (get "call_id" fs)) [
  | none ↦ none
  | some call_id ↦ elim (as_string (get "tool_name" fs)) [
    | none ↦ none
    | some tool_name ↦ elim (as_string (get "content" fs)) [
      | none ↦ none
      | some content ↦ elim (as_bool (get "is_error" fs)) [
        | none ↦ none
        | some is_error ↦ some (record {
          call_id = call_id;
          tool_name = tool_name;
          content = content;
          payload = as_raw (get "data" fs);
          is_error = is_error;
        })
      ]
    ]
  ]
]

unfoldable pub tool_result : Message → Option ToolResultBody
unfolding struct_of tool_result_of
tool_result m =
    if str_eq m.type "tool_result"
    then (elim (struct_of m.body) [ none ↦ none | some fs ↦ tool_result_of fs ])
    else none

usage_json : Usage → Json
usage_json u = obj (
    field "inputTokens" (int u.input_tokens) (field "outputTokens" (int u.output_tokens) no_fields))

-- The members that WithUsage starts from: the body's own, or the body under the key text.
with_text_key : RawMessage → Option Fields
unfolding marshal_raw
with_text_key (doc (obj fs)) = some fs
with_text_key body = elim (marshal_raw body) [
  | none ↦ none
  | some v ↦ some (field "text" v no_fields)
]

with_usage_body : Usage → Option Fields → RawMessage
unfolding body_of put usage_json
with_usage_body u none = absent
with_usage_body u (some fs) = doc (obj (put "usage" (usage_json u) fs))

unfoldable pub with_usage : Message → Usage → Message
unfolding with_usage_body with_text_key
with_usage m u = record m { body = with_usage_body u (with_text_key m.body) }

-- Decoding the usage member into *Usage: null and a missing member leave nil, and so does an error.
usage_of : Option Json → Option Usage
unfolding get as_int
usage_of (some (obj fs)) = elim (as_int (get "inputTokens" fs)) [
  | none ↦ none
  | some i ↦ elim (as_int (get "outputTokens" fs)) [
    | none ↦ none
    | some o ↦ some (record { input_tokens = i; output_tokens = o })
  ]
]
usage_of _ = none

unfoldable pub usage : Message → Option Usage
unfolding struct_of get usage_of
usage m = elim (struct_of m.body) [ none ↦ none | some fs ↦ usage_of (get "usage" fs) ]
