-- ===== src/Examples/Messages.antt =====
-- Messages that are built, read back and converted.
use resolute_agent_core_go.Prelude.{String, false, [], ◌∷◌, some, ◌≡◌, refl, pos}
use resolute_agent_core_go.Json.{RawMessage, doc, absent, malformed, str, marshal_raw}
use resolute_agent_core_go.Message.{
  Usage, ToolResult, new_text, new_tool_call_with_signature, new_active_tools_change, tool_call,
}
use resolute_agent_core_go.Message.RoundTrip.{read_back, tool_call-new_tool_call_with_signature}
use resolute_agent_core_go.Compaction.{exclude_bookkeeping}
use resolute_agent_core_go.Convert.{default_convert_to_llm}
use resolute_agent_core_go.Convert.Bookkeeping.{default_convert_to_llm-exclude_bookkeeping}

abbrev done : ToolResult
done = record {
  content = "done";
  payload = absent;
  is_error = false;
  terminate = false;
  suspend = false;
  images = [];
}

abbrev ten_tokens : Usage
ten_tokens = record { input_tokens = pos 7; output_tokens = pos 3 }

abbrev body_text : RawMessage → String
body_text absent = ""
body_text (doc (str s)) = s
body_text (doc v) = "{}"
body_text (malformed bytes) = ""

tool_call-new_tool_call_with_signature_example :
    tool_call (new_tool_call_with_signature "assistant" "c1" "read" (doc (str "a.txt")) (1 ∷ []))
    ≡ read_back (marshal_raw (doc (str "a.txt"))) "c1" "read"
tool_call-new_tool_call_with_signature_example =
    tool_call-new_tool_call_with_signature "assistant" "c1" "read" (doc (str "a.txt")) (1 ∷ [])

default_convert_to_llm-exclude_bookkeeping_example :
    default_convert_to_llm body_text
      (exclude_bookkeeping (new_text "user" "hi" ∷ new_active_tools_change (some []) ∷ []))
    ≡ default_convert_to_llm body_text
        (new_text "user" "hi" ∷ new_active_tools_change (some []) ∷ [])
unfolding new_text new_active_tools_change
default_convert_to_llm-exclude_bookkeeping_example =
    default_convert_to_llm-exclude_bookkeeping body_text
      (new_text "user" "hi" ∷ new_active_tools_change (some []) ∷ [])
      ((λ _. refl), ((λ _. refl), tt))
