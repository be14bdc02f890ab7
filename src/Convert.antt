-- ===== src/Convert.antt =====
-- DefaultConvertToLLM of agent.go: from agent messages to the messages of the LLM library. The text of
-- a raw JSON body is a parameter.
pub mod Bookkeeping
use Prim.Native.String.{◌++◌ as concat}
use resolute_agent_core_go.Prelude.{
  ℕ, String, Bool, true, false, List, [], ◌∷◌, ◌++◌, Option, none, some, str_eq, if◌then◌else◌, map,
}
use resolute_agent_core_go.Json.{RawMessage}
use resolute_agent_core_go.Message.{
  ImageContent, Message, text, text_thought_signature, thinking_text, thinking_thought_signature,
  tool_call, tool_call_thought_signature, tool_result,
}

-- The contents of llm.Message that the conversion builds.
pub data LlmContent : Type 0 where
  text_content : String → List ℕ → LlmContent
  tool_call_content : String → String → RawMessage → List ℕ → LlmContent
  tool_result_content :
      String → String → String → RawMessage → Bool → List ImageContent → LlmContent
  thinking_content : String → List ℕ → LlmContent
  image_content : ImageContent → LlmContent

pub record LlmMessage : Type 0 where
  pub role : String
  pub content : LlmContent

unfoldable pub convert_tool_call : Message → List LlmMessage
unfolding tool_call tool_call_thought_signature
convert_tool_call msg = elim (tool_call msg) [
  | none ↦ []
  | some c ↦
      (record {
        role = "assistant";
        content = tool_call_content c.call_id c.tool_name c.args (tool_call_thought_signature msg);
      })
      ∷ []
]

unfoldable pub convert_tool_result : Message → List LlmMessage
unfolding tool_result
convert_tool_result msg = elim (tool_result msg) [
  | none ↦ []
  | some r ↦
      (record {
        role = "tool";
        content =
            tool_result_content r.call_id r.tool_name r.content r.payload r.is_error msg.images;
      })
      ∷ []
]

unfoldable pub convert_images : Message → List LlmMessage
convert_images msg =
    if str_eq msg.type "tool_result"
    then []
    else map (λ (im : ImageContent). record { role = msg.role; content = image_content im })
        msg.images

module _ (body_text : RawMessage → String) where
  unfoldable pub convert_message : Message → List LlmMessage
  unfolding text text_thought_signature thinking_text thinking_thought_signature convert_tool_call
      convert_tool_result
  convert_message msg =
      if str_eq msg.type "text"
      then (record {
        role = msg.role;
        content = text_content (text msg) (text_thought_signature msg);
      })
        ∷ []
      else if str_eq msg.type "tool_call"
      then convert_tool_call msg
      else if str_eq msg.type "tool_result"
      then convert_tool_result msg
      else if str_eq msg.type "thinking"
      then (record {
        role = msg.role;
        content = thinking_content (thinking_text msg) (thinking_thought_signature msg);
      })
        ∷ []
      else if str_eq msg.type "branch_summary"
      then (record {
        role = msg.role;
        content = text_content (concat "<summary>" (concat (text msg) "</summary>")) [];
      })
        ∷ []
      else if str_eq msg.type "active_tools_change"
      then []
      else (record { role = msg.role; content = text_content (body_text msg.body) [] }) ∷ []

  unfoldable pub default_convert_to_llm : List Message → List LlmMessage
  unfolding convert_message convert_images
  default_convert_to_llm [] = []
  default_convert_to_llm (msg ∷ msgs) =
      (convert_message msg ++ convert_images msg) ++ default_convert_to_llm msgs
