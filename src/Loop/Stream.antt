-- ===== src/Loop/Stream.antt =====
-- runOneTurn of prompt.go: the provider's stream, and the messages that a turn makes of it.
use Prim.Native.String.{◌++◌ as concat}
use resolute_agent_core_go.Prelude.{
  ℕ, ◌/◌, String, Bool, true, false, ◌&&◌, List, [], ◌∷◌, ◌++◌, Option, none, some, str_eq,
  if◌then◌else◌, map,
}
use resolute_agent_core_go.Message.{
  Message, Usage, new_text_with_signature, new_tool_call_with_signature, with_usage,
}
use resolute_agent_core_go.Loop.Machine.{
  ToolCallContent, message_start, message_end, text_delta, thinking_delta, tool_call_start,
  llm_error, llm_retry, StopReason, other_reason, StreamEvent, text, thought, call_start, call_end,
  failed, retrying, used, ended, Environment, M, pure, throw, ◌>>=◌, ◌>>◌, emit,
}

-- The variables that the loop over the stream fills.
pub record Streamed : Type 0 where
  pub tool_calls : List ToolCallContent
  pub assistant_text : String
  pub thought_signature : List ℕ
  pub message_started : Bool
  pub usage : Option Usage
  pub stop_reason : StopReason

abbrev pub nothing_streamed : Streamed
nothing_streamed = record {
  tool_calls = [];
  assistant_text = "";
  thought_signature = [];
  message_started = false;
  usage = none;
  stop_reason = other_reason;
}

unfoldable pub is_empty : List ℕ → Bool
is_empty [] = true
is_empty (b ∷ bs) = false

-- The text part of the turn, also a signature without text.
unfoldable pub text_message : Streamed → Option Message
text_message s =
    if str_eq s.assistant_text "" && is_empty s.thought_signature
    then none
    else some (new_text_with_signature "assistant" s.assistant_text s.thought_signature)

unfoldable pub call_message : ToolCallContent → Message
call_message c =
    new_tool_call_with_signature "assistant" c.call_id c.tool_name c.args c.thought_signature

-- The usage goes to the last message.
unfoldable pub stamp_last : Usage → List Message → List Message
stamp_last u [] = []
stamp_last u (m ∷ []) = with_usage m u ∷ []
stamp_last u (m ∷ n ∷ ms) = m ∷ stamp_last u (n ∷ ms)

unfoldable pub turn_messages : Streamed → List Message
turn_messages s =
    let calls : List Message = map call_message s.tool_calls in
    let messages : List Message = elim (text_message s) [ none ↦ calls | some m ↦ m ∷ calls ] in
    elim s.usage [ none ↦ messages | some u ↦ stamp_last u messages ]

module _ {X L E W : Type 0} (env : Environment X L E W) where
  unfoldable pub start_message : String → Streamed → M L E W (Unit {0})
  start_message kind s =
      if s.message_started then pure tt else emit (message_start "assistant" kind)

  -- One event of the stream.
  unfoldable pub consume : StreamEvent E → Streamed → M L E W Streamed
  consume (text delta signature) s = do
    start_message "text" s
    emit (text_delta delta signature)
    pure (record s {
      assistant_text = concat s.assistant_text delta;
      thought_signature = if is_empty signature then s.thought_signature else signature;
      message_started = true;
    })
  consume (thought delta signature) s = do
    start_message "thinking" s
    emit (thinking_delta delta signature)
    pure (record s { message_started = true })
  consume call_start s = pure s
  consume (call_end c) s = do
    emit (tool_call_start c)
    pure (record s { tool_calls = s.tool_calls ++ c ∷ [] })
  consume (failed e transient) s =
      if transient
      then (emit (llm_error e true) >>= λ _. pure s)
      else throw (env.wrapped "llm error" e)
  consume (retrying provider model attempt delay reason hint) s = do
    emit (llm_retry provider model attempt (delay / 1000000) reason hint)
    pure s
  consume (used u) s = pure (record s { usage = some u })
  consume (ended r) s = do emit (message_end (text_message s)); pure (record s { stop_reason = r })

  unfoldable pub consume_all : List (StreamEvent E) → Streamed → M L E W Streamed
  consume_all [] s = pure s
  consume_all (e ∷ es) s = consume e s >>= consume_all es
