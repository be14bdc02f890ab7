-- ===== src/Skills.antt =====
-- skill.go: the index of skills in the system prompt of a turn.
pub mod Placement
use Prim.Native.String.{◌++◌ as concat}
use Prim.Native.Char.{code}
use resolute_agent_core_go.Prelude.{
  String, List, [], ◌∷◌, Option, none, some, str_eq, ◌==◌, if◌then◌else◌,
}
use resolute_agent_core_go.Config.{Skill}
use resolute_agent_core_go.Convert.{LlmContent, LlmMessage, text_content}

-- escapeXML
unfoldable pub escape_xml : String → String
escape_xml String.[] = String.[]
escape_xml (String.◌∷◌ c s) =
    let rest = escape_xml s in
    if code c == b'&'
    then concat "&amp;" rest
    else if code c == b'<'
    then concat "&lt;" rest
    else if code c == b'>'
    then concat "&gt;" rest
    else if code c == 34
    then concat "&quot;" rest
    else if code c == 39
    then concat "&apos;" rest
    else String.◌∷◌ c rest

unfoldable pub skill_entry : Skill → String
unfolding escape_xml
skill_entry s = concat "\n  <skill>" (
    concat "\n    <name>" (
      concat (escape_xml s.name) (
        concat "</name>\n    <description>" (
          concat (escape_xml s.description) (
            concat "</description>\n    <location>"
              (concat (escape_xml s.file_path) "</location>\n  </skill>"))))))

unfoldable pub visible : List Skill → List Skill
visible [] = []
visible (s ∷ ss) = let rest = visible ss in if s.disable_model_invocation then rest else s ∷ rest

skill_entries : List Skill → String
unfolding skill_entry
skill_entries [] = "\n</available_skills>"
skill_entries (s ∷ ss) = concat (skill_entry s) (skill_entries ss)

abbrev preamble : String
preamble =
    "The following skills provide specialized instructions for specific tasks.\nRead the full skill file when the task matches its description.\nWhen a skill file references a relative path, resolve it against the skill directory (parent of SKILL.md / dirname of the path) and use that absolute path in tool commands.\n\n<available_skills>"

skill_index : List Skill → String
unfolding skill_entries
skill_index [] = ""
skill_index (s ∷ ss) = concat preamble (skill_entries (s ∷ ss))

unfoldable pub format_skills_for_system_prompt : List Skill → String
unfolding skill_index visible
format_skills_for_system_prompt ss = skill_index (visible ss)

-- A text content whose message has the role of the system, if it is one.
unfoldable pub system_text : LlmMessage → Option String
system_text m = if str_eq m.role "system" then content_text m.content else none
  where
    content_text : LlmContent → Option String
    content_text (text_content t signature) = some t
    content_text c = none

unfoldable pub with_index : String → String → LlmMessage
with_index index t = record {
  role = "system";
  content = text_content (if str_eq t "" then index else concat t (concat "\n\n" index)) [];
}

-- The loop over the messages: the first system text gets the index; `none` if there is none.
unfoldable pub add_index : String → List LlmMessage → Option (List LlmMessage)
unfolding system_text with_index
add_index index [] = none
add_index index (m ∷ ms) =
    let rest = add_index index ms in
    elim (system_text m) [
      | some t ↦ some (with_index index t ∷ ms)
      | none ↦ elim rest [ none ↦ none | some ms' ↦ some (m ∷ ms') ]
    ]

unfoldable pub apply_skills_to_system_prompt : List LlmMessage → List Skill → List LlmMessage
unfolding format_skills_for_system_prompt add_index with_index
apply_skills_to_system_prompt msgs skills =
    let index = format_skills_for_system_prompt skills in
    if str_eq index ""
    then msgs
    else elim (add_index index msgs) [ some ms ↦ ms | none ↦ with_index index "" ∷ msgs ]
