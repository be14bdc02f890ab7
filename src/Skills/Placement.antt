-- ===== src/Skills/Placement.antt =====
-- Where the index of skills stands among the messages of a turn (applySkillsToSystemPrompt, skill.go).
use Prim.Native.String.{◌++◌ as concat}
use resolute_agent_core_go.Prelude.{
  String, false, List, [], ◌∷◌, ◌++◌, Option, none, some, ◌≡◌, refl, ap, ◌⊎◌, inl, inr, All,
  Option-cases, str_eq, Bool-cases, ◌≢◌, ◌∙◌, arith, eq_iff,
}
use resolute_agent_core_go.Config.{Skill}
use resolute_agent_core_go.Convert.{LlmMessage, text_content}
use resolute_agent_core_go.Skills.{
  format_skills_for_system_prompt, system_text, with_index, add_index,
  apply_skills_to_system_prompt,
}

-- A message that is no text of the system.
abbrev pub IsOther : LlmMessage → Type 0
IsOther m = system_text m ≡ none

-- The first text of the system, among the messages before and after it.
pub record SystemText (msgs : List LlmMessage) : Type 0 where
  pub before : List LlmMessage
  pub system : LlmMessage
  pub old : String
  pub behind : List LlmMessage
  pub whole : msgs ≡ before ++ system ∷ behind
  pub first : All IsOther before
  pub is_text : system_text system ≡ some old

-- A text of the system.
abbrev pub system_message : String → LlmMessage
system_message text = record { role = "system"; content = text_content text [] }

-- The index behind what the system said, an empty line between them, or alone, where that was empty.
pub IsIndexText : String → String → String → Type 0
IsIndexText index old text =
    ((old ≡ "") × (text ≡ index)) ⊎ ((old ≢ "") × (text ≡ concat old (concat "\n\n" index)))

-- The messages with the index.
pub IsIndexed : String → List LlmMessage → List LlmMessage → Type 0
IsIndexed index msgs out =
    (All IsOther msgs × (out ≡ system_message index ∷ msgs))
    ⊎ ((s : SystemText msgs) × (text : String) × IsIndexText index s.old text
        × (out ≡ s.before ++ system_message text ∷ s.behind))

with_index-IsIndexText :
    (index old : String)
    → (text : String) × (with_index index old ≡ system_message text) × IsIndexText index old text
unfolding with_index IsIndexText
with_index-IsIndexText index old = elim (Bool-cases (str_eq old "")) [
  | inl empty ↦ rw empty (index, refl, inl (ground (arith, eq_iff old ""), refl))
  | inr said ↦ rw said (_, refl, inr (ground (arith, eq_iff old ""), refl))
]

-- What the loop over the messages finds.
Search : String → List LlmMessage → Option (List LlmMessage) → Type 0
Search index msgs none = All IsOther msgs
Search index msgs (some out) =
    (s : SystemText msgs) × (out ≡ s.before ++ with_index index s.old ∷ s.behind)

later_Search :
    (index : String) (m : LlmMessage) (ms : List LlmMessage) (o : Option (List LlmMessage))
    → IsOther m
    → Search index ms o
    → Search index (m ∷ ms) (elim o [ none ↦ none | some out ↦ some (m ∷ out) ])
unfolding Search
later_Search index m ms none other h = (other, h)
later_Search index m ms (some out) other (s, e) = (
  record {
    before = m ∷ s.before;
    system = s.system;
    old = s.old;
    behind = s.behind;
    whole = ap (λ l. m ∷ l) s.whole;
    first = (other, s.first);
    is_text = s.is_text;
  },
  ap (λ l. m ∷ l) e,
)

add_index-Search :
    (index : String) (msgs : List LlmMessage) → Search index msgs (add_index index msgs)
unfolding add_index Search
add_index-Search index [] = tt
add_index-Search index (m ∷ ms) = elim (Option-cases (system_text m)) [
  | inr (t, text) ↦
      rw (text, add_index, Search)
        (
          record {
            before = [];
            system = m;
            old = t;
            behind = ms;
            whole = refl;
            first = tt;
            is_text = text;
          },
          refl,
        )
  | inl other ↦
      rw (other, add_index)
        (later_Search index m ms (add_index index ms) other (add_index-Search index ms))
]

-- Where some skill is visible, so that the index is not empty: the first text of the system keeps what
-- it said and gets the index behind it, after an empty line, or is the index where it was empty; where
-- there is none, the index is a message of the system before all others; the other messages and their
-- order stay.
pub apply_skills_to_system_prompt-IsIndexed :
    (msgs : List LlmMessage) (skills : List Skill)
    → str_eq (format_skills_for_system_prompt skills) "" ≡ false
    → IsIndexed
        (format_skills_for_system_prompt skills)
        msgs
        (apply_skills_to_system_prompt msgs skills)
unfolding apply_skills_to_system_prompt Search IsIndexed with_index
apply_skills_to_system_prompt-IsIndexed msgs skills shown =
    rw (shown, apply_skills_to_system_prompt)
      (placed _ (add_index-Search (format_skills_for_system_prompt skills) msgs))
  where
    placed :
        (o : Option (List LlmMessage))
        → Search (format_skills_for_system_prompt skills) msgs o
        → IsIndexed (format_skills_for_system_prompt skills) msgs (elim o [
          | some ms ↦ ms
          | none ↦ with_index (format_skills_for_system_prompt skills) "" ∷ msgs
        ])
    placed none h = inl (h, refl)
    placed (some out) (s, e) =
        let (text, message, is) =
          with_index-IsIndexText (format_skills_for_system_prompt skills) s.old in
        inr (s, text, is, e ∙ ap (λ m. s.before ++ m ∷ s.behind) message)
