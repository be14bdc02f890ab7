-- ===== src/ActiveTools/Selection.antt =====
-- Which tools a turn is offered, and what a resumed session restores.
use resolute_agent_core_go.Prelude.{
  String, Bool, true, false, ◌&&◌, List, [], ◌∷◌, ◌++◌, Option, none, some, ◌≡◌, refl, ap, ◌∙◌, inl,
  inr, arith, str_eq, eq_iff, All, Bool-cases,
}
use resolute_agent_core_go.Message.{Message, active_tool_names, new_active_tools_change}
use resolute_agent_core_go.Message.RoundTrip.{active_tool_names-new_active_tools_change}
use resolute_agent_core_go.ActiveTools.{
  RegisteredTool, contains, tool_names, select, filter_active_tools, validate_tool_config,
  active_tool_names_from_transcript,
}
use resolute_agent_core_go.ActiveTools.Validation.{Distinct, validate_tool_config-IsValidConfig}

contains-same :
    (x n : String) (names : List String) → str_eq x n ≡ true → contains x names ≡ contains n names
contains-same x n names e = ap (λ k. contains k names) ((eq_iff x n).0 e)

absorbed : (a b : Bool) → (b ≡ true → a ≡ true) → (a && b) ≡ b
absorbed true b h = refl
absorbed false true h = h refl
absorbed false false h = refl

pub nothing_recorded :
    (ms : List Message)
    → All (λ m. active_tool_names m ≡ none) ms
    → active_tool_names_from_transcript ms ≡ none
unfolding active_tool_names_from_transcript
nothing_recorded [] h = refl
nothing_recorded (m ∷ ms) (h, hs) = rw (nothing_recorded ms hs, active_tool_names_from_transcript) h

restored :
    (names : Option (List String)) (after : List Message)
    → All (λ m. active_tool_names m ≡ none) after
    → active_tool_names_from_transcript (new_active_tools_change names ∷ after) ≡ some names
unfolding active_tool_names_from_transcript
restored names after h =
    rw (nothing_recorded after h, active_tool_names_from_transcript)
      (active_tool_names-new_active_tools_change names)

transcript-after :
    (before ms : List Message) (names : Option (List String))
    → active_tool_names_from_transcript ms ≡ some names
    → active_tool_names_from_transcript (before ++ ms) ≡ some names
unfolding active_tool_names_from_transcript
transcript-after [] ms names h = h
transcript-after (m ∷ before) ms names h =
    rw (transcript-after before ms names h, active_tool_names_from_transcript)

contains-All :
    (names known : List String) (n : String)
    → All (λ m. contains m known ≡ true) names
    → contains n names ≡ true
    → contains n known ≡ true
unfolding contains
contains-All [] known n h c = cc
contains-All (m ∷ ms) known n (h, hs) c = elim (Bool-cases (str_eq m n)) [
  | inl same ↦ ground (arith, contains-same m n known same)
  | inr other ↦ contains-All ms known n hs (ground arith)
]

module _ {X : Type 0} where
  select-contains :
      (names : List String) (tools : List (RegisteredTool X)) (n : String)
      → contains n (tool_names (select names tools))
        ≡ (contains n (tool_names tools) && contains n names)
  unfolding select tool_names contains
  select-contains names [] n = refl
  select-contains names (t ∷ ts) n = elim (Bool-cases (str_eq t.name n)) [
    | inl same ↦ ground (arith, select-contains names ts n, contains-same t.name n names same)
    | inr other ↦ ground (arith, select-contains names ts n)
  ]

  select-All :
      (P : String → Type 0) (names : List String) (tools : List (RegisteredTool X))
      → All P (tool_names tools)
      → All P (tool_names (select names tools))
  unfolding select tool_names
  select-All P names [] h = tt
  select-All P names (t ∷ ts) (h, hs) = elim (Bool-cases (contains t.name names)) [
    | inl active ↦ rw active (h, select-All P names ts hs)
    | inr inactive ↦ rw inactive (select-All P names ts hs)
  ]

  select-Distinct :
      (names : List String) (tools : List (RegisteredTool X))
      → Distinct (tool_names tools)
      → Distinct (tool_names (select names tools))
  unfolding select tool_names
  select-Distinct names [] h = tt
  select-Distinct names (t ∷ ts) (h, hs) = elim (Bool-cases (contains t.name names)) [
    | inl active ↦ rw active (select-All _ names ts h, select-Distinct names ts hs)
    | inr inactive ↦ rw inactive (select-Distinct names ts hs)
  ]

  -- The names that count as active.
  abbrev pub is_active : Option (List String) → List (RegisteredTool X) → String → Bool
  is_active none tools n = contains n (tool_names tools)
  is_active (some names) tools n = contains n names

  -- The filter offers no name twice, and a name just where it is registered and active, also where the
  -- active set has names that no tool has.
  pub filter_active_tools-registered :
      (tools : List (RegisteredTool X)) (active : Option (List String))
      → Distinct (tool_names tools)
      → Distinct (tool_names (filter_active_tools tools active))
        × ((n : String)
            → contains n (tool_names (filter_active_tools tools active))
              ≡ (contains n (tool_names tools) && is_active active tools n))
  unfolding filter_active_tools
  filter_active_tools-registered tools none h = (h, λ n. ground arith)
  filter_active_tools-registered tools (some names) h =
      (select-Distinct names tools h, select-contains names tools)

  -- In an accepted configuration the filter offers the active tools: no name twice, and a name just
  -- where the active set has it, or just where it is registered if the active set is nil.
  pub filter_active_tools-offers :
      (tools : List (RegisteredTool X)) (active : Option (List String))
      → validate_tool_config tools active ≡ none
      → Distinct (tool_names (filter_active_tools tools active))
        × ((n : String)
            → contains n (tool_names (filter_active_tools tools active)) ≡ is_active active tools n)
  unfolding filter_active_tools
  filter_active_tools-offers tools none h =
      (((validate_tool_config-IsValidConfig tools none).0 h).names_distinct, λ n. refl)
  filter_active_tools-offers tools (some names) h =
      let valid = (validate_tool_config-IsValidConfig tools (some names)).0 h in
      (
        select-Distinct names tools valid.names_distinct,
        λ n.
            select-contains names tools n
            ∙ absorbed (contains n (tool_names tools)) (contains n names)
                (contains-All names (tool_names tools) n (valid.active_registered names refl)),
      )

-- What the last entry of a transcript records is what a resumed session restores, whatever messages
-- that record no names follow it.
pub active_tool_names_from_transcript-last :
    (before after : List Message) (names : Option (List String))
    → All (λ m. active_tool_names m ≡ none) after
    → active_tool_names_from_transcript (before ++ new_active_tools_change names ∷ after)
      ≡ some names
active_tool_names_from_transcript-last before after names h =
    transcript-after before _ names (restored names after h)
