-- ===== src/ActiveTools.antt =====
-- active_tools.go: the registered tools and the active subset. What a tool runs is of any type X here.
pub mod Validation
pub mod Selection
pub mod Sets
use resolute_agent_core_go.Prelude.{
  ℕ, String, Bool, true, false, ◌&&◌, ◌||◌, List, [], ◌∷◌, ◌++◌, Option, none, some, Outcome, ok,
  err, str_eq, if◌then◌else◌, length, ◌==◌,
}
use resolute_agent_core_go.Json.{RawMessage, absent, doc, malformed}
use resolute_agent_core_go.Message.{Message, active_tool_names}

-- The RegisteredTool interface of tool.go, the optional sampling left out.
pub record RegisteredTool (X : Type 0) : Type 0 where
  pub name : String
  pub description : String
  pub schema : RawMessage
  pub sequential : Bool
  pub run : X

pub data ConfigError : Type 0 where
  duplicate_tool_name invalid_tool_schema unknown_active_tool : String → ConfigError

-- A set of names, which the code keeps in a map to empty structs.
unfoldable pub contains : String → List String → Bool
contains n [] = false
contains n (x ∷ xs) = str_eq x n || contains n xs

-- len(schema) == 0 || !json.Valid(schema)
unfoldable pub is_valid_schema : RawMessage → Bool
is_valid_schema absent = false
is_valid_schema (doc v) = true
is_valid_schema (malformed bytes) = false

module _ {X : Type 0} where
  unfoldable pub tool_names : List (RegisteredTool X) → List String
  tool_names [] = []
  tool_names (t ∷ ts) = t.name ∷ tool_names ts

  -- The first loop: the set of the registered names, or the first fault.
  unfoldable pub register :
      List (RegisteredTool X) → List String → Outcome ConfigError (List String)
  unfolding contains is_valid_schema
  register [] registered = ok registered
  register (t ∷ ts) registered =
      let rest = register ts (t.name ∷ registered) in
      if contains t.name registered
      then err (duplicate_tool_name t.name)
      else if is_valid_schema t.schema
      then rest
      else err (invalid_tool_schema t.name)

-- The second loop.
unfoldable pub check_active : List String → List String → List String → Option ConfigError
unfolding contains
check_active registered [] active = none
check_active registered (n ∷ ns) active =
    let rest = check_active registered ns (n ∷ active) in
    if contains n registered
    then (if contains n active then some (duplicate_tool_name n) else rest)
    else some (unknown_active_tool n)

module _ {X : Type 0} where
  -- A nil active set is `none`.
  unfoldable pub validate_tool_config :
      List (RegisteredTool X) → Option (List String) → Option ConfigError
  unfolding register check_active
  validate_tool_config tools active_names = elim (register tools []) [
    | err e ↦ some e
    | ok registered ↦ elim active_names [
      | none ↦ none
      | some names ↦ check_active registered names []
    ]
  ]

  select : List String → List (RegisteredTool X) → List (RegisteredTool X)
  unfolding contains
  select names [] = []
  select names (t ∷ ts) =
      let rest = select names ts in if contains t.name names then t ∷ rest else rest

  unfoldable pub filter_active_tools :
      List (RegisteredTool X) → Option (List String) → List (RegisteredTool X)
  unfolding select
  filter_active_tools tools none = tools
  filter_active_tools tools (some names) = select names tools

-- The scan from the newest entry: the last that records names decides. The outer `none` is that
-- there is no entry.
unfoldable pub active_tool_names_from_transcript : List Message → Option (Option (List String))
active_tool_names_from_transcript [] = none
active_tool_names_from_transcript (m ∷ ms) = elim (active_tool_names_from_transcript ms) [
  | some names ↦ some names
  | none ↦ active_tool_names m
]

-- The keys of a map that was filled from a list: each name once.
unfoldable pub dedup : List String → List String
unfolding contains
dedup [] = []
dedup (x ∷ xs) = let rest = dedup xs in if contains x rest then rest else x ∷ rest

unfoldable pub all_in : List String → List String → Bool
unfolding contains
all_in [] ys = true
all_in (x ∷ xs) ys = contains x ys && all_in xs ys

unfoldable pub same_string_set : List String → List String → Bool
unfolding dedup all_in
same_string_set a b =
    if length (dedup a) == length (dedup b) then all_in (dedup a) (dedup b) else false
