-- ===== src/ModelRef.antt =====
-- agent.go, parseModelRef: "provider/model" is cut at the first slash.
use Prim.Native.Char.{code}
use resolute_agent_core_go.Prelude.{String, Option, none, some, ◌==◌, if◌then◌else◌}

-- The text before the first slash and the text behind it.
cut_slash : String → Option (String × String)
cut_slash String.[] = none
cut_slash (String.◌∷◌ c s) =
    let rest = cut_slash s in
    if code c == b'/'
    then some (String.[], s)
    else elim rest [ none ↦ none | some (before, behind) ↦ some (String.◌∷◌ c before, behind) ]

-- The loop leaves idx at 0 both where there is no slash and where the slash comes first.
unfoldable pub parse_model_ref : String → Option (String × String)
unfolding cut_slash
parse_model_ref ref = elim (cut_slash ref) [
  | none ↦ none
  | some (String.[], behind) ↦ none
  | some (String.◌∷◌ c before, behind) ↦ some (String.◌∷◌ c before, behind)
]
