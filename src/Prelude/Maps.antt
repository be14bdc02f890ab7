-- ===== src/Prelude/Maps.antt =====
-- A Go map with string keys, as an association list with a key at most once where it is built by
-- these operations. The program never depends on the order in which a map is walked.
use mathlib.Core.Path.{◌≡◌, refl}
use mathlib.Core.Option.{Option, none, some}
use mathlib.Core.List.{List, [], ◌∷◌}
use Prim.Native.String.{String}
use native.Mathlib.Omega.{arith}
use text.Mathlib.Text.{◌==◌ as str_eq}
use text.Mathlib.TextEquality.{eq_iff}
use resolute_agent_core_go.Prelude.Tests.{if◌then◌else◌}

abbrev pub Dict {ℓ} : Type ℓ → Type ℓ
Dict V = List (String × V)

module _ {ℓ} {V : Type ℓ} where
  unfoldable pub lookup : String → Dict V → Option V
  lookup k [] = none
  lookup k ((j, v) ∷ d) = if str_eq j k then some v else lookup k d

  unfoldable pub insert : String → V → Dict V → Dict V
  insert k v [] = (k, v) ∷ []
  insert k v ((j, w) ∷ d) = if str_eq j k then (k, v) ∷ d else (j, w) ∷ insert k v d

  unfoldable pub delete : String → Dict V → Dict V
  delete k [] = []
  delete k ((j, v) ∷ d) = let rest = delete k d in if str_eq j k then rest else (j, v) ∷ rest

  -- The values, in some order.
  unfoldable pub values : Dict V → List V
  values [] = []
  values ((k, v) ∷ d) = v ∷ values d

  pub lookup-insert :
      (k j : String) (v : V) (d : Dict V)
      → lookup j (insert k v d) ≡ (if str_eq k j then some v else lookup j d)
  unfolding lookup insert
  lookup-insert k j v [] = refl
  lookup-insert k j v ((i, w) ∷ d) =
      ground (arith, eq_iff k j, eq_iff i k, eq_iff i j, lookup-insert k j v d)

  pub lookup-delete :
      (k j : String) (d : Dict V)
      → lookup j (delete k d) ≡ (if str_eq k j then none else lookup j d)
  unfolding lookup delete
  lookup-delete k j [] = ground arith
  lookup-delete k j ((i, w) ∷ d) =
      ground (arith, lookup-delete k j d, eq_iff i k, eq_iff i j, eq_iff k j)

-- d[k] on a map of slices, where a missing key reads as nil
unfoldable pub get_list {ℓ} : {A : Type ℓ} → String → Dict (List A) → List A
unfolding lookup
get_list k d = elim (lookup k d) [ none ↦ [] | some xs ↦ xs ]

module _ {ℓ} {A : Type ℓ} where
  pub get_list-insert :
      (k j : String) (xs : List A) (d : Dict (List A))
      → get_list j (insert k xs d) ≡ (if str_eq k j then xs else get_list j d)
  unfolding get_list
  get_list-insert k j xs d = ground (arith, lookup-insert k j xs d)

  pub get_list-delete :
      (k j : String) (d : Dict (List A))
      → get_list j (delete k d) ≡ (if str_eq k j then [] else get_list j d)
  unfolding get_list
  get_list-delete k j d = ground (arith, lookup-delete k j d)
