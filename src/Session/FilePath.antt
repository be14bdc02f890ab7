-- ===== src/Session/FilePath.antt =====
-- filepath.Join of a directory and a name, which session/jsonl.go uses: the name relative to the
-- directory, cleaned as Clean does. Empty elements and `.` are dropped, `..` takes away the element
-- before it, or stays in front, where the name leaves the directory. The directory is not empty.
use Prim.Native.Char.{Char, code}
use Prim.Native.String.{◌++◌ as concat, len}
use package.text.Mathlib.TextLemmas.{nil-append, cons-append}
use resolute_agent_core_go.Prelude.{
  String, Bool, false, ◌||◌, List, [], ◌∷◌, ◌≡◌, refl, ap, ◌<◌, arith, ◌==◌, str_eq, eq_iff,
  if◌then◌else◌, inl, inr, Bool-cases,
}

unfoldable pub has_slash : String → Bool
has_slash String.[] = false
has_slash (String.◌∷◌ c s) = code c == b'/' || has_slash s

-- The elements between the slashes, empty ones among them.
begins_with : Char → List String → List String
begins_with c [] = String.◌∷◌ c String.[] ∷ []
begins_with c (x ∷ xs) = String.◌∷◌ c x ∷ xs

elements : String → List String
unfolding begins_with
elements String.[] = String.[] ∷ []
elements (String.◌∷◌ c s) =
    let rest = elements s in if code c == b'/' then String.[] ∷ rest else begins_with c rest

-- `..` behind the elements so far, the last first.
go_up : List String → List String
go_up [] = ".." ∷ []
go_up (x ∷ xs) = if str_eq x ".." then ".." ∷ x ∷ xs else xs

resolve : List String → List String → List String
unfolding go_up
resolve done [] = done
resolve done (x ∷ xs) =
    resolve
      (if str_eq x "" || str_eq x "." then done else if str_eq x ".." then go_up done else x ∷ done)
      xs

join_elements : List String → String
join_elements [] = ""
join_elements (x ∷ []) = x
join_elements (x ∷ y ∷ xs) = concat (join_elements (y ∷ xs)) (concat "/" x)

unfoldable pub clean : String → String
unfolding elements resolve join_elements
clean name = join_elements (resolve [] (elements name))

cleaned : clean "../a/.//b/../s.jsonl" ≡ "../a/s.jsonl"
unfolding clean
cleaned = refl

elements-plain : (s : String) → has_slash s ≡ false → elements s ≡ s ∷ []
unfolding elements has_slash begins_with
elements-plain String.[] h = refl
elements-plain (String.◌∷◌ c s) h = elim (Bool-cases (code c == b'/')) [
  | inl slash ↦ absurd (ground (arith, slash, h))
  | inr other ↦ rw (other, elements-plain s (ground (arith, other, h)))
]

differs : (s t : String) → len t < len s → str_eq s t ≡ false
differs s t h = elim (Bool-cases (str_eq s t)) [
  | inr other ↦ other
  | inl same ↦ absurd (omega (arith, h, ap len ((eq_iff s t).0 same)))
]

-- A name without slashes of more than two characters is clean.
pub clean-plain : (s : String) → has_slash s ≡ false → 2 < len s → clean s ≡ s
unfolding clean
clean-plain s h long = rw (
  elements-plain s h,
  resolve,
  differs s "" (omega arith),
  differs s "." (omega arith),
  differs s ".." long,
  join_elements,
)

pub has_slash-append : (s t : String) → has_slash (concat s t) ≡ (has_slash s || has_slash t)
unfolding has_slash
has_slash-append String.[] t = rw (nil-append t)
has_slash-append (String.◌∷◌ c s) t =
    rw (cons-append c s t, has_slash) (ground (arith, has_slash-append s t))
