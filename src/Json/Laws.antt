-- ===== src/Json/Laws.antt =====
-- Reading and writing the members of a document.
use resolute_agent_core_go.Prelude.{
  String, List, [], ◌∷◌, Option, none, some, ◌≡◌, refl, arith, str_eq, eq_iff, if◌then◌else◌,
}
use resolute_agent_core_go.Json.{
  Json, Fields, no_fields, field, get, put, without, as_strings, of_strings, strings_of,
  string_items,
}

-- A member survives the removal of another, and is gone after its own.
pub get-without :
    (k j : String) (fs : Fields) → get j (without k fs) ≡ (if str_eq k j then none else get j fs)
unfolding get without
get-without k j no_fields = ground arith
get-without k j (field i v fs) =
    ground (arith, get-without k j fs, eq_iff i k, eq_iff i j, eq_iff k j)

pub get-put :
    (k j : String) (v : Json) (fs : Fields)
    → get j (put k v fs) ≡ (if str_eq k j then some v else get j fs)
unfolding put get
get-put k j v fs = ground (arith, get-without k j fs)

strings_of-string_items : (ss : List String) → strings_of (string_items ss) ≡ some ss
unfolding strings_of string_items
strings_of-string_items [] = refl
strings_of-string_items (s ∷ ss) = rw (strings_of-string_items ss)

pub as_strings-of_strings :
    (names : Option (List String)) → as_strings (some (of_strings names)) ≡ some names
unfolding as_strings of_strings
as_strings-of_strings none = refl
as_strings-of_strings (some ss) = rw (strings_of-string_items ss, as_strings)
