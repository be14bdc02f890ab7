-- ===== src/Json.antt =====
-- encoding/json as message.go uses it: a `json.RawMessage` is the document that its text encodes, and
-- decoding into a Go struct reads the document's members one by one.
-- A string that holds the base64 text of bytes (a `[]byte` member) has its own constructor, since the
-- code writes and reads such strings only under keys of their own. Keys are compared exactly: the
-- code reads back keys that it wrote.
mod Size
pub mod Laws
pub use Size.{
  Json, Items, Fields, null, bool, int, number, str, base64, arr, obj, no_items, item, no_fields,
  field,
}
unfoldable pub use Size.{text_len}
use resolute_agent_core_go.Prelude.{
  ℕ, String, Bool, true, false, List, [], ◌∷◌, Option, none, some, ℤ, pos, str_eq, length,
  if◌then◌else◌,
}

-- `absent` is nil; `malformed` holds bytes that are not one JSON document.
pub data RawMessage : Type 0 where
  absent : RawMessage
  doc : Json → RawMessage
  malformed : List ℕ → RawMessage

-- len(raw)
unfoldable pub raw_len : RawMessage → ℕ
raw_len absent = 0
raw_len (doc v) = text_len v
raw_len (malformed bytes) = length bytes

-- json.Marshal of a RawMessage: nil is written as null, and invalid text is an error.
unfoldable pub marshal_raw : RawMessage → Option Json
marshal_raw absent = some null
marshal_raw (doc v) = some v
marshal_raw (malformed bytes) = none

-- The member that decoding keeps: of two equal keys, the later.
unfoldable pub get : String → Fields → Option Json
get k no_fields = none
get k (field j v fs) = elim (get k fs) [
  | some w ↦ some w
  | none ↦ if str_eq j k then some v else none
]

unfoldable pub without : String → Fields → Fields
without k no_fields = no_fields
without k (field j v fs) = let rest = without k fs in if str_eq j k then rest else field j v rest

-- obj[k] = v on a map of members
unfoldable pub put : String → Json → Fields → Fields
put k v fs = field k v (without k fs)

-- json.Unmarshal into a struct: the members, or an error. null leaves the struct as it is.
unfoldable pub struct_of : RawMessage → Option Fields
struct_of (doc (obj fs)) = some fs
struct_of (doc null) = some no_fields
struct_of (doc _) = none
struct_of absent = none
struct_of (malformed _) = none

-- Decoding one member into a Go field, `none` for an error. A missing member and null leave the zero
-- value.
unfoldable pub as_string : Option Json → Option String
as_string (some (str s)) = some s
as_string (some null) = some ""
as_string (some _) = none
as_string none = some ""

unfoldable pub as_bool : Option Json → Option Bool
as_bool (some (bool b)) = some b
as_bool (some null) = some false
as_bool (some _) = none
as_bool none = some false

unfoldable pub as_int : Option Json → Option ℤ
as_int (some (int z)) = some z
as_int (some null) = some (pos 0)
as_int (some _) = none
as_int none = some (pos 0)

-- []byte; nil is the empty list
unfoldable pub as_bytes : Option Json → Option (List ℕ)
as_bytes (some (base64 bytes)) = some bytes
as_bytes (some null) = some []
as_bytes (some _) = none
as_bytes none = some []

unfoldable pub as_raw : Option Json → RawMessage
as_raw (some v) = doc v
as_raw none = absent

strings_of : Items → Option (List String)
unfolding as_string
strings_of no_items = some []
strings_of (item v vs) = elim (as_string (some v)) [
  | none ↦ none
  | some s ↦ elim (strings_of vs) [ none ↦ none | some ss ↦ some (s ∷ ss) ]
]

-- []string: the inner `none` is nil
unfoldable pub as_strings : Option Json → Option (Option (List String))
unfolding strings_of
as_strings (some (arr vs)) = elim (strings_of vs) [ none ↦ none | some ss ↦ some (some ss) ]
as_strings (some null) = some none
as_strings (some _) = none
as_strings none = some none

string_items : List String → Items
string_items [] = no_items
string_items (s ∷ ss) = item (str s) (string_items ss)

-- json.Marshal of a []string: nil is null
unfoldable pub of_strings : Option (List String) → Json
unfolding string_items
of_strings none = null
of_strings (some ss) = arr (string_items ss)
