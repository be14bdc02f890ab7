-- ===== src/Json/Size.antt =====
-- JSON documents, and the length of the text that json.Marshal writes for one.
use Prim.Native.Char.{code}
use resolute_agent_core_go.Prelude.{
  ℕ, zero, suc, ◌+◌, ◌*◌, ◌/◌, String, Bool, true, false, ◌||◌, List, ℤ, pos, negsuc, ltb, ◌==◌,
  length, if◌then◌else◌,
}

mutual
  pub data Json : Type 0 where
    null : Json
    bool : Bool → Json
    int : ℤ → Json
    -- any other number, by its literal
    number : String → Json
    str : String → Json
    base64 : List ℕ → Json
    arr : Items → Json
    obj : Fields → Json

  pub data Items : Type 0 where
    no_items : Items
    item : Json → Items → Items

  pub data Fields : Type 0 where
    no_fields : Fields
    field : String → Json → Fields → Fields

-- The bytes of one code point inside a JSON string: short escapes, \u escapes (control characters,
-- the HTML characters and the two line separators), and UTF-8.
char_len : ℕ → ℕ
char_len c =
    if c == b'"' || c == b'\\'
    then 2
    else if ltb c 32
    then (if c == 8 || c == 9 || c == 10 || c == 12 || c == 13 then 2 else 6)
    else if c == b'<' || c == b'>' || c == b'&' || c == 0x2028 || c == 0x2029
    then 6
    else if ltb c 0x80
    then 1
    else if ltb c 0x800
    then 2
    else if ltb c 0x10000
    then 3
    else 4

chars_len : String → ℕ
unfolding char_len
chars_len String.[] = 0
chars_len (String.◌∷◌ c s) = char_len (code c) + chars_len s

plain_len : String → ℕ
plain_len String.[] = 0
plain_len (String.◌∷◌ c s) = 1 + plain_len s

-- Decimal digits of n, with at least one round of fuel for each.
digits_len : ℕ → ℕ → ℕ
digits_len zero n = 1
digits_len (suc fuel) n = let rest = digits_len fuel (n / 10) in if ltb n 10 then 1 else 1 + rest

int_len : ℤ → ℕ
unfolding digits_len
int_len (pos n) = digits_len n n
int_len (negsuc n) = 1 + digits_len (suc n) (suc n)

-- Brackets and commas: one byte before each element, and one at the end; two for an empty list.
unfoldable mutual
  unfolding chars_len plain_len int_len

  pub text_len : Json → ℕ
  text_len null = 4
  text_len (bool true) = 4
  text_len (bool false) = 5
  text_len (int z) = int_len z
  text_len (number literal) = plain_len literal
  text_len (str s) = 2 + chars_len s
  text_len (base64 bytes) = 2 + 4 * ((length bytes + 2) / 3)
  text_len (arr no_items) = 2
  text_len (arr (item v vs)) = 1 + (1 + text_len v + items_len vs)
  text_len (obj no_fields) = 2
  text_len (obj (field k v fs)) = 1 + (4 + chars_len k + text_len v + fields_len fs)

  items_len : Items → ℕ
  items_len no_items = 0
  items_len (item v vs) = 1 + text_len v + items_len vs

  fields_len : Fields → ℕ
  fields_len no_fields = 0
  fields_len (field k v fs) = 4 + chars_len k + text_len v + fields_len fs
