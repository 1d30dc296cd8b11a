-- ===== src/Json.antt =====
-- src/JsonParse.cpp and JsonParse.hpp, which read the build description, and the writer of
-- src/LuaJsonWriter.cpp, which writes it. A string is the list of its bytes without the terminating
-- zero; a double is the number of its bit pattern.
pub mod Lexer
pub mod Parser
pub mod Writer
pub mod Text
pub mod Written
pub mod Fuel
pub mod Termination
pub mod Reading
pub mod RoundTrip
pub mod Refused
use tundra.Prelude.Strings.{same_string}
use tundra.Prelude.{ℕ, zero, suc, Bool, List, Option, none, some, if◌then◌else◌}

-- JsonValue and its subclasses: m_Values of an array, and m_Names with m_Values of an object.
mutual
  pub data JsonValue : Type 0 where
    null : JsonValue
    boolean : Bool → JsonValue
    object : Fields → JsonValue
    array : Items → JsonValue
    string : List ℕ → JsonValue
    number : ℕ → JsonValue

  pub data Items : Type 0 where
    no_items : Items
    item : JsonValue → Items → Items

  pub data Fields : Type 0 where
    no_fields : Fields
    field : List ℕ → JsonValue → Fields → Fields

-- JsonValue::AsObject and its likes give no result for a value of another type; Find and Elem read
-- through that pointer, and the CHECK of the others fails.
unfoldable pub get_number : JsonValue → Option ℕ
get_number (JsonValue.number n) = some n
get_number _ = none

unfoldable pub get_string : JsonValue → Option (List ℕ)
get_string (JsonValue.string s) = some s
get_string _ = none

unfoldable pub get_boolean : JsonValue → Option Bool
get_boolean (JsonValue.boolean b) = some b
get_boolean _ = none

unfoldable pub elem_of : Items → ℕ → Option JsonValue
elem_of Items.no_items i = none
elem_of (Items.item v vs) zero = some v
elem_of (Items.item v vs) (suc i) = elem_of vs i

-- JsonValue::Elem
unfoldable pub elem : JsonValue → ℕ → Option JsonValue
unfolding elem_of
elem (JsonValue.array vs) i = elem_of vs i
elem _ i = none

unfoldable pub find_in : Fields → List ℕ → Option JsonValue
unfolding same_string
find_in Fields.no_fields key = none
find_in (Fields.field k v fs) key =
    let rest = find_in fs key in if same_string k key then some v else rest

-- JsonValue::Find
unfoldable pub find : JsonValue → List ℕ → Option JsonValue
unfolding find_in
find (JsonValue.object fs) key = find_in fs key
find _ key = none
