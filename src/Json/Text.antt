-- ===== src/Json/Text.antt =====
-- The text that stands for a value, and which values the writer can write so that they are read back.
use tundra.Json.{JsonValue, Items, Fields}
use tundra.Json.Writer.{escape_table, bool_text}
use tundra.Prelude.{
  ℕ, Bool, true, false, ◌≢◌, ◌<◌, List, [], ◌∷◌, ◌++◌, Option, none, some, if◌then◌else◌, ◌==◌,
}

abbrev pub escaped_char : ℕ → List ℕ
escaped_char ch = if escape_table ch == 0 then ch ∷ [] else 92 ∷ escape_table ch ∷ []

abbrev pub escaped : List ℕ → List ℕ
escaped [] = []
escaped (ch ∷ str) = escaped_char ch ++ escaped str

abbrev pub quoted : List ℕ → List ℕ
quoted str = 34 ∷ (escaped str ++ (34 ∷ []))

-- The comma before all but the first.
abbrev pub separator : Bool → List ℕ
separator true = []
separator false = b',' ∷ []

abbrev pub name_text : Option (List ℕ) → List ℕ
name_text none = []
name_text (some k) = quoted k ++ (b':' ∷ [])

unfoldable mutual
  unfolding bool_text

  pub value_text : (ℕ → List ℕ) → JsonValue → List ℕ
  value_text num JsonValue.null = []
  value_text num (JsonValue.boolean b) = bool_text b
  value_text num (JsonValue.object fs) = b'{' ∷ (fields_text num true fs ++ (b'}' ∷ []))
  value_text num (JsonValue.array vs) = b'[' ∷ (items_text num true vs ++ (b']' ∷ []))
  value_text num (JsonValue.string s) = quoted s
  value_text num (JsonValue.number n) = num n

  pub items_text : (ℕ → List ℕ) → Bool → Items → List ℕ
  items_text num first Items.no_items = []
  items_text num first (Items.item v vs) =
      separator first ++ (value_text num v ++ items_text num false vs)

  pub fields_text : (ℕ → List ℕ) → Bool → Fields → List ℕ
  fields_text num first Fields.no_fields = []
  fields_text num first (Fields.field k v fs) =
      separator first ++ (name_text (some k) ++ (value_text num v ++ fields_text num false fs))

-- The text holds no zero, which would end it, no vertical tab, and nothing outside ASCII.
abbrev pub Clean : List ℕ → Type 0
Clean [] = Unit
Clean (c ∷ s) = (c ≢ 0) × (c ≢ 11) × (c < 128) × Clean s

-- There is no null in the value, its texts are clean, and its numbers meet the condition.
unfoldable mutual
  pub Writable : (ℕ → Type 0) → JsonValue → Type 0
  Writable Reads JsonValue.null = ⊥
  Writable Reads (JsonValue.boolean b) = Unit
  Writable Reads (JsonValue.object fs) = WritableFields Reads fs
  Writable Reads (JsonValue.array vs) = WritableItems Reads vs
  Writable Reads (JsonValue.string s) = Clean s
  Writable Reads (JsonValue.number n) = Reads n

  pub WritableItems : (ℕ → Type 0) → Items → Type 0
  WritableItems Reads Items.no_items = Unit
  WritableItems Reads (Items.item v vs) = Writable Reads v × WritableItems Reads vs

  pub WritableFields : (ℕ → Type 0) → Fields → Type 0
  WritableFields Reads Fields.no_fields = Unit
  WritableFields Reads (Fields.field k v fs) = Clean k × Writable Reads v × WritableFields Reads fs
