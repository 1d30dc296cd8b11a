-- ===== src/Json/Parser.antt =====
-- The recursive descent of JsonParse.cpp. The lists of pairs and of elements that the source links up
-- in scratch memory, and copies when they are complete, are built behind the recursive calls.
use tundra.Json.{JsonValue, Items, Fields}
use tundra.Json.Lexer.{Clib, JsonLexeme, JsonLexerState, lexer_state_init, peek, next_lexeme}
use tundra.Prelude.{
  ℕ, zero, suc, ◌+◌, ◌*◌, Bool, true, false, not, ◌&&◌, List, if◌then◌else◌, length,
}

-- The messages of JsonError.
pub data Message : Type 0 where
  expected_brace expected_bracket expected_comma expected_colon expected_key_name duplicate_comma
        expected_object_to_continue invalid_document data_after_document :
      Message

-- A null pointer comes with the message and its line.
pub data Parsed {ℓ} (A : Type ℓ) : Type ℓ where
  done : A → JsonLexerState → Parsed A
  json_error : ℕ → Message → Parsed A
  out_of_fuel : Parsed A

abbrev pub and_then {ℓ κ} :
    {A : Type ℓ} {B : Type κ} → Parsed A → (A → JsonLexerState → Parsed B) → Parsed B
and_then (Parsed.done a st) f = f a st
and_then (Parsed.json_error line m) f = Parsed.json_error line m
and_then Parsed.out_of_fuel f = Parsed.out_of_fuel

abbrev pub error_at {ℓ} : {A : Type ℓ} → JsonLexerState → Message → Parsed A
error_at st m = Parsed.json_error st.line_number m

-- The tests of JsonLexerExpect and of the loop over an array.
unfoldable pub is_begin_object : JsonLexeme → Bool
is_begin_object JsonLexeme.begin_object = true
is_begin_object _ = false

unfoldable pub is_begin_array : JsonLexeme → Bool
is_begin_array JsonLexeme.begin_array = true
is_begin_array _ = false

unfoldable pub is_end_array : JsonLexeme → Bool
is_end_array JsonLexeme.end_array = true
is_end_array _ = false

unfoldable pub is_name_separator : JsonLexeme → Bool
is_name_separator JsonLexeme.name_separator = true
is_name_separator _ = false

unfoldable pub is_value_separator : JsonLexeme → Bool
is_value_separator JsonLexeme.value_separator = true
is_value_separator _ = false

unfoldable pub is_eof : JsonLexeme → Bool
is_eof JsonLexeme.eof = true
is_eof _ = false

module _ (lib : Clib) where
  -- JsonParseObject, over its loop.
  unfoldable pub parse_object : (JsonLexerState → Parsed Fields) → JsonLexerState → Parsed JsonValue
  unfolding is_begin_object
  parse_object loop st =
      let (l, st') = next_lexeme lib st in
      if is_begin_object l
      then and_then (loop st') (λ fs st''. Parsed.done (JsonValue.object fs) st'')
      else error_at st' Message.expected_brace

  -- JsonParseArray, over its loop.
  unfoldable pub parse_array : (JsonLexerState → Parsed Items) → JsonLexerState → Parsed JsonValue
  unfolding is_begin_array
  parse_array loop st =
      let (l, st') = next_lexeme lib st in
      if is_begin_array l
      then and_then (loop st') (λ vs st''. Parsed.done (JsonValue.array vs) st'')
      else error_at st' Message.expected_bracket

  -- The switch of JsonParseValue, over the parsers of objects and arrays; the lexeme is not yet
  -- taken.
  unfoldable pub value_at :
      (JsonLexerState → Parsed JsonValue)
      → (JsonLexerState → Parsed JsonValue)
      → JsonLexeme
      → JsonLexerState
      → Parsed JsonValue
  value_at object array JsonLexeme.begin_object st = object st
  value_at object array JsonLexeme.begin_array st = array st
  value_at object array (JsonLexeme.string s) st =
      Parsed.done (JsonValue.string s) (next_lexeme lib st).1
  value_at object array (JsonLexeme.number n) st =
      Parsed.done (JsonValue.number n) (next_lexeme lib st).1
  value_at object array (JsonLexeme.boolean b) st =
      Parsed.done (JsonValue.boolean b) (next_lexeme lib st).1
  value_at object array JsonLexeme.null st = Parsed.done JsonValue.null (next_lexeme lib st).1
  value_at object array _ st = error_at st Message.invalid_document

  -- A pair of an object, behind its key: the colon, the value and the rest of the loop.
  unfoldable pub pair_at :
      (JsonLexerState → Parsed JsonValue)
      → (JsonLexerState → Parsed Fields)
      → List ℕ
      → JsonLexerState
      → Parsed Fields
  unfolding is_name_separator
  pair_at value more key st =
      let (l, st') = next_lexeme lib st in
      if is_name_separator l
      then and_then (value st')
          (λ v st1. and_then (more st1) (λ fs st2. Parsed.done (Fields.field key v fs) st2))
      else error_at st' Message.expected_colon

  -- One round of the loop of JsonParseObject, with seen_value and seen_comma, on its lexeme.
  unfoldable pub fields_at :
      (JsonLexerState → Parsed JsonValue)
      → (Bool → Bool → JsonLexerState → Parsed Fields)
      → Bool
      → Bool
      → JsonLexeme
      → JsonLexerState
      → Parsed Fields
  unfolding pair_at
  fields_at value more seen_value seen_comma (JsonLexeme.string key) st =
      if seen_value && not seen_comma
      then error_at st Message.expected_comma
      else pair_at value (more true false) key st
  fields_at value more seen_value seen_comma JsonLexeme.end_object st =
      Parsed.done Fields.no_fields st
  fields_at value more seen_value seen_comma JsonLexeme.value_separator st =
      if not seen_value
      then error_at st Message.expected_key_name
      else if seen_comma
      then error_at st Message.duplicate_comma
      else more false true st
  fields_at value more seen_value seen_comma _ st = error_at st Message.expected_object_to_continue

  -- An element of an array and the rest of the loop.
  unfoldable pub item_at :
      (JsonLexerState → Parsed JsonValue)
      → (JsonLexerState → Parsed Items)
      → JsonLexerState
      → Parsed Items
  item_at value more st =
      and_then (value st)
        (λ v st1. and_then (more st1) (λ vs st2. Parsed.done (Items.item v vs) st2))

  -- One round of the loop of JsonParseArray, on the lexeme that it peeks at; `some_seen` is
  -- m_Count > 0.
  unfoldable pub items_at :
      (JsonLexerState → Parsed JsonValue)
      → (JsonLexerState → Parsed Items)
      → Bool
      → JsonLexeme
      → JsonLexerState
      → Parsed Items
  unfolding item_at is_end_array is_value_separator
  items_at value more some_seen l st =
      if is_end_array l
      then Parsed.done Items.no_items (next_lexeme lib st).1
      else if some_seen
      then if is_value_separator l
        then item_at value more (next_lexeme lib st).1
        else error_at st Message.expected_comma
      else item_at value more st

  unfoldable mutual
    unfolding value_at fields_at items_at parse_object parse_array

    -- JsonParseValue
    pub parse_value : ℕ → JsonLexerState → Parsed JsonValue
    parse_value zero st = Parsed.out_of_fuel
    parse_value (suc fuel) st =
        let (l, st') = peek lib st in
        value_at (parse_object (parse_fields fuel false false))
          (parse_array (parse_items fuel false)) l st'

    pub parse_fields : ℕ → Bool → Bool → JsonLexerState → Parsed Fields
    parse_fields zero seen_value seen_comma st = Parsed.out_of_fuel
    parse_fields (suc fuel) seen_value seen_comma st =
        let (l, st') = next_lexeme lib st in
        fields_at (parse_value fuel) (parse_fields fuel) seen_value seen_comma l st'

    pub parse_items : ℕ → Bool → JsonLexerState → Parsed Items
    parse_items zero some_seen st = Parsed.out_of_fuel
    parse_items (suc fuel) some_seen st =
        let (l, st') = peek lib st in
        items_at (parse_value fuel) (parse_items fuel true) some_seen l st'

  -- The end of JsonParse: nothing may follow the document.
  unfoldable pub expect_eof : JsonValue → JsonLexerState → Parsed JsonValue
  unfolding is_eof
  expect_eof root st =
      let (l, st') = next_lexeme lib st in
      if is_eof l then Parsed.done root st' else error_at st' Message.data_after_document

  -- JsonParse
  unfoldable pub json_parse : List ℕ → Parsed JsonValue
  unfolding parse_value expect_eof lexer_state_init
  json_parse buffer =
      and_then (parse_value (2 * length buffer + 2) (lexer_state_init buffer)) expect_eof
