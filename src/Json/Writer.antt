-- ===== src/Json/Writer.antt =====
-- src/LuaJsonWriter.cpp: the writer that the build scripts call. A name is an optional argument of a
-- call. `lua_number2str` is Lua's. What fwrite is given it writes in the end: the source calls it
-- until nothing remains. The escape table has no entry for a byte above 127, which the source takes for
-- a negative index; the model gives it the entry 0.
use tundra.Json.{JsonValue, Items, Fields}
use tundra.Prelude.{
  ℕ, Bool, true, false, List, [], ◌∷◌, ◌++◌, Option, none, some, if◌then◌else◌, ◌==◌, length,
}
use tundra.Json.Lexer.{true_text, false_text}

pub record BufferedWriter : Type 0 where
  pub buffer : List ℕ
  pub file : List ℕ

abbrev pub writer_buffer_size : ℕ
writer_buffer_size = 8192

unfoldable pub buffered_writer_flush : BufferedWriter → BufferedWriter
buffered_writer_flush w = record { buffer = []; file = w.file ++ w.buffer }

unfoldable pub buffered_writer_append : BufferedWriter → ℕ → BufferedWriter
unfolding buffered_writer_flush
buffered_writer_append w ch =
    let w' = if length w.buffer == writer_buffer_size then buffered_writer_flush w else w in
    record w' { buffer = w'.buffer ++ (ch ∷ []) }

unfoldable pub buffered_writer_append_string : BufferedWriter → List ℕ → BufferedWriter
buffered_writer_append_string w [] = w
buffered_writer_append_string w (c ∷ str) =
    buffered_writer_append_string (buffered_writer_append w c) str

-- s_EscapeTable, as LuaJsonNativeOpen fills it.
unfoldable pub escape_table : ℕ → ℕ
escape_table ch =
    if ch == 10
    then b'n'
    else if ch == 13
    then b'r'
    else if ch == 9
    then b't'
    else if ch == 11
    then b'v'
    else if ch == 12
    then b'f'
    else if ch == 92
    then 92
    else if ch == 34
    then 34
    else 0

-- A round of the loop of WriteEscapedString, and the loop.
unfoldable pub write_escaped_char : BufferedWriter → ℕ → BufferedWriter
write_escaped_char w ch =
    if escape_table ch == 0
    then buffered_writer_append w ch
    else buffered_writer_append (buffered_writer_append w 92) (escape_table ch)

unfoldable pub write_escaped_loop : BufferedWriter → List ℕ → BufferedWriter
write_escaped_loop w [] = w
write_escaped_loop w (ch ∷ str) = write_escaped_loop (write_escaped_char w ch) str

unfoldable pub write_escaped_string : BufferedWriter → List ℕ → BufferedWriter
write_escaped_string w str =
    buffered_writer_append (write_escaped_loop (buffered_writer_append w 34) str) 34

pub record LuaJsonWriter : Type 0 where
  pub first_elem : Bool
  pub writer : BufferedWriter

unfoldable pub writer_new : LuaJsonWriter
writer_new = record { first_elem = true; writer = record { buffer = []; file = [] } }

unfoldable pub write_comma : LuaJsonWriter → LuaJsonWriter
write_comma self =
    if self.first_elem
    then record self { first_elem = false }
    else record self { writer = buffered_writer_append self.writer b',' }

unfoldable pub write_name : LuaJsonWriter → Option (List ℕ) → LuaJsonWriter
write_name self none = self
write_name self (some str) = record self {
  writer = buffered_writer_append (write_escaped_string self.writer str) b':';
}

unfoldable pub write_common : LuaJsonWriter → Option (List ℕ) → LuaJsonWriter
write_common self name = write_name (write_comma self) name

-- The methods that a script can call on a writer.
pub data Call : Type 0 where
  write_number : ℕ → Option (List ℕ) → Call
  write_string : List ℕ → Option (List ℕ) → Call
  write_bool : Bool → Option (List ℕ) → Call
  begin_object begin_array : Option (List ℕ) → Call
  end_object end_array : Call

-- `value ? "true" : "false"`
unfoldable pub bool_text : Bool → List ℕ
bool_text true = true_text
bool_text false = false_text

module _ (number2str : ℕ → List ℕ) where
  unfoldable pub run_call : LuaJsonWriter → Call → LuaJsonWriter
  run_call self (Call.write_number num name) =
      let w = write_common self name in
      record w { writer = buffered_writer_append_string w.writer (number2str num) }
  run_call self (Call.write_bool value name) =
      let w = write_common self name in
      record w { writer = buffered_writer_append_string w.writer (bool_text value) }
  run_call self (Call.write_string value name) =
      let w = write_common self name in record w { writer = write_escaped_string w.writer value }
  run_call self (Call.begin_object name) =
      let w = write_common self name in
      record w { first_elem = true; writer = buffered_writer_append w.writer b'{' }
  run_call self Call.end_object = record self {
    first_elem = false;
    writer = buffered_writer_append self.writer b'}';
  }
  run_call self (Call.begin_array name) =
      let w = write_common self name in
      record w { first_elem = true; writer = buffered_writer_append w.writer b'[' }
  run_call self Call.end_array = record self {
    first_elem = false;
    writer = buffered_writer_append self.writer b']';
  }

  -- The calls of a script, one after the other.
  unfoldable pub run_calls : LuaJsonWriter → List Call → LuaJsonWriter
  run_calls self [] = self
  run_calls self (c ∷ cs) = run_calls (run_call self c) cs

-- LuaJsonGc: the file, when the writer is closed.
unfoldable pub written : LuaJsonWriter → List ℕ
unfolding buffered_writer_flush
written self = (buffered_writer_flush self.writer).file

-- The calls that write a value under a name; there is none for null.
unfoldable mutual
  pub calls_of : Option (List ℕ) → JsonValue → List Call
  calls_of name JsonValue.null = []
  calls_of name (JsonValue.boolean b) = Call.write_bool b name ∷ []
  calls_of name (JsonValue.object fs) =
      Call.begin_object name ∷ (calls_of_fields fs ++ (Call.end_object ∷ []))
  calls_of name (JsonValue.array vs) =
      Call.begin_array name ∷ (calls_of_items vs ++ (Call.end_array ∷ []))
  calls_of name (JsonValue.string s) = Call.write_string s name ∷ []
  calls_of name (JsonValue.number n) = Call.write_number n name ∷ []

  pub calls_of_items : Items → List Call
  calls_of_items Items.no_items = []
  calls_of_items (Items.item v vs) = calls_of none v ++ calls_of_items vs

  pub calls_of_fields : Fields → List Call
  calls_of_fields Fields.no_fields = []
  calls_of_fields (Fields.field k v fs) = calls_of (some k) v ++ calls_of_fields fs
