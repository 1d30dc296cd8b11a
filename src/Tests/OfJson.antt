-- ===== src/Tests/OfJson.antt =====
-- `{"a":[7,true],"b":"x"}`, with the C library of the C locale and a strtod of digits only.
use tundra.Json.{JsonValue, Items, Fields, find, elem, get_number, get_string, get_boolean}
use tundra.Json.Lexer.{Clib, peek, next_lexeme}
use tundra.Json.Parser.{Parsed, Message, json_parse}
use tundra.Json.Writer.{writer_new, run_calls, written, Call, calls_of}
use tundra.Json.Fuel.{EndsInside}
use tundra.Json.Text.{quoted, value_text, Writable}
use tundra.Json.Written.{written-value_text}
use tundra.Json.Reading.{CLocale, Ends, NumberReads, fresh}
use tundra.Json.Termination.{json_parse_terminates}
use tundra.Json.RoundTrip.{json_parse-written}
use tundra.Json.Refused.{json_parse_vertical_tab, trailing_comma}
use tundra.Prelude.{
  ℕ, ◌+◌, ◌-◌, ◌*◌, ◌≤◌, Bool, true, ◌||◌, ◌&&◌, leb, ◌==◌, ◌≡◌, ◌≢◌, refl, inl, inr, List, [], ◌∷◌,
  ◌++◌, none, some, if◌then◌else◌, ◌>>=◌, length, arith,
}

abbrev is_digit : ℕ → Bool
is_digit c = leb b'0' c && leb c b'9'

abbrev digits : List ℕ → ℕ → ℕ × List ℕ
digits [] value = (value, [])
digits (c ∷ s) value =
    let rest = digits s (value * 10 + (c - b'0')) in if is_digit c then rest else (value, c ∷ s)

abbrev c_lib : Clib
c_lib = record {
  isspace = λ c. c == 32 || (leb 9 c && leb c 13);
  isalnum = λ c. is_digit c || (leb b'a' c && leb c b'z') || (leb b'A' c && leb c b'Z');
  isxdigit = λ c. is_digit c || (leb b'a' c && leb c b'f') || (leb b'A' c && leb c b'F');
  tolower = λ c. if leb b'A' c && leb c b'Z' then c + 32 else c;
  strtod = λ s. digits s 0;
}

abbrev digit_text : ℕ → List ℕ
digit_text n = (b'0' + n) ∷ []

digits-EndsInside : (s : List ℕ) (value : ℕ) → length (digits s value).1 ≤ length s
digits-EndsInside [] value = omega arith
digits-EndsInside (c ∷ s) value = ground (arith, digits-EndsInside s (value * 10 + (c - b'0')))

c_lib-EndsInside : EndsInside c_lib
c_lib-EndsInside s = digits-EndsInside s 0

c_locale : CLocale c_lib
c_locale = record {
  graph_not_space = λ c lo hi. ground arith;
  letter_alnum = λ c lo hi. ground arith;
  comma_not_alnum = refl;
  bracket_not_alnum = refl;
  brace_not_alnum = refl;
}

digits_end : (value : ℕ) (rest : List ℕ) → Ends rest → digits rest value ≡ (value, rest)
digits_end value [] e = refl
digits_end value (c ∷ s) (inl e) = rw e refl
digits_end value (c ∷ s) (inr (inl e)) = rw e refl
digits_end value (c ∷ s) (inr (inr e)) = rw e refl

seven_reads : NumberReads c_lib digit_text 7
seven_reads = record {
  first = b'7';
  others = [];
  text = refl;
  number_like = inr (omega arith, omega arith);
  reads_back = λ rest e. digits_end 7 rest e;
}

abbrev document : JsonValue
document = JsonValue.object (
    Fields.field (b'a' ∷ [])
      (JsonValue.array
        (Items.item (JsonValue.number 7) (Items.item (JsonValue.boolean true) Items.no_items)))
      (Fields.field (b'b' ∷ []) (JsonValue.string (b'x' ∷ 10 ∷ [])) Fields.no_fields))

-- `{"a":[7,true],"b":"x\n"}`
abbrev document_text : List ℕ
document_text =
    b'{' ∷ 34 ∷ b'a' ∷ 34 ∷ b':' ∷ b'[' ∷ b'7' ∷ b',' ∷ b't' ∷ b'r' ∷ b'u' ∷ b'e' ∷ b']' ∷ b',' ∷ 34
    ∷ b'b' ∷ 34 ∷ b':' ∷ 34 ∷ b'x' ∷ 92 ∷ b'n' ∷ 34 ∷ b'}' ∷ []

document-Writable : Writable (NumberReads c_lib digit_text) document
unfolding Writable
document-Writable = (omega arith, (seven_reads, (tt, tt)), (omega arith, omega arith, tt))

parses : json_parse c_lib document_text ≡ Parsed.done document (fresh [] 1)
unfolding json_parse peek next_lexeme
parses = refl

finds :
    (find document (b'b' ∷ []) ≡ some (JsonValue.string (b'x' ∷ 10 ∷ [])))
    × (find document (b'c' ∷ []) ≡ none)
    × ((find document (b'b' ∷ []) >>= get_string) ≡ some (b'x' ∷ 10 ∷ []))
    × ((find document (b'b' ∷ []) >>= get_number) ≡ none)
    × ((find document (b'a' ∷ []) >>= (λ v. elem v 0) >>= get_number) ≡ some 7)
    × ((find document (b'a' ∷ []) >>= (λ v. elem v 1) >>= get_boolean) ≡ some true)
    × ((find document (b'a' ∷ []) >>= (λ v. elem v 2)) ≡ none)
unfolding find elem get_string get_number get_boolean
finds = (refl, refl, refl, refl, refl, refl, refl)

-- `{,}`, `[1 2]`, `{"a" 1}` and `7 7`
refuses :
    (json_parse c_lib (b'{' ∷ b',' ∷ b'}' ∷ []) ≡ Parsed.json_error 1 Message.expected_key_name)
    × (json_parse c_lib (b'[' ∷ b'1' ∷ 32 ∷ b'2' ∷ b']' ∷ [])
        ≡ Parsed.json_error 1 Message.expected_comma)
    × (json_parse c_lib (b'{' ∷ 34 ∷ b'a' ∷ 34 ∷ 32 ∷ b'1' ∷ b'}' ∷ [])
        ≡ Parsed.json_error 1 Message.expected_colon)
    × (json_parse c_lib (b'7' ∷ 10 ∷ b'7' ∷ []) ≡ Parsed.json_error 2 Message.data_after_document)
unfolding json_parse peek next_lexeme
refuses = (refl, refl, refl, refl)

written-value_text_example :
    written (run_calls digit_text writer_new (calls_of none document))
    ≡ value_text digit_text document
written-value_text_example =
    written-value_text digit_text (NumberReads c_lib digit_text) document document-Writable

json_parse-written_example :
    json_parse c_lib (written (run_calls digit_text writer_new (calls_of none document)))
    ≡ Parsed.done document (fresh [] 1)
json_parse-written_example = json_parse-written c_lib c_locale digit_text document document-Writable

json_parse_terminates_example : json_parse c_lib document_text ≢ Parsed.out_of_fuel
json_parse_terminates_example = json_parse_terminates c_lib c_lib-EndsInside document_text

json_parse_vertical_tab_example :
    json_parse c_lib
      (written (run_calls digit_text writer_new (Call.write_string (b'x' ∷ 11 ∷ []) none ∷ [])))
    ≡ Parsed.json_error 1 Message.invalid_document
json_parse_vertical_tab_example =
    json_parse_vertical_tab c_lib c_locale digit_text (b'x' ∷ []) []
      (omega arith, omega arith, omega arith, tt)

trailing_comma_example :
    (json_parse c_lib (
        b'{'
        ∷ (quoted (b'a' ∷ []) ++ (b':' ∷ (value_text digit_text document ++ (b',' ∷ b'}' ∷ [])))))
      ≡ Parsed.done
          (JsonValue.object (Fields.field (b'a' ∷ []) document Fields.no_fields))
          (fresh [] 1))
    × (json_parse c_lib (b'[' ∷ (value_text digit_text document ++ (b',' ∷ b']' ∷ [])))
        ≡ Parsed.json_error 1 Message.invalid_document)
trailing_comma_example =
    trailing_comma c_lib c_locale digit_text (b'a' ∷ []) document (omega arith) document-Writable
