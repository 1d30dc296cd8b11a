-- ===== src/Json/Refused.antt =====
-- Where the reader and the writer differ, and what a trailing comma does.
use tundra.Json.{JsonValue, Fields}
use tundra.Json.Lexer.{
  Clib, JsonLexeme, Mode, decode, lexed_string, fetch_at, peek, next_lexeme, fetch_next,
}
use tundra.Json.Parser.{Parsed, Message, parse_value, parse_fields, json_parse}
use tundra.Json.Writer.{
  escape_table, writer_new, run_call, run_calls, written, Call, buffered_writer_flush, write_common,
  write_comma, write_name,
}
use tundra.Json.Text.{escaped_char, escaped, quoted, value_text, Clean, Writable}
use tundra.Json.Written.{contents-escaped_string}
use tundra.Json.Reading.{CLocale, NumberReads, fresh, decode_char, fetch_graph, fetch-Punct, Punct}
use tundra.Json.RoundTrip.{begins_value, value-read, keyed, peeked}
use tundra.Prelude.{
  ℕ, zero, suc, ◌+◌, ◌*◌, ◌-◌, ◌≤◌, ◌<◌, true, false, ◌≡◌, refl, sym, ap, ◌∙◌, inl, List, [], ◌∷◌,
  ◌++◌, append_assoc, none, some, length, length-append, ◌>>=◌, arith,
}

escaped-append : (s t : List ℕ) → escaped (s ++ t) ≡ escaped s ++ escaped t
escaped-append [] t = refl
escaped-append (c ∷ s) t =
    ap (λ l. escaped_char c ++ l) (escaped-append s t)
    ∙ sym (append_assoc (escaped_char c) (escaped s) (escaped t))

module _ (lib : Clib) where
  decode_vertical_tab :
      (s t : List ℕ) → Clean s → decode lib Mode.plain (escaped s ++ (92 ∷ b'v' ∷ t)) ≡ none
  unfolding decode
  decode_vertical_tab [] t h = refl
  decode_vertical_tab (c ∷ s) t h =
      ap (decode lib Mode.plain) (append_assoc (escaped_char c) (escaped s) (92 ∷ b'v' ∷ t))
      ∙ decode_char lib c (escaped s ++ (92 ∷ b'v' ∷ t)) h.1
      ∙ ap (λ m. m >>= (λ (text, rest). some (c ∷ text, rest))) (decode_vertical_tab s t h.3)

module _ (lib : Clib) (loc : CLocale lib) (num : ℕ → List ℕ) where
  fetch_vertical_tab :
      (s t : List ℕ)
      → Clean s
      → fetch_next lib (fresh (quoted (s ++ (11 ∷ t))) 1)
        ≡ (JsonLexeme.error, fresh (quoted (s ++ (11 ∷ t))) 1)
  unfolding fetch_at escape_table
  fetch_vertical_tab s t h =
      let start = fresh (quoted (s ++ (11 ∷ t))) 1 in
      let split =
        ap (λ l. l ++ (34 ∷ [])) (escaped-append s (11 ∷ t))
        ∙ append_assoc (escaped s) (92 ∷ b'v' ∷ escaped t) (34 ∷ []) in
      fetch_graph lib loc 34 (escaped (s ++ (11 ∷ t)) ++ (34 ∷ [])) 1 (omega arith) (omega arith)
      ∙ ap (lexed_string lib start)
          (ap (decode lib Mode.plain) split ∙ decode_vertical_tab lib s (escaped t ++ (34 ∷ [])) h)

  parse_vertical_tab :
      (s t : List ℕ) (fuel : ℕ)
      → Clean s
      → 0 < fuel
      → parse_value lib fuel (fresh (quoted (s ++ (11 ∷ t))) 1)
        ≡ Parsed.json_error 1 Message.invalid_document
  unfolding parse_value peek
  parse_vertical_tab s t zero h pos = absurd (omega arith)
  parse_vertical_tab s t (suc fuel) h pos = rw (fetch_vertical_tab s t h) refl

  -- The text of a string with a vertical tab, which the writer writes as `\v`, is no document for the
  -- reader in the C locale, where the string before the tab is of ASCII without a zero or another
  -- vertical tab.
  pub json_parse_vertical_tab :
      (s t : List ℕ)
      → Clean s
      → json_parse lib
          (written (run_calls num writer_new (Call.write_string (s ++ (11 ∷ t)) none ∷ [])))
        ≡ Parsed.json_error 1 Message.invalid_document
  unfolding json_parse written run_calls run_call writer_new write_common write_comma write_name
      buffered_writer_flush
  json_parse_vertical_tab s t h =
      let text = s ++ (11 ∷ t) in
      let file : written (run_calls num writer_new (Call.write_string text none ∷ []))
          ≡ quoted text =
        contents-escaped_string (record { buffer = []; file = [] }) text in
      ap (json_parse lib) file
      ∙ (let read = parse_vertical_tab s t (2 * length (quoted text) + 2) h (omega arith) in
          rw read refl)

  open_pair :
      (f : ℕ) (k t : List ℕ) {v : JsonValue}
      → Clean k
      → parse_value lib (suc (suc f)) (fresh (t ++ (b',' ∷ b'}' ∷ [])) 1)
        ≡ Parsed.done v (fresh (b',' ∷ b'}' ∷ []) 1)
      → parse_value lib
          (suc (suc (suc (suc f))))
          (fresh (b'{' ∷ (quoted k ++ (b':' ∷ (t ++ (b',' ∷ b'}' ∷ []))))) 1)
        ≡ Parsed.done (JsonValue.object (Fields.field k v Fields.no_fields)) (fresh [] 1)
  unfolding parse_value peek next_lexeme
  open_pair f k t h one =
      let behind : List ℕ = b',' ∷ b'}' ∷ [] in
      let comma = fetch-Punct lib loc (b'}' ∷ []) 1 Punct.comma in
      let close = fetch-Punct lib loc [] 1 Punct.close_object in
      let all : parse_fields lib (suc (suc f)) true false (fresh behind 1)
          ≡ Parsed.done Fields.no_fields (fresh [] 1) =
        rw (comma, close) refl in
      rw
        (
          fetch-Punct lib loc (quoted k ++ (b':' ∷ (t ++ behind))) 1 Punct.open_object,
          keyed lib loc num (suc (suc f)) k t behind 1 false h one all,
        )
        refl

  open_item :
      (f : ℕ) (v : JsonValue)
      → Writable (NumberReads lib num) v
      → 2 * length (value_text num v) < suc (suc f)
      → parse_value lib
          (suc (suc (suc (suc f))))
          (fresh (b'[' ∷ (value_text num v ++ (b',' ∷ b']' ∷ []))) 1)
        ≡ Parsed.json_error 1 Message.invalid_document
  unfolding parse_value peek next_lexeme
  open_item f v h enough =
      let t = value_text num v in
      let behind : List ℕ = b',' ∷ b']' ∷ [] in
      let begins = begins_value lib loc num v behind 1 h (inl refl) in
      let one =
        peeked lib loc num (suc (suc f)) (t ++ behind) 1
        ∙ value-read lib loc num v behind 1 (suc (suc f)) h (inl refl) enough in
      let comma = fetch-Punct lib loc (b']' ∷ []) 1 Punct.comma in
      let close = fetch-Punct lib loc [] 1 Punct.close_array in
      rw (fetch-Punct lib loc (t ++ behind) 1 Punct.open_array, begins, one, comma, close) refl

  four_more : (n : ℕ) → 4 ≤ n → n ≡ suc (suc (suc (suc (n - 4))))
  four_more n h = omega arith

  -- An object with a comma behind its only value, which is no null, is read without the comma; an
  -- array with one is an error, in the C locale, where the texts in them are of ASCII without a zero
  -- or a vertical tab, and strtod reads each number's text as that number.
  pub trailing_comma :
      (k : List ℕ) (v : JsonValue)
      → Clean k
      → Writable (NumberReads lib num) v
      → (json_parse lib (b'{' ∷ (quoted k ++ (b':' ∷ (value_text num v ++ (b',' ∷ b'}' ∷ [])))))
          ≡ Parsed.done (JsonValue.object (Fields.field k v Fields.no_fields)) (fresh [] 1))
        × (json_parse lib (b'[' ∷ (value_text num v ++ (b',' ∷ b']' ∷ [])))
            ≡ Parsed.json_error 1 Message.invalid_document)
  unfolding json_parse next_lexeme
  trailing_comma k v hk hv =
      let t = value_text num v in
      let object_end : List ℕ = b',' ∷ b'}' ∷ [] in
      let array_end : List ℕ = b',' ∷ b']' ∷ [] in
      let object_text = b'{' ∷ (quoted k ++ (b':' ∷ (t ++ object_end))) in
      let array_text = b'[' ∷ (t ++ array_end) in
      let len1 = length-append t object_end in
      let len2 = length-append (quoted k) (b':' ∷ (t ++ object_end)) in
      let len3 = length-append t array_end in
      let fuel1 = 2 * length object_text + 2 in
      let fuel2 = 2 * length array_text + 2 in
      let one =
        value-read lib loc num v object_end 1 (suc (suc (fuel1 - 4))) hv (inl refl) (omega arith) in
      let object =
        ap (λ f. parse_value lib f (fresh object_text 1)) (four_more fuel1 (omega arith))
        ∙ open_pair (fuel1 - 4) k t hk one in
      let array =
        ap (λ f. parse_value lib f (fresh array_text 1)) (four_more fuel2 (omega arith))
        ∙ open_item (fuel2 - 4) v hv (omega arith) in
      (rw object refl, rw array refl)
