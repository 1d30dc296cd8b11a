-- ===== src/Json/RoundTrip.antt =====
-- What the writer has written, the parser reads back.
use tundra.Json.{JsonValue, Items, Fields}
use tundra.Json.Lexer.{Clib, JsonLexerState, fetch_next, peek, next_lexeme}
use tundra.Json.Parser.{Parsed, is_end_array, parse_value, parse_fields, parse_items, json_parse}
use tundra.Json.Writer.{bool_text, writer_new, run_calls, written, calls_of}
use tundra.Json.Text.{
  quoted, name_text, value_text, items_text, fields_text, Clean, Writable, WritableItems,
  WritableFields,
}
use tundra.Json.Reading.{
  CLocale, Ends, NumberReads, fresh, fetch_quoted, fetch_number, fetch_bool, fetch-Punct, Punct,
}
use tundra.Json.Written.{written-value_text}
use tundra.Prelude.{
  ℕ, zero, suc, ◌+◌, ◌*◌, ◌<◌, Bool, true, false, not, ◌≡◌, refl, sym, ap, ◌∙◌, inl, inr, List, [],
  ◌∷◌, ◌++◌, append_assoc, append-nil, none, some, length, length-append, arith,
}

module _ (lib : Clib) (loc : CLocale lib) (num : ℕ → List ℕ) where
  pub peeked :
      (f : ℕ) (t : List ℕ) (line : ℕ)
      → parse_value lib f (peek lib (fresh t line)).1 ≡ parse_value lib f (fresh t line)
  unfolding parse_value peek
  peeked zero t line = refl
  peeked (suc f) t line = refl

  abbrev pub Reads : ℕ → Type 0
  Reads n = NumberReads lib num n

  items-Ends : (vs : Items) (rest : List ℕ) → Ends (items_text num false vs ++ (b']' ∷ rest))
  unfolding items_text
  items-Ends Items.no_items rest = inr (inl refl)
  items-Ends (Items.item v vs) rest = inl refl

  fields-Ends : (fs : Fields) (rest : List ℕ) → Ends (fields_text num false fs ++ (b'}' ∷ rest))
  unfolding fields_text
  fields-Ends Fields.no_fields rest = inr (inr refl)
  fields-Ends (Fields.field k v fs) rest = inl refl

  pub value_text_pos : (v : JsonValue) → Writable Reads v → 0 < length (value_text num v)
  unfolding value_text Writable bool_text
  value_text_pos JsonValue.null h = absurd h
  value_text_pos (JsonValue.boolean true) h = omega arith
  value_text_pos (JsonValue.boolean false) h = omega arith
  value_text_pos (JsonValue.object fs) h = omega arith
  value_text_pos (JsonValue.array vs) h = omega arith
  value_text_pos (JsonValue.string s) h = omega arith
  value_text_pos (JsonValue.number n) h = rw h.text (omega arith)

  -- The lexeme at which a value begins does not close an array.
  pub begins_value :
      (v : JsonValue) (rest : List ℕ) (line : ℕ)
      → Writable Reads v
      → Ends rest
      → is_end_array (fetch_next lib (fresh (value_text num v ++ rest) line)).0 ≡ false
  unfolding value_text Writable is_end_array
  begins_value JsonValue.null rest line h e = absurd h
  begins_value (JsonValue.boolean b) rest line h e = rw (fetch_bool lib loc b rest line e) refl
  begins_value (JsonValue.object fs) rest line h e =
      rw
        (fetch-Punct lib loc ((fields_text num true fs ++ (b'}' ∷ [])) ++ rest) line
          Punct.open_object)
        refl
  begins_value (JsonValue.array vs) rest line h e =
      rw
        (fetch-Punct lib loc ((items_text num true vs ++ (b']' ∷ [])) ++ rest) line
          Punct.open_array)
        refl
  begins_value (JsonValue.string s) rest line h e = rw (fetch_quoted lib loc s rest line h) refl
  begins_value (JsonValue.number n) rest line h e =
      rw (fetch_number lib loc num n rest line h e) refl

  key_split :
      (k t more r : List ℕ)
      → (name_text (some k) ++ (t ++ more)) ++ r ≡ quoted k ++ (b':' ∷ (t ++ (more ++ r)))
  key_split k t more r = simp append_assoc

  -- A key, the colon, the value and the rest of the object.
  pub keyed :
      (f : ℕ) (k t behind : List ℕ) (line : ℕ) (seen_comma : Bool) {v : JsonValue} {fs : Fields}
      {st : JsonLexerState}
      → Clean k
      → parse_value lib f (fresh (t ++ behind) line) ≡ Parsed.done v (fresh behind line)
      → parse_fields lib f true false (fresh behind line) ≡ Parsed.done fs st
      → parse_fields lib (suc f) false seen_comma (fresh (quoted k ++ (b':' ∷ (t ++ behind))) line)
        ≡ Parsed.done (Fields.field k v fs) st
  unfolding parse_fields next_lexeme
  keyed f k t behind line seen_comma h one all =
      rw
        (
          fetch_quoted lib loc k (b':' ∷ (t ++ behind)) line h,
          fetch-Punct lib loc (t ++ behind) line Punct.colon,
          one,
          all,
        )
        refl

  mutual
    unfolding value_text Writable parse_value peek next_lexeme

    pub value-read :
        (v : JsonValue) (rest : List ℕ) (line f : ℕ)
        → Writable Reads v
        → Ends rest
        → 2 * length (value_text num v) < f
        → parse_value lib f (fresh (value_text num v ++ rest) line)
          ≡ Parsed.done v (fresh rest line)
    value-read JsonValue.null rest line f h e enough = absurd h
    value-read v rest line zero h e enough = absurd (omega arith)
    value-read (JsonValue.boolean b) rest line (suc f) h e enough =
        rw (fetch_bool lib loc b rest line e) refl
    value-read (JsonValue.string s) rest line (suc f) h e enough =
        rw (fetch_quoted lib loc s rest line h) refl
    value-read (JsonValue.number n) rest line (suc f) h e enough =
        rw (fetch_number lib loc num n rest line h e) refl
    value-read (JsonValue.array vs) rest line (suc f) h e enough =
        let t = items_text num true vs in
        let len = length-append t (b']' ∷ []) in
        let split = append_assoc t (b']' ∷ []) rest in
        rw
          (
            fetch-Punct lib loc ((t ++ (b']' ∷ [])) ++ rest) line Punct.open_array,
            split,
            items-read vs true rest line f h (omega arith),
          )
          refl
    value-read (JsonValue.object fs) rest line (suc f) h e enough =
        let t = fields_text num true fs in
        let len = length-append t (b'}' ∷ []) in
        let split = append_assoc t (b'}' ∷ []) rest in
        rw
          (
            fetch-Punct lib loc ((t ++ (b'}' ∷ [])) ++ rest) line Punct.open_object,
            split,
            fields-read fs true rest line f h (omega arith),
          )
          refl

    items-read :
        (vs : Items) (first : Bool) (rest : List ℕ) (line f : ℕ)
        → WritableItems Reads vs
        → 2 * length (items_text num first vs) + 1 < f
        → parse_items lib f (not first) (fresh (items_text num first vs ++ (b']' ∷ rest)) line)
          ≡ Parsed.done vs (fresh rest line)
    items-read vs first rest line zero h enough = absurd (omega arith)
    items-read Items.no_items first rest line (suc f) h enough =
        rw (fetch-Punct lib loc rest line Punct.close_array) refl
    items-read (Items.item v vs) true rest line (suc f) h enough =
        let t = value_text num v in
        let more = items_text num false vs in
        let behind = more ++ (b']' ∷ rest) in
        let e = items-Ends vs rest in
        let len = length-append t more in
        let pos = value_text_pos v h.0 in
        let begins = begins_value v behind line h.0 e in
        let one = peeked f (t ++ behind) line ∙ value-read v behind line f h.0 e (omega arith) in
        let all = items-read vs false rest line f h.1 (omega arith) in
        rw (append_assoc t more (b']' ∷ rest), begins, one, all) refl
    items-read (Items.item v vs) false rest line (suc f) h enough =
        let t = value_text num v in
        let more = items_text num false vs in
        let behind = more ++ (b']' ∷ rest) in
        let e = items-Ends vs rest in
        let len = length-append t more in
        let pos = value_text_pos v h.0 in
        let comma = fetch-Punct lib loc (t ++ behind) line Punct.comma in
        let one = value-read v behind line f h.0 e (omega arith) in
        let all = items-read vs false rest line f h.1 (omega arith) in
        rw (append_assoc t more (b']' ∷ rest), comma, one, all) refl

    fields-read :
        (fs : Fields) (first : Bool) (rest : List ℕ) (line f : ℕ)
        → WritableFields Reads fs
        → 2 * length (fields_text num first fs) + 1 < f
        → parse_fields lib f
            (not first)
            false
            (fresh (fields_text num first fs ++ (b'}' ∷ rest)) line)
          ≡ Parsed.done fs (fresh rest line)
    fields-read fs first rest line zero h enough = absurd (omega arith)
    fields-read Fields.no_fields first rest line (suc f) h enough =
        rw (fetch-Punct lib loc rest line Punct.close_object) refl
    fields-read (Fields.field k v fs) true rest line (suc f) h enough =
        let t = value_text num v in
        let more = fields_text num false fs in
        let behind = more ++ (b'}' ∷ rest) in
        let e = fields-Ends fs rest in
        let len1 = length-append (name_text (some k)) (t ++ more) in
        let len2 = length-append t more in
        let pos = value_text_pos v h.1 in
        let one = value-read v behind line f h.1 e (omega arith) in
        let all = fields-read fs false rest line f h.2 (omega arith) in
        ap (λ l. parse_fields lib (suc f) false false (fresh l line))
          (key_split k t more (b'}' ∷ rest))
        ∙ keyed f k t behind line false h.0 one all
    fields-read (Fields.field k v fs) false rest line (suc zero) h enough = absurd (omega arith)
    fields-read (Fields.field k v fs) false rest line (suc (suc f)) h enough =
        let t = value_text num v in
        let more = fields_text num false fs in
        let behind = more ++ (b'}' ∷ rest) in
        let e = fields-Ends fs rest in
        let len1 = length-append (name_text (some k)) (t ++ more) in
        let len2 = length-append t more in
        let pos = value_text_pos v h.1 in
        let one = value-read v behind line f h.1 e (omega arith) in
        let all = fields-read fs false rest line f h.2 (omega arith) in
        let key = (name_text (some k) ++ (t ++ more)) ++ (b'}' ∷ rest) in
        rw (fetch-Punct lib loc key line Punct.comma) (
          ap (λ l. parse_fields lib (suc f) false true (fresh l line))
            (key_split k t more (b'}' ∷ rest))
          ∙ keyed f k t behind line true h.0 one all)

  -- The file that a script has written reads back as the value that it wrote, in the C locale, where
  -- the value holds no null, its texts are of ASCII without a zero or a vertical tab, and each number's
  -- text is read by strtod as that number before a comma or a closing bracket.
  pub json_parse-written :
      (v : JsonValue)
      → Writable Reads v
      → json_parse lib (written (run_calls num writer_new (calls_of none v)))
        ≡ Parsed.done v (fresh [] 1)
  unfolding json_parse next_lexeme
  json_parse-written v h =
      let t = value_text num v in
      let fuel = 2 * length t + 2 in
      let read =
        ap (λ l. parse_value lib fuel (fresh l 1)) (sym (append-nil t))
        ∙ value-read v [] 1 fuel h tt (omega arith) in
      ap (json_parse lib) (written-value_text num Reads v h) ∙ rw read refl
