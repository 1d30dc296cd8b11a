-- ===== src/Json/Written.antt =====
-- What a script's calls write is the text of the value, whatever of it is still in the buffer.
use tundra.Json.{JsonValue, Items, Fields}
use tundra.Json.Writer.{
  BufferedWriter, writer_buffer_size, buffered_writer_flush, buffered_writer_append,
  buffered_writer_append_string, escape_table, write_escaped_char, write_escaped_loop,
  write_escaped_string, LuaJsonWriter, writer_new, write_comma, write_name, write_common, Call,
  bool_text, run_call, run_calls, written, calls_of, calls_of_items, calls_of_fields,
}
use tundra.Json.Text.{
  escaped_char, escaped, quoted, separator, name_text, value_text, items_text, fields_text,
  Writable, WritableItems, WritableFields,
}
use tundra.Prelude.{
  ℕ, true, false, ◌≡◌, refl, sym, ap, ◌∙◌, inl, inr, List, [], ◌∷◌, ◌++◌, append_assoc, append-nil,
  Option, none, some, ◌==◌, length, Bool-cases,
}

-- What has been written, to the file or the buffer.
abbrev pub contents : BufferedWriter → List ℕ
contents w = w.file ++ w.buffer

contents-append :
    (w : BufferedWriter) (ch : ℕ) → contents (buffered_writer_append w ch) ≡ contents w ++ (ch ∷ [])
unfolding buffered_writer_append buffered_writer_flush
contents-append w ch = elim (Bool-cases (length w.buffer == writer_buffer_size)) [
  | inl e ↦ rw e refl
  | inr e ↦ rw e (sym (append_assoc w.file w.buffer (ch ∷ [])))
]

contents-append_string :
    (w : BufferedWriter) (str : List ℕ)
    → contents (buffered_writer_append_string w str) ≡ contents w ++ str
unfolding buffered_writer_append_string
contents-append_string w [] = sym (append-nil (contents w))
contents-append_string w (c ∷ str) =
    contents-append_string (buffered_writer_append w c) str
    ∙ ap (λ l. l ++ str) (contents-append w c)
    ∙ append_assoc (contents w) (c ∷ []) str

contents-escaped_char :
    (w : BufferedWriter) (c : ℕ) → contents (write_escaped_char w c) ≡ contents w ++ escaped_char c
unfolding write_escaped_char
contents-escaped_char w c = elim (Bool-cases (escape_table c == 0)) [
  | inl e ↦ rw e (contents-append w c)
  | inr e ↦ rw e (
      contents-append (buffered_writer_append w 92) (escape_table c)
      ∙ ap (λ l. l ++ (escape_table c ∷ [])) (contents-append w 92)
      ∙ append_assoc (contents w) (92 ∷ []) (escape_table c ∷ []))
]

contents-escaped_loop :
    (w : BufferedWriter) (str : List ℕ)
    → contents (write_escaped_loop w str) ≡ contents w ++ escaped str
unfolding write_escaped_loop
contents-escaped_loop w [] = sym (append-nil (contents w))
contents-escaped_loop w (c ∷ str) =
    contents-escaped_loop (write_escaped_char w c) str
    ∙ ap (λ l. l ++ escaped str) (contents-escaped_char w c)
    ∙ append_assoc (contents w) (escaped_char c) (escaped str)

pub contents-escaped_string :
    (w : BufferedWriter) (str : List ℕ)
    → contents (write_escaped_string w str) ≡ contents w ++ quoted str
unfolding write_escaped_string
contents-escaped_string w str =
    let w1 = buffered_writer_append w 34 in
    simp (
      contents-append (write_escaped_loop w1 str) 34,
      contents-escaped_loop w1 str,
      contents-append w 34,
      append_assoc,
    )

contents-common :
    (w : LuaJsonWriter) (name : Option (List ℕ))
    → (contents (write_common w name).writer
        ≡ contents w.writer ++ (separator w.first_elem ++ name_text name))
      × ((write_common w name).first_elem ≡ false)
unfolding write_common write_comma write_name
contents-common w none = elim (Bool-cases w.first_elem) [
  | inl e ↦ (rw e (sym (append-nil (contents w.writer))), rw e refl)
  | inr e ↦ (rw e (contents-append w.writer b','), rw e refl)
]
contents-common w (some k) = elim (Bool-cases w.first_elem) [
  | inl e ↦ (
    rw e (
        simp (
          contents-append (write_escaped_string w.writer k) b':',
          contents-escaped_string w.writer k,
          append_assoc,
        )),
    rw e refl,
  )
  | inr e ↦
      let w1 = buffered_writer_append w.writer b',' in
      (
        rw e (
            simp (
              contents-append (write_escaped_string w1 k) b':',
              contents-escaped_string w1 k,
              contents-append w.writer b',',
              append_assoc,
            )),
        rw e refl,
      )
]

module _ (num : ℕ → List ℕ) (Reads : ℕ → Type 0) where
  run_calls-append :
      (w : LuaJsonWriter) (a b : List Call)
      → run_calls num w (a ++ b) ≡ run_calls num (run_calls num w a) b
  unfolding run_calls
  run_calls-append w [] b = refl
  run_calls-append w (c ∷ a) b = run_calls-append (run_call num w c) a b

  -- The text behind what was there, the comma and the name.
  abbrev Adds : LuaJsonWriter → Option (List ℕ) → List ℕ → LuaJsonWriter → Type 0
  Adds w name text r =
      (contents r.writer
        ≡ contents w.writer ++ (separator w.first_elem ++ (name_text name ++ text)))
      × (r.first_elem ≡ false)

  -- What a call writes behind the comma and the name.
  adds :
      (w : LuaJsonWriter) (name : Option (List ℕ)) (text : List ℕ) (r : List ℕ)
      → r ≡ contents (write_common w name).writer ++ text
      → r ≡ contents w.writer ++ (separator w.first_elem ++ (name_text name ++ text))
  adds w name text r e =
      e
      ∙ ap (λ l. l ++ text) (contents-common w name).0
      ∙ append_assoc (contents w.writer) (separator w.first_elem ++ name_text name) text
      ∙ ap (λ l. contents w.writer ++ l)
          (append_assoc (separator w.first_elem) (name_text name) text)

  mutual
    unfolding run_call run_calls calls_of value_text Writable

    calls_of-Adds :
        (v : JsonValue) (w : LuaJsonWriter) (name : Option (List ℕ))
        → Writable Reads v
        → Adds w name (value_text num v) (run_calls num w (calls_of name v))
    calls_of-Adds JsonValue.null w name h = absurd h
    calls_of-Adds (JsonValue.boolean b) w name h =
        let c = write_common w name in
        (
          adds w name (bool_text b) _ (contents-append_string c.writer (bool_text b)),
          (contents-common w name).1,
        )
    calls_of-Adds (JsonValue.string s) w name h =
        let c = write_common w name in
        (adds w name (quoted s) _ (contents-escaped_string c.writer s), (contents-common w name).1)
    calls_of-Adds (JsonValue.number n) w name h =
        let c = write_common w name in
        (
          adds w name (num n) _ (contents-append_string c.writer (num n)),
          (contents-common w name).1,
        )
    calls_of-Adds (JsonValue.array vs) w name h =
        let c = write_common w name in
        let w1 = record c { first_elem = true; writer = buffered_writer_append c.writer b'[' } in
        let w2 = run_calls num w1 (calls_of_items vs) in
        let inner = items-text vs w1 h in
        let e = run_calls-append w1 (calls_of_items vs) (Call.end_array ∷ []) in
        let all : contents (buffered_writer_append w2.writer b']')
            ≡ contents c.writer ++ (b'[' ∷ (items_text num true vs ++ (b']' ∷ []))) =
          contents-append w2.writer b']'
          ∙ ap (λ l. l ++ (b']' ∷ []))
              (inner ∙ ap (λ l. l ++ items_text num true vs) (contents-append c.writer b'['))
          ∙ simp append_assoc in
        rw e (adds w name _ _ all, refl)
    calls_of-Adds (JsonValue.object fs) w name h =
        let c = write_common w name in
        let w1 = record c { first_elem = true; writer = buffered_writer_append c.writer b'{' } in
        let w2 = run_calls num w1 (calls_of_fields fs) in
        let inner = fields-text fs w1 h in
        let e = run_calls-append w1 (calls_of_fields fs) (Call.end_object ∷ []) in
        let all : contents (buffered_writer_append w2.writer b'}')
            ≡ contents c.writer ++ (b'{' ∷ (fields_text num true fs ++ (b'}' ∷ []))) =
          contents-append w2.writer b'}'
          ∙ ap (λ l. l ++ (b'}' ∷ []))
              (inner ∙ ap (λ l. l ++ fields_text num true fs) (contents-append c.writer b'{'))
          ∙ simp append_assoc in
        rw e (adds w name _ _ all, refl)

    items-text :
        (vs : Items) (w : LuaJsonWriter)
        → WritableItems Reads vs
        → contents (run_calls num w (calls_of_items vs)).writer
          ≡ contents w.writer ++ items_text num w.first_elem vs
    items-text Items.no_items w h = sym (append-nil (contents w.writer))
    items-text (Items.item v vs) w h =
        let w1 = run_calls num w (calls_of none v) in
        let (one, first) = calls_of-Adds v w none h.0 in
        let rest = items-text vs w1 h.1 in
        rw (run_calls-append w (calls_of none v) (calls_of_items vs)) (
          rest
          ∙ ap (λ b. contents w1.writer ++ items_text num b vs) first
          ∙ ap (λ l. l ++ items_text num false vs) one
          ∙ simp append_assoc)

    fields-text :
        (fs : Fields) (w : LuaJsonWriter)
        → WritableFields Reads fs
        → contents (run_calls num w (calls_of_fields fs)).writer
          ≡ contents w.writer ++ fields_text num w.first_elem fs
    fields-text Fields.no_fields w h = sym (append-nil (contents w.writer))
    fields-text (Fields.field k v fs) w h =
        let w1 = run_calls num w (calls_of (some k) v) in
        let (one, first) = calls_of-Adds v w (some k) h.1 in
        let rest = fields-text fs w1 h.2 in
        rw (run_calls-append w (calls_of (some k) v) (calls_of_fields fs)) (
          rest
          ∙ ap (λ b. contents w1.writer ++ fields_text num b fs) first
          ∙ ap (λ l. l ++ fields_text num false fs) one
          ∙ simp append_assoc)

  -- A script that writes a value without a null, with texts of ASCII without a zero or a vertical tab
  -- and with numbers that meet a condition of any kind, leaves in the file that it closes exactly the
  -- JSON text of the value, whatever was flushed on the way.
  pub written-value_text :
      (v : JsonValue)
      → Writable Reads v
      → written (run_calls num writer_new (calls_of none v)) ≡ value_text num v
  unfolding written writer_new buffered_writer_flush
  written-value_text v h = (calls_of-Adds v writer_new none h).0
