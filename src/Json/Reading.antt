-- ===== src/Json/Reading.antt =====
-- What the lexer makes of the pieces of a text that the writer has written.
use tundra.Json.Lexer.{
  c_string, Clib, JsonLexeme, JsonLexerState, Mode, decode, lexed_string, word, fetch_at,
  fetch_next, true_text, false_text,
}
use tundra.Json.Writer.{escape_table, bool_text}
use tundra.Json.Text.{escaped_char, escaped, quoted, Clean}
use tundra.Prelude.{
  ℕ, ◌≤◌, Bool, true, false, ◌||◌, ◌&&◌, ◌≡◌, ◌≢◌, refl, sym, ap, ◌∙◌, ◌⊎◌, inl, inr, List, [], ◌∷◌,
  ◌++◌, append_assoc, none, some, ◌==◌, leb, length, length-append, ◌>>=◌, arith,
}

-- The C locale's white space and letters.
pub record CLocale (lib : Clib) : Type 0 where
  pub graph_not_space : (c : ℕ) → 33 ≤ c → c ≤ 126 → lib.isspace c ≡ false
  pub letter_alnum : (c : ℕ) → b'a' ≤ c → c ≤ b'z' → lib.isalnum c ≡ true
  pub comma_not_alnum : lib.isalnum b',' ≡ false
  pub bracket_not_alnum : lib.isalnum b']' ≡ false
  pub brace_not_alnum : lib.isalnum b'}' ≡ false

-- What may stand behind a value: the end, a comma or a closing bracket.
abbrev pub Ends : List ℕ → Type 0
Ends [] = Unit
Ends (c ∷ s) = (c ≡ b',') ⊎ ((c ≡ b']') ⊎ (c ≡ b'}'))

-- The number's text begins as a number does, and strtod reads it back before what may follow it.
pub record NumberReads (lib : Clib) (num : ℕ → List ℕ) (n : ℕ) : Type 0 where
  pub first : ℕ
  pub others : List ℕ
  pub text : num n ≡ first ∷ others
  pub number_like : (first ≡ b'-') ⊎ ((b'0' ≤ first) × (first ≤ b'9'))
  pub reads_back : (rest : List ℕ) → Ends rest → lib.strtod (num n ++ rest) ≡ (n, rest)

abbrev pub fresh : List ℕ → ℕ → JsonLexerState
fresh cursor line = record { cursor = cursor; line_number = line; lexeme = none }

abbrev Letters : List ℕ → Type 0
Letters [] = Unit
Letters (c ∷ s) = (b'a' ≤ c) × (c ≤ b'z') × Letters s

-- The characters that are lexemes by themselves.
pub data Punct : ℕ → JsonLexeme → Type 0 where
  open_object : Punct b'{' JsonLexeme.begin_object
  close_object : Punct b'}' JsonLexeme.end_object
  open_array : Punct b'[' JsonLexeme.begin_array
  close_array : Punct b']' JsonLexeme.end_array
  comma : Punct b',' JsonLexeme.value_separator
  colon : Punct b':' JsonLexeme.name_separator

module _ (lib : Clib) where
  pub decode_char :
      (c : ℕ) (t : List ℕ)
      → c ≢ 11
      → decode lib Mode.plain (escaped_char c ++ t)
        ≡ (decode lib Mode.plain t >>= (λ (text, rest). some (c ∷ text, rest)))
  unfolding decode escape_table
  decode_char c t h = ground arith

  decode-escaped :
      (s rest : List ℕ)
      → Clean s
      → decode lib Mode.plain (escaped s ++ (34 ∷ rest)) ≡ some (s, rest)
  unfolding decode
  decode-escaped [] rest h = refl
  decode-escaped (c ∷ s) rest h =
      ap (decode lib Mode.plain) (append_assoc (escaped_char c) (escaped s) (34 ∷ rest))
      ∙ decode_char c (escaped s ++ (34 ∷ rest)) h.1
      ∙ ap (λ m. m >>= (λ (text, rest). some (c ∷ text, rest))) (decode-escaped s rest h.3)

module _ (lib : Clib) (loc : CLocale lib) where
  pub fetch_graph :
      (c : ℕ) (s : List ℕ) (line : ℕ)
      → 33 ≤ c
      → c ≤ 126
      → fetch_next lib (fresh (c ∷ s) line) ≡ fetch_at lib (fresh (c ∷ s) line) (c ∷ s)
  unfolding fetch_next
  fetch_graph c s line lo hi =
      let e = loc.graph_not_space c lo hi in
      let n : (c == 10) ≡ false = ground arith in rw (e, n) refl

  c_string-Clean : (s : List ℕ) → Clean s → c_string s ≡ s
  unfolding c_string
  c_string-Clean [] h = refl
  c_string-Clean (c ∷ s) h = ground (arith, c_string-Clean s h.3)

  pub fetch_quoted :
      (s rest : List ℕ) (line : ℕ)
      → Clean s
      → fetch_next lib (fresh (quoted s ++ rest) line) ≡ (JsonLexeme.string s, fresh rest line)
  unfolding fetch_at
  fetch_quoted s rest line h =
      fetch_graph 34 ((escaped s ++ (34 ∷ [])) ++ rest) line (omega arith) (omega arith)
      ∙ ap (λ m. lexed_string lib (fresh (quoted s ++ rest) line) m)
          (ap (decode lib Mode.plain) (append_assoc (escaped s) (34 ∷ []) rest)
            ∙ decode-escaped lib s rest h)
      ∙ ap (λ t. (JsonLexeme.string t, fresh rest line)) (c_string-Clean s h)

  pub fetch_number :
      (num : ℕ → List ℕ) (n : ℕ) (rest : List ℕ) (line : ℕ)
      → NumberReads lib num n
      → Ends rest
      → fetch_next lib (fresh (num n ++ rest) line) ≡ (JsonLexeme.number n, fresh rest line)
  unfolding fetch_at
  fetch_number num n rest line r e =
      let text = ap (λ l. l ++ rest) r.text in
      let digit : (r.first == b'-' || (leb b'0' r.first && leb r.first b'9')) ≡ true =
        ground (arith, r.number_like) in
      let lo : 33 ≤ r.first = ground (arith, r.number_like) in
      let hi : r.first ≤ 126 = ground (arith, r.number_like) in
      let back = ap lib.strtod (sym text) ∙ r.reads_back rest e in
      let longer : (length rest == length (r.first ∷ (r.others ++ rest))) ≡ false =
        ground (arith, length-append r.others rest) in
      ap (λ l. fetch_next lib (fresh l line)) text
      ∙ fetch_graph r.first (r.others ++ rest) line lo hi
      ∙ rw (digit, back, longer) refl

  word-Ends : (rest : List ℕ) → Ends rest → word lib rest ≡ ([], rest)
  unfolding word
  word-Ends [] e = refl
  word-Ends (c ∷ s) (inl e) = rw (e, loc.comma_not_alnum) refl
  word-Ends (c ∷ s) (inr (inl e)) = rw (e, loc.bracket_not_alnum) refl
  word-Ends (c ∷ s) (inr (inr e)) = rw (e, loc.brace_not_alnum) refl

  word-Letters : (t rest : List ℕ) → Letters t → Ends rest → word lib (t ++ rest) ≡ (t, rest)
  unfolding word
  word-Letters [] rest h e = word-Ends rest e
  word-Letters (c ∷ t) rest h e = rw (loc.letter_alnum c h.0 h.1, word-Letters t rest h.2 e) refl

  pub fetch_bool :
      (b : Bool) (rest : List ℕ) (line : ℕ)
      → Ends rest
      → fetch_next lib (fresh (bool_text b ++ rest) line) ≡ (JsonLexeme.boolean b, fresh rest line)
  unfolding fetch_at bool_text
  fetch_bool true rest line e =
      fetch_graph b't' (b'r' ∷ b'u' ∷ b'e' ∷ rest) line (omega arith) (omega arith)
      ∙ rw (word-Letters true_text rest (omega arith) e) refl
  fetch_bool false rest line e =
      fetch_graph b'f' (b'a' ∷ b'l' ∷ b's' ∷ b'e' ∷ rest) line (omega arith) (omega arith)
      ∙ rw (word-Letters false_text rest (omega arith) e) refl

  pub fetch-Punct :
      {c : ℕ} {l : JsonLexeme} (s : List ℕ) (line : ℕ)
      → Punct c l
      → fetch_next lib (fresh (c ∷ s) line) ≡ (l, fresh s line)
  unfolding fetch_at
  fetch-Punct s line open_object = fetch_graph b'{' s line (omega arith) (omega arith)
  fetch-Punct s line close_object = fetch_graph b'}' s line (omega arith) (omega arith)
  fetch-Punct s line open_array = fetch_graph b'[' s line (omega arith) (omega arith)
  fetch-Punct s line close_array = fetch_graph b']' s line (omega arith) (omega arith)
  fetch-Punct s line comma = fetch_graph b',' s line (omega arith) (omega arith)
  fetch-Punct s line colon = fetch_graph b':' s line (omega arith) (omega arith)
