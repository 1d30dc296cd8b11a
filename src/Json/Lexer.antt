-- ===== src/Json/Lexer.antt =====
-- The lexer of JsonParse.cpp. Strings are decoded in place, behind the cursor, so what is still to
-- be read is never overwritten. The texts of its own errors are not kept: nothing reads them.
use tundra.Prelude.Strings.{same_string}
use tundra.Prelude.{
  ℕ, ◌+◌, ◌-◌, ◌*◌, Bool, true, false, ◌&&◌, ◌||◌, List, [], ◌∷◌, Option, none, some, if◌then◌else◌,
  ltb, leb, ◌==◌, length, ◌>>=◌,
}

-- What the lexer takes from the C library: the character classes, and strtod with the text that it
-- leaves, which is all of the text where it converts nothing.
pub record Clib : Type 0 where
  pub isspace : ℕ → Bool
  pub isalnum : ℕ → Bool
  pub isxdigit : ℕ → Bool
  pub tolower : ℕ → ℕ
  pub strtod : List ℕ → ℕ × List ℕ

-- JsonLexemeType with the value; kJsonLexInvalid is no lexeme.
pub data JsonLexeme : Type 0 where
  string : List ℕ → JsonLexeme
  number : ℕ → JsonLexeme
  boolean : Bool → JsonLexeme
  value_separator name_separator begin_object begin_array end_object end_array null eof error :
      JsonLexeme

pub record JsonLexerState : Type 0 where
  pub cursor : List ℕ
  pub line_number : ℕ
  pub lexeme : Option JsonLexeme

unfoldable pub lexer_state_init : List ℕ → JsonLexerState
lexer_state_init buffer = record { cursor = buffer; line_number = 1; lexeme = none }

-- Where the loop of GetStringLexeme stands: between characters, behind a backslash, or behind some
-- of the four digits of `\u` with the code so far.
pub data Mode : Type 0 where
  plain escaped : Mode
  hex : ℕ → ℕ → Mode

-- What a character does there.
pub data Move : Type 0 where
  stop fail : Move
  goes : Mode → Move
  puts : ℕ → Move

unfoldable pub escape : ℕ → Move
escape next =
    if next == 92
    then Move.puts 92
    else if next == 34
    then Move.puts 34
    else if next == 47
    then Move.puts 47
    else if next == b'b'
    then Move.puts 8
    else if next == b'f'
    then Move.puts 12
    else if next == b'n'
    then Move.puts 10
    else if next == b'r'
    then Move.puts 13
    else if next == b't'
    then Move.puts 9
    else if next == b'u'
    then Move.goes (Mode.hex 0 0)
    else Move.fail

-- A text that holds a zero, from `\u0000`, ends there for who reads it.
unfoldable pub c_string : List ℕ → List ℕ
c_string [] = []
c_string (c ∷ s) = let rest = c_string s in if c == 0 then [] else c ∷ rest

-- strncmp with the length of the word: the word is that text
abbrev pub true_text : List ℕ
true_text = b't' ∷ b'r' ∷ b'u' ∷ b'e' ∷ []

abbrev pub null_text : List ℕ
null_text = b'n' ∷ b'u' ∷ b'l' ∷ b'l' ∷ []

abbrev pub false_text : List ℕ
false_text = b'f' ∷ b'a' ∷ b'l' ∷ b's' ∷ b'e' ∷ []

module _ (lib : Clib) where
  -- The while loop of SkipWhitespace, with m_LineNumber.
  unfoldable pub skip_loop : List ℕ → ℕ → List ℕ × ℕ
  skip_loop [] line = ([], line)
  skip_loop (ch ∷ s) line =
      let line' : ℕ = if ch == 10 then line + 1 else line in
      let rest = skip_loop s line' in if lib.isspace ch then rest else (ch ∷ s, line')

  unfoldable pub skip_whitespace : JsonLexerState → JsonLexerState
  unfolding skip_loop
  skip_whitespace st =
      let (cursor, line) = skip_loop st.cursor st.line_number in
      record st { cursor = cursor; line_number = line }

  -- The value of a hexadecimal digit.
  unfoldable pub hex_digit : ℕ → ℕ
  hex_digit code =
      let lc = lib.tolower code in if leb b'a' lc && leb lc b'f' then lc - b'a' + 10 else lc - b'0'

  -- A digit of `\u`, of which `seen` are behind: `hex_code <<= 4` and the digit, which is below 16.
  unfoldable pub hex_move : ℕ → ℕ → ℕ → Move
  unfolding hex_digit
  hex_move seen hex_code code =
      let hex_code' = hex_code * 16 + hex_digit code in
      if lib.isxdigit code
      then if seen == 3
        then if ltb 127 hex_code' then Move.fail else Move.puts hex_code'
        else Move.goes (Mode.hex (seen + 1) hex_code')
      else Move.fail

  unfoldable pub move : Mode → ℕ → Move
  unfolding escape hex_move
  move Mode.plain ch =
      if ch == 34 then Move.stop else if ch == 92 then Move.goes Mode.escaped else Move.puts ch
  move Mode.escaped ch = escape ch
  move (Mode.hex seen hex_code) ch = hex_move seen hex_code ch

  -- The loop of GetStringLexeme: the text decoded and what is behind the closing quote.
  unfoldable pub after_move :
      Move → List ℕ → (Mode → Option (List ℕ × List ℕ)) → Option (List ℕ × List ℕ)
  after_move Move.stop s next = some ([], s)
  after_move Move.fail s next = none
  after_move (Move.goes mode) s next = next mode
  after_move (Move.puts c) s next = next Mode.plain >>= (λ (text, rest). some (c ∷ text, rest))

  unfoldable pub decode : Mode → List ℕ → Option (List ℕ × List ℕ)
  unfolding move after_move
  decode mode [] = none
  decode mode (ch ∷ s) = after_move (move mode ch) s (λ mode'. decode mode' s)

  unfoldable pub lexed_string :
      JsonLexerState → Option (List ℕ × List ℕ) → JsonLexeme × JsonLexerState
  unfolding c_string
  lexed_string st none = (JsonLexeme.error, st)
  lexed_string st (some (text, rest)) =
      (JsonLexeme.string (c_string text), record st { cursor = rest })

  -- GetStringLexeme, with what is behind the opening quote.
  unfoldable pub get_string_lexeme : JsonLexerState → List ℕ → JsonLexeme × JsonLexerState
  unfolding decode lexed_string
  get_string_lexeme st s = lexed_string st (decode Mode.plain s)

  unfoldable pub get_number_lexeme : JsonLexerState → JsonLexeme × JsonLexerState
  get_number_lexeme st =
      let (value, end) = lib.strtod st.cursor in
      let st' = record st { cursor = end } in
      if length end == length st.cursor
      then (JsonLexeme.error, st')
      else (JsonLexeme.number value, st')

  -- The word at the cursor, and what is behind it.
  unfoldable pub word : List ℕ → List ℕ × List ℕ
  word [] = ([], [])
  word (c ∷ s) = let (w, rest) = word s in if lib.isalnum c then (c ∷ w, rest) else ([], c ∷ s)

  unfoldable pub get_literal_lexeme : JsonLexerState → JsonLexeme × JsonLexerState
  unfolding word same_string
  get_literal_lexeme st =
      let (w, rest) = word st.cursor in
      let st' = record st { cursor = rest } in
      if same_string w true_text
      then (JsonLexeme.boolean true, st')
      else if same_string w null_text
      then (JsonLexeme.null, st')
      else if same_string w false_text
      then (JsonLexeme.boolean false, st')
      else (JsonLexeme.error, st)

  -- The switch of JsonLexerFetchNext, on the character at the cursor and what is behind it.
  unfoldable pub fetch_at : JsonLexerState → List ℕ → JsonLexeme × JsonLexerState
  unfolding get_number_lexeme get_string_lexeme get_literal_lexeme
  fetch_at st [] = (JsonLexeme.eof, st)
  fetch_at st (ch ∷ s) =
      let st' = record st { cursor = s } in
      if ch == b'-' || (leb b'0' ch && leb ch b'9')
      then get_number_lexeme st
      else if ch == 34
      then get_string_lexeme st s
      else if ch == b'{'
      then (JsonLexeme.begin_object, st')
      else if ch == b'}'
      then (JsonLexeme.end_object, st')
      else if ch == b'['
      then (JsonLexeme.begin_array, st')
      else if ch == b']'
      then (JsonLexeme.end_array, st')
      else if ch == b','
      then (JsonLexeme.value_separator, st')
      else if ch == b':'
      then (JsonLexeme.name_separator, st')
      else get_literal_lexeme st

  unfoldable pub fetch_next : JsonLexerState → JsonLexeme × JsonLexerState
  unfolding skip_whitespace fetch_at
  fetch_next st = let st' = skip_whitespace st in fetch_at st' st'.cursor

  unfoldable pub peek_at : JsonLexerState → Option JsonLexeme → JsonLexeme × JsonLexerState
  unfolding fetch_next
  peek_at st (some l) = (l, st)
  peek_at st none = let (l, st') = fetch_next st in (l, record st' { lexeme = some l })

  -- JsonLexerPeek
  unfoldable pub peek : JsonLexerState → JsonLexeme × JsonLexerState
  unfolding peek_at
  peek st = peek_at st st.lexeme

  unfoldable pub next_at : JsonLexerState → Option JsonLexeme → JsonLexeme × JsonLexerState
  unfolding fetch_next
  next_at st (some l) = (l, record st { lexeme = none })
  next_at st none = fetch_next st

  -- JsonLexerNext; JsonLexerSkip leaves the same state.
  unfoldable pub next_lexeme : JsonLexerState → JsonLexeme × JsonLexerState
  unfolding next_at
  next_lexeme st = next_at st st.lexeme
