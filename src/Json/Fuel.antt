-- ===== src/Json/Fuel.antt =====
-- Every lexeme but the end and an error takes something off the text.
use tundra.Prelude.Strings.{same_string_iff}
use tundra.Json.Lexer.{
  Clib, JsonLexeme, JsonLexerState, Mode, Move, skip_loop, skip_whitespace, move, decode,
  after_move, lexed_string, get_number_lexeme, word, get_literal_lexeme, fetch_at, fetch_next, peek,
  peek_at, next_lexeme, next_at, true_text, null_text, false_text,
}
use tundra.Prelude.{
  ℕ, suc, ◌+◌, ◌≤◌, ◌<◌, ◌≡◌, refl, ap, List, [], ◌∷◌, Option, none, some, length, ◌>>=◌, arith,
}

-- strtod's end pointer does not stand before the text.
abbrev pub EndsInside : Clib → Type 0
EndsInside lib = (s : List ℕ) → length (lib.strtod s).1 ≤ length s

-- A lexeme that takes something off the text.
abbrev pub taken : JsonLexeme → ℕ
taken JsonLexeme.eof = 0
taken JsonLexeme.error = 0
taken _ = 1

abbrev pending : Option JsonLexeme → ℕ
pending none = 0
pending (some l) = taken l

-- How much is still to be read.
abbrev pub weight : JsonLexerState → ℕ
weight st = length st.cursor + pending st.lexeme

module _ (lib : Clib) (inside : EndsInside lib) where
  skip_loop-length : (s : List ℕ) (n : ℕ) → length (skip_loop lib s n).0 ≤ length s
  unfolding skip_loop
  skip_loop-length [] n = omega arith
  skip_loop-length (c ∷ s) n = ground (arith, skip_loop-length s (n + 1), skip_loop-length s n)

  word-length : (s : List ℕ) → length (word lib s).0 + length (word lib s).1 ≡ length s
  unfolding word
  word-length [] = omega arith
  word-length (c ∷ s) = ground (arith, word-length s)

  abbrev Leaves : ℕ → Option (List ℕ × List ℕ) → Type 0
  Leaves n none = Unit
  Leaves n (some (t, r)) = length r < n

  after_move-Leaves :
      (m : Move) (s : List ℕ) (next : Mode → Option (List ℕ × List ℕ))
      → ((mode : Mode) → Leaves (length s) (next mode))
      → Leaves (suc (length s)) (after_move lib m s next)
  unfolding after_move
  after_move-Leaves Move.stop s next h = omega arith
  after_move-Leaves Move.fail s next h = tt
  after_move-Leaves (Move.goes mode) s next h = widen (next mode) (h mode)
    where
      widen : (o : Option (List ℕ × List ℕ)) → Leaves (length s) o → Leaves (suc (length s)) o
      widen none h = tt
      widen (some (t, r)) h = omega arith
  after_move-Leaves (Move.puts c) s next h = widen (next Mode.plain) (h Mode.plain)
    where
      widen :
          (o : Option (List ℕ × List ℕ))
          → Leaves (length s) o
          → Leaves (suc (length s)) (o >>= (λ (text, rest). some (c ∷ text, rest)))
      widen none h = tt
      widen (some (t, r)) h = omega arith

  decode-Leaves : (mode : Mode) (s : List ℕ) → Leaves (length s) (decode lib mode s)
  unfolding decode
  decode-Leaves mode [] = tt
  decode-Leaves mode (c ∷ s) =
      after_move-Leaves (move lib mode c) s (λ m. decode lib m s) (λ m. decode-Leaves m s)

  -- What the lexer fetches, it takes off the text, and it leaves a lexeme that waits alone.
  abbrev Fetched : JsonLexerState → JsonLexeme × JsonLexerState → Type 0
  Fetched st (l, st') = (length st'.cursor + taken l ≤ length st.cursor) × (st'.lexeme ≡ st.lexeme)

  lexed_string-Fetched :
      (st : JsonLexerState) (c : ℕ) (s : List ℕ)
      → st.cursor ≡ c ∷ s
      → (o : Option (List ℕ × List ℕ)) → Leaves (length s) o
      → Fetched st (lexed_string lib st o)
  unfolding lexed_string
  lexed_string-Fetched st c s e none h = (omega arith, refl)
  lexed_string-Fetched st c s e (some (t, r)) h = (omega (arith, ap length e), refl)

  get_literal_lexeme-Fetched : (st : JsonLexerState) → Fetched st (get_literal_lexeme lib st)
  unfolding get_literal_lexeme
  get_literal_lexeme-Fetched st =
      let (w, rest) = word lib st.cursor in
      let len = word-length st.cursor in
      ground (
        arith,
        len,
        same_string_iff w true_text,
        same_string_iff w null_text,
        same_string_iff w false_text,
      )

  get_number_lexeme-Fetched : (st : JsonLexerState) → Fetched st (get_number_lexeme lib st)
  unfolding get_number_lexeme
  get_number_lexeme-Fetched st = let bound = inside st.cursor in ground arith

  fetch_at-Fetched :
      (st : JsonLexerState) (s : List ℕ) → st.cursor ≡ s → Fetched st (fetch_at lib st s)
  unfolding fetch_at
  fetch_at-Fetched st [] e = (omega arith, refl)
  fetch_at-Fetched st (c ∷ s) e =
      let len = ap length e in
      ground (
        arith,
        get_number_lexeme-Fetched st,
        get_literal_lexeme-Fetched st,
        lexed_string-Fetched st c s e (decode lib Mode.plain s) (decode-Leaves Mode.plain s),
      )

  fetch_next-Fetched : (st : JsonLexerState) → Fetched st (fetch_next lib st)
  unfolding fetch_next skip_whitespace
  fetch_next-Fetched st =
      let skipped = skip_whitespace lib st in
      let less = skip_loop-length st.cursor st.line_number in
      ground (arith, fetch_at-Fetched skipped skipped.cursor refl)

  next_at-weight :
      (st : JsonLexerState) (o : Option JsonLexeme)
      → st.lexeme ≡ o
      → weight (next_at lib st o).1 + taken (next_at lib st o).0 ≤ weight st
  unfolding next_at
  next_at-weight st none e =
      let fetched = fetch_next-Fetched st in let same = ap pending fetched.1 in omega arith
  next_at-weight st (some l) e = let waits = ap pending e in omega arith

  -- What is taken, the state no longer weighs.
  pub next-weight :
      (st : JsonLexerState)
      → weight (next_lexeme lib st).1 + taken (next_lexeme lib st).0 ≤ weight st
  unfolding next_lexeme
  next-weight st = next_at-weight st st.lexeme refl

  peek_at-weight :
      (st : JsonLexerState) (o : Option JsonLexeme)
      → st.lexeme ≡ o
      → weight (peek_at lib st o).1 ≤ weight st
  unfolding peek_at
  peek_at-weight st none e = let fetched = fetch_next-Fetched st in omega arith
  peek_at-weight st (some l) e = omega arith

  pub peek-weight : (st : JsonLexerState) → weight (peek lib st).1 ≤ weight st
  unfolding peek
  peek-weight st = peek_at-weight st st.lexeme refl

  next-peek_at :
      (st : JsonLexerState) (o : Option JsonLexeme)
      → st.lexeme ≡ o
      → (next_lexeme lib (peek_at lib st o).1).0 ≡ (peek_at lib st o).0
  unfolding peek_at next_lexeme
  next-peek_at st none e = refl
  next-peek_at st (some l) e = rw e refl

  -- What was peeked at is taken next.
  pub next-peek : (st : JsonLexerState) → (next_lexeme lib (peek lib st).1).0 ≡ (peek lib st).0
  unfolding peek
  next-peek st = next-peek_at st st.lexeme refl
