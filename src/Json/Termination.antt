-- ===== src/Json/Termination.antt =====
-- The parser comes to an end on every text: each round of a loop takes a lexeme off it.
use tundra.Json.{JsonValue, Items, Fields}
use tundra.Json.Lexer.{Clib, JsonLexeme, JsonLexerState, lexer_state_init, peek, next_lexeme}
use tundra.Json.Fuel.{EndsInside, taken, weight, next-weight, peek-weight, next-peek}
use tundra.Json.Parser.{
  Parsed, and_then, is_begin_object, is_begin_array, is_end_array, is_name_separator,
  is_value_separator, is_eof, value_at, pair_at, fields_at, items_at, item_at, parse_object,
  parse_array, parse_value, parse_fields, parse_items, expect_eof, json_parse,
}
use tundra.Prelude.{
  ℕ, zero, suc, ◌+◌, ◌*◌, ◌≤◌, ◌<◌, Bool, true, false, not, ◌&&◌, ◌≡◌, ◌≢◌, refl, ap, subst, inl,
  inr, List, length, Bool-cases, arith,
}

-- An answer, behind which less than the bound is still to be read.
abbrev Below {ℓ} : {A : Type ℓ} → ℕ → Parsed A → Type 0
Below n (Parsed.done a st) = weight st < n
Below n (Parsed.json_error line m) = Unit
Below n Parsed.out_of_fuel = ⊥

and_then-Below {ℓ κ} :
    {A : Type ℓ} {B : Type κ} (m n : ℕ) (p : Parsed A) (f : A → JsonLexerState → Parsed B)
    → Below m p
    → ((a : A) (st : JsonLexerState) → weight st < m → Below n (f a st))
    → Below n (and_then p f)
and_then-Below m n (Parsed.done a st) f h next = next a st h
and_then-Below m n (Parsed.json_error line e) f h next = tt
and_then-Below m n Parsed.out_of_fuel f h next = absurd h

Below-mono {ℓ} : {A : Type ℓ} (m n : ℕ) (p : Parsed A) → m ≤ n → Below m p → Below n p
Below-mono m n (Parsed.done a st) le h = omega arith
Below-mono m n (Parsed.json_error line e) le h = tt
Below-mono m n Parsed.out_of_fuel le h = h

begin_object-taken : (l : JsonLexeme) → is_begin_object l ≡ true → taken l ≡ 1
unfolding is_begin_object
begin_object-taken JsonLexeme.begin_object h = refl
begin_object-taken _ h = ground arith

begin_array-taken : (l : JsonLexeme) → is_begin_array l ≡ true → taken l ≡ 1
unfolding is_begin_array
begin_array-taken JsonLexeme.begin_array h = refl
begin_array-taken _ h = ground arith

module _ (lib : Clib) (inside : EndsInside lib) where
  parse_object-Below :
      (loop : JsonLexerState → Parsed Fields) (st : JsonLexerState)
      → ((st' : JsonLexerState) → weight st' < weight st → Below (weight st) (loop st'))
      → Below (weight st) (parse_object lib loop st)
  unfolding parse_object is_begin_object
  parse_object-Below loop st h =
      let (l, st') = next_lexeme lib st in
      let less = next-weight lib inside st in
      elim (Bool-cases (is_begin_object l)) [
        | inl e ↦
            let one = begin_object-taken l e in
            rw e (
              and_then-Below (weight st) (weight st) (loop st')
                (λ fs st2. Parsed.done (JsonValue.object fs) st2) (h st' (omega arith))
                (λ fs st2 k. k))
        | inr e ↦ rw e tt
      ]

  parse_array-Below :
      (loop : JsonLexerState → Parsed Items) (st : JsonLexerState)
      → ((st' : JsonLexerState) → weight st' < weight st → Below (weight st) (loop st'))
      → Below (weight st) (parse_array lib loop st)
  unfolding parse_array
  parse_array-Below loop st h =
      let (l, st') = next_lexeme lib st in
      let less = next-weight lib inside st in
      elim (Bool-cases (is_begin_array l)) [
        | inl e ↦
            let one = begin_array-taken l e in
            rw e (
              and_then-Below (weight st) (weight st) (loop st')
                (λ vs st2. Parsed.done (JsonValue.array vs) st2) (h st' (omega arith))
                (λ vs st2 k. k))
        | inr e ↦ rw e tt
      ]

  value_at-Below :
      (object array : JsonLexerState → Parsed JsonValue) (st : JsonLexerState) (l : JsonLexeme)
      → (next_lexeme lib st).0 ≡ l
      → Below (weight st) (object st)
      → Below (weight st) (array st)
      → Below (weight st) (value_at lib object array l st)
  unfolding value_at
  value_at-Below object array st JsonLexeme.begin_object e ho ha = ho
  value_at-Below object array st JsonLexeme.begin_array e ho ha = ha
  value_at-Below object array st (JsonLexeme.string s) e ho ha =
      let less = next-weight lib inside st in let one = ap taken e in omega arith
  value_at-Below object array st (JsonLexeme.number n) e ho ha =
      let less = next-weight lib inside st in let one = ap taken e in omega arith
  value_at-Below object array st (JsonLexeme.boolean b) e ho ha =
      let less = next-weight lib inside st in let one = ap taken e in omega arith
  value_at-Below object array st JsonLexeme.null e ho ha =
      let less = next-weight lib inside st in let one = ap taken e in omega arith
  value_at-Below object array st _ e ho ha = tt

  -- A parser that makes what is to be read smaller, from a state with at most so much.
  abbrev Shrinks : ℕ → (JsonLexerState → Parsed JsonValue) → Type 0
  Shrinks m value = (st : JsonLexerState) → weight st ≤ m → Below m (value st)

  abbrev Keeps {ℓ} : {A : Type ℓ} → ℕ → (JsonLexerState → Parsed A) → Type 0
  Keeps m more = (st : JsonLexerState) → weight st < m → Below m (more st)

  pair_at-Below :
      (value : JsonLexerState → Parsed JsonValue) (more : JsonLexerState → Parsed Fields)
      (key : List ℕ) (st : JsonLexerState) (m : ℕ)
      → weight st < m
      → Shrinks m value
      → Keeps m more
      → Below m (pair_at lib value more key st)
  unfolding pair_at
  pair_at-Below value more key st m le shrinks keeps =
      let (l, st') = next_lexeme lib st in
      let less = next-weight lib inside st in
      elim (Bool-cases (is_name_separator l)) [
        | inl e ↦ rw e (
            and_then-Below m m (value st')
              (λ v st1. and_then (more st1) (λ fs st2. Parsed.done (Fields.field key v fs) st2))
              (shrinks st' (omega arith))
              (λ v st1 k.
                and_then-Below m m (more st1) (λ fs st2. Parsed.done (Fields.field key v fs) st2)
                  (keeps st1 k) (λ fs st2 k2. k2)))
        | inr e ↦ rw e tt
      ]

  item_at-Below :
      (value : JsonLexerState → Parsed JsonValue) (more : JsonLexerState → Parsed Items)
      (st : JsonLexerState) (m : ℕ)
      → weight st ≤ m
      → Shrinks m value
      → Keeps m more
      → Below m (item_at lib value more st)
  unfolding item_at
  item_at-Below value more st m le shrinks keeps =
      and_then-Below m m (value st)
        (λ v st1. and_then (more st1) (λ vs st2. Parsed.done (Items.item v vs) st2)) (shrinks st le)
        (λ v st1 k.
          and_then-Below m m (more st1) (λ vs st2. Parsed.done (Items.item v vs) st2) (keeps st1 k)
            (λ vs st2 k2. k2))

  fields_at-Below :
      (value : JsonLexerState → Parsed JsonValue)
      (more : Bool → Bool → JsonLexerState → Parsed Fields) (seen_value seen_comma : Bool)
      (l : JsonLexeme) (st : JsonLexerState) (m : ℕ)
      → weight st + taken l ≤ m
      → Shrinks m value
      → ((v c : Bool) → Keeps m (more v c))
      → Below (suc m) (fields_at lib value more seen_value seen_comma l st)
  unfolding fields_at
  fields_at-Below value more v c (JsonLexeme.string key) st m le shrinks keeps =
      let pair =
        pair_at-Below value (more true false) key st m (omega arith) shrinks (keeps true false) in
      let wide =
        Below-mono m (suc m) (pair_at lib value (more true false) key st) (omega arith) pair in
      elim (Bool-cases (v && not c)) [ inl e ↦ rw e tt | inr e ↦ rw e wide ]
  fields_at-Below value more v c JsonLexeme.end_object st m le shrinks keeps = omega arith
  fields_at-Below value more false c JsonLexeme.value_separator st m le shrinks keeps = tt
  fields_at-Below value more true true JsonLexeme.value_separator st m le shrinks keeps = tt
  fields_at-Below value more true false JsonLexeme.value_separator st m le shrinks keeps =
      Below-mono m (suc m) (more false true st) (omega arith) (keeps false true st (omega arith))
  fields_at-Below value more v c _ st m le shrinks keeps = tt

  items_at-Below :
      (value : JsonLexerState → Parsed JsonValue) (more : JsonLexerState → Parsed Items)
      (some_seen : Bool) (l : JsonLexeme) (st : JsonLexerState) (m : ℕ)
      → weight st ≤ m
      → Shrinks m value
      → Keeps m more
      → Below (suc m) (items_at lib value more some_seen l st)
  unfolding items_at
  items_at-Below value more some_seen l st m le shrinks keeps =
      let st' = (next_lexeme lib st).1 in
      let less = next-weight lib inside st in
      let here =
        Below-mono m (suc m) (item_at lib value more st) (omega arith)
          (item_at-Below value more st m le shrinks keeps) in
      let behind =
        Below-mono m (suc m) (item_at lib value more st') (omega arith)
          (item_at-Below value more st' m (omega arith) shrinks keeps) in
      elim (Bool-cases (is_end_array l)) [
        | inl e ↦ rw e (omega arith)
        | inr e ↦ rw e (elim (Bool-cases some_seen) [
          | inr s ↦ rw s here
          | inl s ↦
              rw s
                (elim (Bool-cases (is_value_separator l)) [ inl c ↦ rw c behind | inr c ↦ rw c tt ])
        ])
      ]

  Shrinks-lem :
      (f m : ℕ)
      → ((st : JsonLexerState) → 2 * weight st < f → Below (weight st) (parse_value lib f st))
      → 2 * m < f
      → Shrinks m (parse_value lib f)
  Shrinks-lem f m below enough st le =
      Below-mono (weight st) m (parse_value lib f st) le (below st (omega arith))

  mutual
    unfolding parse_value

    parse_value-Below :
        (f : ℕ) (st : JsonLexerState) → 2 * weight st < f → Below (weight st) (parse_value lib f st)
    parse_value-Below zero st enough = absurd (omega arith)
    parse_value-Below (suc f) st enough =
        let (l, st') = peek lib st in
        let le = peek-weight lib inside st in
        let object = parse_object lib (parse_fields lib f false false) in
        let array = parse_array lib (parse_items lib f false) in
        let o =
          parse_object-Below (parse_fields lib f false false) st'
            (parse_fields-Keeps f false false (weight st') (omega arith)) in
        let a =
          parse_array-Below (parse_items lib f false) st'
            (parse_items-Keeps f false (weight st') (omega arith)) in
        Below-mono (weight st') (weight st) (value_at lib object array l st') le
          (value_at-Below object array st' l (next-peek lib inside st) o a)

    parse_fields-Keeps : (f : ℕ) (v c : Bool) (m : ℕ) → 2 * m ≤ f → Keeps m (parse_fields lib f v c)
    parse_fields-Keeps zero v c m enough st less = absurd (omega arith)
    parse_fields-Keeps (suc f) v c m enough st less =
        let (l, st') = next_lexeme lib st in
        let p = parse_fields lib (suc f) v c st in
        Below-mono (suc (weight st)) m p less (
          fields_at-Below (parse_value lib f) (parse_fields lib f) v c l st' (weight st)
            (next-weight lib inside st)
            (Shrinks-lem f (weight st) (parse_value-Below f) (omega arith))
            (λ v' c'. parse_fields-Keeps f v' c' (weight st) (omega arith)))

    parse_items-Keeps : (f : ℕ) (s : Bool) (m : ℕ) → 2 * m ≤ f → Keeps m (parse_items lib f s)
    parse_items-Keeps zero s m enough st less = absurd (omega arith)
    parse_items-Keeps (suc f) s m enough st less =
        let (l, st') = peek lib st in
        Below-mono (suc (weight st)) m (parse_items lib (suc f) s st) less (
          items_at-Below (parse_value lib f) (parse_items lib f true) s l st' (weight st)
            (peek-weight lib inside st)
            (Shrinks-lem f (weight st) (parse_value-Below f) (omega arith))
            (parse_items-Keeps f true (weight st) (omega arith)))

  expect_eof-Below :
      {n : ℕ} (root : JsonValue) (st : JsonLexerState)
      → weight st < n
      → Below n (expect_eof lib root st)
  unfolding expect_eof
  expect_eof-Below root st less =
      let le = next-weight lib inside st in
      elim (Bool-cases (is_eof (next_lexeme lib st).0)) [
        | inl e ↦ rw e (omega arith)
        | inr e ↦ rw e tt
      ]

  -- The parser of a document ends on every text, with a value or with an error, where strtod's end
  -- pointer never stands before the text it was given.
  pub json_parse_terminates : (buffer : List ℕ) → json_parse lib buffer ≢ Parsed.out_of_fuel
  unfolding json_parse lexer_state_init
  json_parse_terminates buffer e =
      let start = lexer_state_init buffer in
      let p = parse_value lib (2 * length buffer + 2) start in
      let root = parse_value-Below (2 * length buffer + 2) start (omega arith) in
      subst (Below (weight start)) e
        (and_then-Below (weight start) (weight start) p (expect_eof lib) root expect_eof-Below)
