-- ===== src/IncludeScanner/Directives.antt =====
-- The lines that ScanCppLine takes for an include, described by what they consist of.
use tundra.IncludeScanner.{
  IncludeData, next, strip_prefix, until, include_word, cpp_closing, skip_space, scan_cpp_line,
}
use mathlib.Core.Option.{some-injective}
use tundra.Prelude.{
  ℕ, Bool, true, false, ◌≡◌, refl, sym, ap, ap₂, subst, ◌∙◌, ◌≢◌, ◌↔◌, inl, inr, some, List, [],
  ◌∷◌, ◌++◌, length, ◌==◌, bind-some, check-some, Bool-cases, arith,
}

-- Every character of the text satisfies the test.
abbrev pub All : (ℕ → Bool) → List ℕ → Type 0
All p [] = Unit
All p (c ∷ s) = (p c ≡ true) × All p s

-- The separator does not occur in the text.
abbrev pub Free : ℕ → List ℕ → Type 0
Free closing [] = Unit
Free closing (c ∷ s) = (c ≢ closing) × Free closing s

pub strip_prefix_sound :
    (p s : List ℕ) {rest : List ℕ} → strip_prefix p s ≡ some rest → s ≡ p ++ rest
strip_prefix_sound [] s h = ground arith
strip_prefix_sound (c ∷ cs) [] h = ground arith
strip_prefix_sound (c ∷ cs) (x ∷ xs) {rest} h =
    ground (arith, strip_prefix_sound cs xs {rest = rest})

pub until_sound :
    (closing : ℕ) (s : List ℕ) {name : List ℕ}
    → until closing s ≡ some name
    → Free closing name × ((rest : List ℕ) × (s ≡ name ++ (closing ∷ rest)))
until_sound closing [] h = ground arith
until_sound closing (c ∷ s) {name} h = elim (Bool-cases (c == closing)) [
  | inl e ↦
      let nil : [] ≡ name = some-injective _ _ (rw e at h) in rw (sym nil) (tt, (s, ground arith))
  | inr e ↦
      let (n, found, more) = bind-some (until closing s) (rw e at h) in
      let (free, (rest, split)) = until_sound closing s {name = n} found in
      rw (sym (some-injective _ _ more)) ((ground arith, free), (rest, ap (λ l. c ∷ l) split))
]

until_complete :
    (closing : ℕ) (name rest : List ℕ)
    → Free closing name
    → until closing (name ++ (closing ∷ rest)) ≡ some name
until_complete closing [] rest f = ground arith
until_complete closing (c ∷ name) rest f = ground (arith, until_complete closing name rest f.1)

module _ (isspace : ℕ → Bool) where
  pub skip_space_sound :
      (s : List ℕ) → (ws : List ℕ) × All isspace ws × (s ≡ ws ++ skip_space isspace s)
  skip_space_sound [] = ([], tt, refl)
  skip_space_sound (c ∷ s) = elim (Bool-cases (isspace c)) [
    | inl e ↦
        let (ws, spaces, split) = skip_space_sound s in
        (c ∷ ws, (e, spaces), rw e (ap (λ l. c ∷ l) split))
    | inr e ↦ ([], tt, rw e refl)
  ]

  skip_space_complete :
      (ws : List ℕ) (c : ℕ) (s : List ℕ)
      → All isspace ws
      → isspace c ≡ false
      → skip_space isspace (ws ++ (c ∷ s)) ≡ c ∷ s
  skip_space_complete [] c s a h = rw h refl
  skip_space_complete (w ∷ ws) c s a h = rw a.0 (skip_space_complete ws c s a.1 h)

-- What a line that includes a file consists of: `#`, the word `include` and a separated name, with
-- white space before and after the `#` and at least one white space before the name.
pub record IncludeLine (isspace : ℕ → Bool) (line : List ℕ) (d : IncludeData) : Type 0 where
  pub indent : List ℕ
  pub gap : List ℕ
  pub space : ℕ
  pub margin : List ℕ
  pub opening : ℕ
  pub closing : ℕ
  pub rest : List ℕ
  pub indent_blank : All isspace indent
  pub gap_blank : All isspace gap
  pub space_blank : isspace space ≡ true
  pub margin_blank : All isspace margin
  pub separators : cpp_closing opening ≡ some closing
  pub name_free : Free closing d.string
  pub text :
      line
      ≡ indent
        ++ (35
            ∷ (gap
                ++ (include_word
                    ++ (space ∷ (margin ++ (opening ∷ (d.string ++ (closing ∷ rest))))))))
  pub string_len_eq : d.string_len ≡ length d.string
  pub is_system : d.is_system_include ≡ (62 == closing)
  pub follows : d.should_follow ≡ true

pub next_sound : (s : List ℕ) {r : ℕ × List ℕ} → next s ≡ some r → s ≡ r.0 ∷ r.1
next_sound [] h = ground arith
next_sound (c ∷ s) h = let e = some-injective _ _ h in ap (λ r. r.0 ∷ r.1) e

module _ (isspace : ℕ → Bool) where
  scan_cpp_line_sound :
      (line : List ℕ) {d : IncludeData}
      → scan_cpp_line isspace line ≡ some d
      → IncludeLine isspace line d
  unfolding scan_cpp_line
  scan_cpp_line_sound line {d} h =
      let (indent, indent_blank, split0) = skip_space_sound isspace line in
      let ((hash, s1), e1, h1) = bind-some (next (skip_space isspace line)) h in
      let (is_hash, h1') = check-some (hash == 35) h1 in
      let (gap, gap_blank, split1) = skip_space_sound isspace s1 in
      let (s2, e2, h2) = bind-some (strip_prefix include_word (skip_space isspace s1)) h1' in
      let ((space, s3), e3, h3) = bind-some (next s2) h2 in
      let (space_blank, h3') = check-some (isspace space) h3 in
      let (margin, margin_blank, split3) = skip_space_sound isspace s3 in
      let ((opening, s4), e4, h4) = bind-some (next (skip_space isspace s3)) h3' in
      let (closing, e5, h5) = bind-some (cpp_closing opening) h4 in
      let (name, e6, h6) = bind-some (until closing s4) h5 in
      let (free, (rest, split4)) = until_sound closing s4 {name = name} e6 in
      let same = some-injective _ _ h6 in
      let t1 = next_sound (skip_space isspace line) e1 in
      let hash_is : hash ≡ 35 = ground arith in
      let t2 = strip_prefix_sound include_word (skip_space isspace s1) {rest = s2} e2 in
      let t3 = next_sound s2 e3 in
      let t4 = next_sound (skip_space isspace s3) e4 in
      let name_on = split3 ∙ ap (λ l. margin ++ l) (t4 ∙ ap (λ l. opening ∷ l) split4) in
      let word_on = t2 ∙ ap (λ l. include_word ++ l) (t3 ∙ ap (λ l. space ∷ l) name_on) in
      let hash_on = t1 ∙ ap₂ ◌∷◌ hash_is (split1 ∙ ap (λ l. gap ++ l) word_on) in
      let whole = split0 ∙ ap (λ l. indent ++ l) hash_on in
      subst (λ x. IncludeLine isspace line x) same
        (record {
          indent = indent;
          gap = gap;
          space = space;
          margin = margin;
          opening = opening;
          closing = closing;
          rest = rest;
          indent_blank = indent_blank;
          gap_blank = gap_blank;
          space_blank = space_blank;
          margin_blank = margin_blank;
          separators = e5;
          name_free = free;
          text = whole;
          string_len_eq = refl;
          is_system = refl;
          follows = refl;
        })

  -- Where white space is neither `#`, the first letter of `include` nor a quote, ScanCppLine
  -- yields an include for a line exactly if the line has the form of one, with its name.
  pub scan_cpp_line_iff :
      isspace 35 ≡ false
      → isspace 105 ≡ false
      → isspace 60 ≡ false
      → isspace 34 ≡ false
      → (line : List ℕ) (d : IncludeData)
      → (scan_cpp_line isspace line ≡ some d) ↔ IncludeLine isspace line d
  unfolding scan_cpp_line
  scan_cpp_line_iff hash word angle quote line d = (
    scan_cpp_line_sound line {d = d},
    λ l.
        let open_blank : isspace l.opening ≡ false = ground (arith, l.separators) in
        let r4 : List ℕ = d.string ++ (l.closing ∷ l.rest) in
        let s3 = skip_space_complete isspace l.margin l.opening r4 l.margin_blank open_blank in
        let r2 = l.space ∷ (l.margin ++ (l.opening ∷ r4)) in
        let s1 =
          skip_space_complete isspace l.gap 105 (110 ∷ 99 ∷ 108 ∷ 117 ∷ 100 ∷ 101 ∷ r2) l.gap_blank
            word in
        let s0 =
          skip_space_complete isspace l.indent 35 (l.gap ++ (include_word ++ r2)) l.indent_blank
            hash in
        let e6 = until_complete l.closing d.string l.rest l.name_free in
        rw (l.text, s0, s1, l.space_blank, s3, l.separators, e6)
          (λ i. some (record {
            string = d.string;
            string_len = sym l.string_len_eq i;
            is_system_include = sym l.is_system i;
            should_follow = sym l.follows i;
          })),
  )
