-- ===== src/IncludeScanner/Generic.antt =====
-- The lines that ScanLineGeneric takes for an include, described by what they consist of.
use mathlib.Core.Option.{some-injective}
use tundra.IncludeScanner.{
  IncludeData, KeywordData, GenericScannerData, next, strip_prefix, until, generic_closing,
  skip_space, token, is_nil, find_keyword, generic_name, scan_line_generic,
}
use tundra.IncludeScanner.Directives.{
  All, Free, strip_prefix_sound, until_sound, next_sound, skip_space_sound,
}
use tundra.Prelude.{
  ℕ, Bool, true, false, not, ◌&&◌, ◌≡◌, refl, sym, ap, subst, ◌∙◌, ◌≢◌, inl, inr, ◌⊎◌, none, some,
  List, [], ◌∷◌, ◌++◌, length, take, ◌==◌, ◌%◌, ◌^◌, bind-some, check-some, Bool-cases,
  Option-cases, arith,
}

-- The keyword is the first of the list that stands at the start of the text.
abbrev pub First : List KeywordData → List ℕ → KeywordData → Type 0
First [] s k = ⊥
First (k' ∷ ks) s k =
    ((k ≡ k') × ((rest : List ℕ) × (s ≡ k'.string ++ rest)))
    ⊎ ((strip_prefix k'.string s ≡ none) × First ks s k)

-- The name behind a keyword: between separators, or up to white space where none are used.
pub data Named (isspace : ℕ → Bool) (config : GenericScannerData) (name : List ℕ) (system : Bool)
    : List ℕ → Type 0 where
  separated :
      (s : List ℕ) (opening closing : ℕ) (rest : List ℕ)
      → config.use_separators ≡ true
      → generic_closing opening ≡ some closing
      → Free closing name
      → system ≡ (62 == closing)
      → s ≡ opening ∷ (name ++ (closing ∷ rest))
      → Named isspace config name system s
  bare :
      (s : List ℕ)
      → config.use_separators ≡ false
      → name ≡ token isspace s
      → name ≢ []
      → system ≡ config.bare_means_system
      → Named isspace config name system s

-- What a line that includes a file consists of: white space, one of the keywords, white space and
-- a name, which is kept up to the remainder of its length modulo 2^16.
pub record GenericLine (isspace : ℕ → Bool) (config : GenericScannerData) (line : List ℕ)
    (d : IncludeData) : Type 0 where
  pub indent : List ℕ
  pub keyword : KeywordData
  pub space : ℕ
  pub margin : List ℕ
  pub name : List ℕ
  pub behind : List ℕ
  pub indent_blank : All isspace indent
  pub indented : config.require_whitespace ≡ true → indent ≢ []
  pub first : First config.keywords (keyword.string ++ (space ∷ (margin ++ behind))) keyword
  pub space_blank : isspace space ≡ true
  pub margin_blank : All isspace margin
  pub text : line ≡ indent ++ (keyword.string ++ (space ∷ (margin ++ behind)))
  pub named : Named isspace config name d.is_system_include behind
  pub string_eq : d.string ≡ take (length name % 2 ^ 16) name
  pub string_len_eq : d.string_len ≡ length name % 2 ^ 16
  pub follows : d.should_follow ≡ keyword.should_follow

find_keyword_sound :
    (ks : List KeywordData) (s : List ℕ) {r : KeywordData × List ℕ}
    → find_keyword ks s ≡ some r
    → First ks s r.0 × (s ≡ r.0.string ++ r.1)
unfolding find_keyword
find_keyword_sound [] s h = ground arith
find_keyword_sound (k ∷ ks) s {r} h = elim (Option-cases (strip_prefix k.string s)) [
  | inl e ↦
      let (first, split) = find_keyword_sound ks s {r = r} (rw e at h) in (inr (e, first), split)
  | inr (rest, e) ↦
      let same = some-injective _ _ (rw e at h) in
      let split = strip_prefix_sound k.string s {rest = rest} e in
      rw (sym same) (inl (refl, (rest, split)), split)
]

module _ (isspace : ℕ → Bool) where
  generic_name_sound :
      (config : GenericScannerData) (s : List ℕ) {r : List ℕ × Bool}
      → generic_name isspace config s ≡ some r
      → Named isspace config r.0 r.1 s
  unfolding generic_name is_nil
  generic_name_sound config s {r} h = elim (Bool-cases config.use_separators) [
    | inl e ↦
        let ((opening, s'), e1, h1) = bind-some (next s) (rw e at h) in
        let (closing, e2, h2) = bind-some (generic_closing opening) h1 in
        let (name, e3, h3) = bind-some (until closing s') h2 in
        let (free, (rest, split)) = until_sound closing s' {name = name} e3 in
        let same = some-injective _ _ h3 in
        let text = next_sound s e1 ∙ ap (λ l. opening ∷ l) split in
        subst (λ x. Named isspace config x.0 x.1 s) same
          (Named.separated s opening closing rest e e2 free refl text)
    | inr e ↦
        let (more, h1) = check-some (not (is_nil (token isspace s))) (rw e at h) in
        let same = some-injective _ _ h1 in
        let some_token : token isspace s ≢ [] = λ n. ground arith in
        subst (λ x. Named isspace config x.0 x.1 s) same (Named.bare s e refl some_token refl)
  ]

  -- A line for which ScanLineGeneric yields an include has the form of one: it begins with white
  -- space if that is required, then has the first of the keywords that stands there, white space
  -- and a name, between separators or up to white space as the configuration says; the include has
  -- this name, up to the remainder of its length modulo 2^16, and what the keyword says.
  pub scan_line_generic_sound :
      (config : GenericScannerData) (line : List ℕ) {d : IncludeData}
      → scan_line_generic isspace config line ≡ some d
      → GenericLine isspace config line d
  unfolding scan_line_generic
  scan_line_generic_sound config line {d} h =
      let start = skip_space isspace line in
      let (indent, indent_blank, split0) = skip_space_sound isspace line in
      let (begins, h0) =
        check-some (not (config.require_whitespace && (length start == length line))) h in
      let ((keyword, s1), e1, h1) = bind-some (find_keyword config.keywords start) h0 in
      let (first, split1) = find_keyword_sound config.keywords start e1 in
      let ((space, s2), e2, h2) = bind-some (next s1) h1 in
      let (space_blank, h3) = check-some (isspace space) h2 in
      let (margin, margin_blank, split2) = skip_space_sound isspace s2 in
      let ((name, system), e4, h4) =
        bind-some (generic_name isspace config (skip_space isspace s2)) h3 in
      let behind = skip_space isspace s2 in
      let named = generic_name_sound config behind e4 in
      let same = some-injective _ _ h4 in
      let t2 : s1 ≡ space ∷ (margin ++ behind) = next_sound s1 e2 ∙ ap (λ l. space ∷ l) split2 in
      let t1 : start ≡ keyword.string ++ (space ∷ (margin ++ behind)) =
        split1 ∙ ap (λ l. keyword.string ++ l) t2 in
      let indented : config.require_whitespace ≡ true → indent ≢ [] =
        λ r n. ground (arith, ap length (split0 ∙ ap (λ l. l ++ start) n)) in
      subst (λ x. GenericLine isspace config line x) same
        (record {
          indent = indent;
          keyword = keyword;
          space = space;
          margin = margin;
          name = name;
          behind = behind;
          indent_blank = indent_blank;
          indented = indented;
          first = subst (λ l. First config.keywords l keyword) t1 first;
          space_blank = space_blank;
          margin_blank = margin_blank;
          text = split0 ∙ ap (λ l. indent ++ l) t1;
          named = named;
          string_eq = refl;
          string_len_eq = refl;
          follows = refl;
        })
