-- ===== src/IncludeScanner.antt =====
-- src/IncludeScanner.cpp: the search of a file's text for the files that it includes. A C string is
-- the list of its characters without the terminating zero. `isspace` is the C library's, a
-- parameter. The results are copied into memory of a linear allocator, which is not modelled here.
pub mod Lines
pub mod Directives
pub mod Generic
use tundra.Prelude.{
  ℕ, zero, suc, ◌+◌, ◌*◌, ◌%◌, ◌^◌, Bool, true, false, not, ◌&&◌, List, [], ◌∷◌, ◌++◌, Option, none,
  some, if◌then◌else◌, ◌==◌, length, take, ◌>>=◌, ◌>>◌, check,
}

pub record IncludeData : Type 0 where
  pub string : List ℕ
  pub string_len : ℕ
  pub is_system_include : Bool
  pub should_follow : Bool

-- `*start++`: the character and what is behind it. There is none at the terminating zero, where
-- each of the functions below returns.
abbrev pub next : List ℕ → Option (ℕ × List ℕ)
next [] = none
next (c ∷ s) = some (c, s)

-- `strncmp(prefix, s, length of prefix)` is 0: what is behind the prefix.
abbrev pub strip_prefix : List ℕ → List ℕ → Option (List ℕ)
strip_prefix [] s = some s
strip_prefix (c ∷ cs) [] = none
strip_prefix (c ∷ cs) (x ∷ xs) = let rest = strip_prefix cs xs in if c == x then rest else none

-- The loop that looks for the closing separator: the text before it.
abbrev pub until : ℕ → List ℕ → Option (List ℕ)
until closing [] = none
until closing (ch ∷ s) =
    let rest = until closing s in
    if ch == closing then some [] else rest >>= (λ name. some (ch ∷ name))

-- `include`
abbrev pub include_word : List ℕ
include_word = 105 ∷ 110 ∷ 99 ∷ 108 ∷ 117 ∷ 100 ∷ 101 ∷ []

-- The closing separator of ScanCppLine: `>` for `<` and `"` for `"`.
abbrev pub cpp_closing : ℕ → Option ℕ
cpp_closing c = if c == 60 then some 62 else if c == 34 then some 34 else none

-- The closing separator of ScanLineGeneric, which also has `<` for `>`.
abbrev pub generic_closing : ℕ → Option ℕ
generic_closing c =
    if c == 60 then some 62 else if c == 62 then some 60 else if c == 34 then some 34 else none

-- A keyword; m_StringLength is its length.
pub record KeywordData : Type 0 where
  pub string : List ℕ
  pub should_follow : Bool

pub record GenericScannerData : Type 0 where
  pub require_whitespace : Bool
  pub use_separators : Bool
  pub bare_means_system : Bool
  pub keywords : List KeywordData

-- GetNextLine: the line, and the text behind its line feed if it has one.
unfoldable pub get_next_line : List ℕ → List ℕ × Option (List ℕ)
get_next_line [] = ([], none)
get_next_line (c ∷ p) =
    let (line, behind) = get_next_line p in if c == 10 then ([], some p) else (c ∷ line, behind)

-- The loop over the lines of ScanIncludesCpp and ScanIncludesGeneric, each with its scanner of a
-- line; m_Next links the results in this order.
unfoldable pub scan_lines :
    (List ℕ → Option IncludeData) → ℕ → Option (List ℕ) → Option (List IncludeData)
unfolding get_next_line
scan_lines scan zero linep = none
scan_lines scan (suc fuel) none = some []
scan_lines scan (suc fuel) (some p) =
    let (line, behind) = get_next_line p in
    scan_lines scan fuel behind
    >>= (λ found. elim (scan line) [ none ↦ some found | some d ↦ some (d ∷ found) ])

-- The keyword where it stands at the start, or what the others give.
abbrev pub keyword_or :
    KeywordData → Option (List ℕ) → Option (KeywordData × List ℕ) → Option (KeywordData × List ℕ)
keyword_or k none rest = rest
keyword_or k (some behind) rest = some (k, behind)

-- The loop over the keywords: the first that stands at the start, and what is behind it.
unfoldable pub find_keyword : List KeywordData → List ℕ → Option (KeywordData × List ℕ)
find_keyword [] s = none
find_keyword (k ∷ ks) s =
    let rest = find_keyword ks s in keyword_or k (strip_prefix k.string s) rest

is_nil : List ℕ → Bool
is_nil [] = true
is_nil (c ∷ s) = false

module _ (isspace : ℕ → Bool) where
  -- `while (isspace(*start)) ++start;`
  abbrev pub skip_space : List ℕ → List ℕ
  skip_space [] = []
  skip_space (c ∷ s) = let rest = skip_space s in if isspace c then rest else c ∷ s

  -- ScanCppLine
  unfoldable pub scan_cpp_line : List ℕ → Option IncludeData
  scan_cpp_line line = do
    (hash, s1) ← next (skip_space line)
    check (hash == 35)
    s2 ← strip_prefix include_word (skip_space s1)
    (space, s3) ← next s2
    check (isspace space)
    (opening, s4) ← next (skip_space s3)
    closing ← cpp_closing opening
    name ← until closing s4
    some (record {
      string = name;
      string_len = length name;
      is_system_include = 62 == closing;
      should_follow = true;
    })

  -- `while (*start && !isspace(*start)) ++start;`
  abbrev pub token : List ℕ → List ℕ
  token [] = []
  token (c ∷ s) = let rest = token s in if isspace c then [] else c ∷ rest

  -- The name behind the keyword and whether it is a system include.
  unfoldable pub generic_name : GenericScannerData → List ℕ → Option (List ℕ × Bool)
  unfolding is_nil
  generic_name config s =
      if config.use_separators
      then (do
        (opening, s') ← next s
        closing ← generic_closing opening
        name ← until closing s'
        some (name, 62 == closing))
      else (do check (not (is_nil (token s))); some (token s, config.bare_means_system))

  -- ScanLineGeneric; the length is cut to an `unsigned short`, and so is the copy of the name.
  unfoldable pub scan_line_generic : GenericScannerData → List ℕ → Option IncludeData
  unfolding find_keyword generic_name
  scan_line_generic config start_in = do
    let start = skip_space start_in
    check (not (config.require_whitespace && (length start == length start_in)))
    (keyword, s1) ← find_keyword config.keywords start
    (space, s2) ← next s1
    check (isspace space)
    (name, is_system) ← generic_name config (skip_space s2)
    let string_len = length name % 2 ^ 16
    some (record {
      string = take string_len name;
      string_len = string_len;
      is_system_include = is_system;
      should_follow = keyword.should_follow;
    })

  unfoldable pub scan_includes_cpp : List ℕ → Option (List IncludeData)
  unfolding scan_lines scan_cpp_line
  scan_includes_cpp buffer = scan_lines (scan_cpp_line) (length buffer + 2) (some buffer)

  unfoldable pub scan_includes_generic : GenericScannerData → List ℕ → Option (List IncludeData)
  unfolding scan_lines scan_line_generic
  scan_includes_generic config buffer =
      scan_lines (scan_line_generic config) (length buffer + 2) (some buffer)
