-- ===== src/Tests/OfScanner.antt =====
-- The text `#include <a>`, as a line of C and by a keyword, and a buffer of two lines.
use tundra.IncludeScanner.{
  IncludeData, GenericScannerData, include_word, scan_cpp_line, scan_line_generic,
  scan_includes_cpp, scan_includes_generic,
}
use tundra.IncludeScanner.Lines.{lines, all_found, scan_includes_cpp-lines}
use tundra.IncludeScanner.Directives.{IncludeLine, scan_cpp_line_iff}
use tundra.IncludeScanner.Generic.{GenericLine, scan_line_generic_sound}
use tundra.Prelude.{
  ℕ, Bool, true, false, ◌||◌, ◌&&◌, leb, ◌==◌, ◌≡◌, refl, ◌↔◌, List, [], ◌∷◌, ◌++◌, some,
}

-- `isspace` of the C locale
abbrev c_isspace : ℕ → Bool
c_isspace c = c == 32 || (leb 9 c && leb c 13)

abbrev line_a : List ℕ
line_a = 35 ∷ (include_word ++ (32 ∷ 60 ∷ 97 ∷ 62 ∷ []))

abbrev data_a : IncludeData
data_a = record { string = 97 ∷ []; string_len = 1; is_system_include = true; should_follow = true }

abbrev two_lines : List ℕ
two_lines = line_a ++ (10 ∷ (32 ∷ 32 ∷ line_a))

abbrev by_keyword : GenericScannerData
by_keyword = record {
  require_whitespace = false;
  use_separators = true;
  bare_means_system = false;
  keywords = record { string = 35 ∷ include_word; should_follow = true } ∷ [];
}

abbrev bare_keyword : GenericScannerData
bare_keyword = record by_keyword { require_whitespace = true; use_separators = false }

cpp_runs : scan_includes_cpp c_isspace two_lines ≡ some (data_a ∷ data_a ∷ [])
unfolding scan_includes_cpp
cpp_runs = refl

generic_runs : scan_includes_generic c_isspace by_keyword two_lines ≡ some (data_a ∷ data_a ∷ [])
unfolding scan_includes_generic
generic_runs = refl

bare_runs :
    scan_includes_generic c_isspace bare_keyword two_lines
    ≡ some (
        record {
          string = 60 ∷ 97 ∷ 62 ∷ [];
          string_len = 3;
          is_system_include = false;
          should_follow = true;
        }
        ∷ [])
unfolding scan_includes_generic
bare_runs = refl

scan_cpp_line_iff_example :
    (scan_cpp_line c_isspace line_a ≡ some data_a) ↔ IncludeLine c_isspace line_a data_a
scan_cpp_line_iff_example = scan_cpp_line_iff c_isspace refl refl refl refl line_a data_a

scan_includes_cpp-lines_example :
    scan_includes_cpp c_isspace two_lines
    ≡ some (all_found (scan_cpp_line c_isspace) (lines two_lines))
scan_includes_cpp-lines_example = scan_includes_cpp-lines c_isspace two_lines

generic_finds : scan_line_generic c_isspace by_keyword line_a ≡ some data_a
unfolding scan_line_generic
generic_finds = refl

scan_line_generic_sound_example : GenericLine c_isspace by_keyword line_a data_a
scan_line_generic_sound_example =
    scan_line_generic_sound c_isspace by_keyword line_a {d = data_a} generic_finds
