-- ===== src/Tests/OfFiles.antt =====
-- The file `s/a.c` with the line `#include "b"`, with `i` as the only include path.
use tundra.FilePath.{
  PathType, path_init, path_strip_last, get_segments, path_prefix, copy_segments, drop_dot_dots,
  climb, buffer_size, shift_ends,
}
use tundra.IncludeScanner.{IncludeData, include_word}
use tundra.Scanner.{
  ScannerType, ScannerData, Candidates, candidates, firsts, scan_includes, scan_file, path_in,
  scan_file-firsts,
}
use tundra.Prelude.Strings.{same_string}
use tundra.Prelude.{
  ℕ, Bool, true, false, ◌||◌, ◌&&◌, leb, ◌==◌, ◌≡◌, refl, List, [], ◌∷◌, ◌++◌, some,
}

abbrev c_isspace : ℕ → Bool
c_isspace c = c == 32 || (leb 9 c && leb c 13)

abbrev file_name : List ℕ
file_name = b's' ∷ b'/' ∷ b'a' ∷ []

abbrev beside_path : List ℕ
beside_path = b's' ∷ b'/' ∷ b'b' ∷ []

abbrev searched_path : List ℕ
searched_path = b'i' ∷ b'/' ∷ b'b' ∷ []

abbrev only_searched : List ℕ → Bool
only_searched path = same_string path searched_path

abbrev config_i : ScannerData
config_i = record { scanner_type = ScannerType.cpp; include_paths = (b'i' ∷ []) ∷ [] }

abbrev include_b : IncludeData
include_b = record {
  string = b'b' ∷ [];
  string_len = 1;
  is_system_include = false;
  should_follow = true;
}

abbrev line_b : List ℕ
line_b = 35 ∷ (include_word ++ (32 ∷ 34 ∷ b'b' ∷ 34 ∷ []))

line_b_scanned : scan_includes c_isspace config_i.scanner_type line_b ≡ some (include_b ∷ [])
unfolding scan_includes
line_b_scanned = refl

candidates_b :
    candidates PathType.unix file_name config_i include_b ≡ some (beside_path ∷ searched_path ∷ [])
unfolding path_init path_in path_strip_last get_segments path_prefix copy_segments drop_dot_dots
    climb buffer_size shift_ends
candidates_b = refl

scan_file-firsts_example :
    scan_file PathType.unix only_searched c_isspace file_name config_i line_b
    ≡ some (firsts only_searched ((beside_path ∷ searched_path ∷ []) ∷ []))
scan_file-firsts_example =
    scan_file-firsts PathType.unix only_searched c_isspace file_name config_i line_b
      (include_b ∷ []) ((beside_path ∷ searched_path ∷ []) ∷ []) line_b_scanned
      (Candidates.one_more candidates_b Candidates.none_left)

found_b : firsts only_searched ((beside_path ∷ searched_path ∷ []) ∷ []) ≡ searched_path ∷ []
unfolding same_string
found_b = refl
