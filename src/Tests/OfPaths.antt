-- ===== src/Tests/OfPaths.antt =====
-- Paths: `a/../../b`, `ab/cd` and `ab/xy`.
use tundra.FilePath.{PathType, PathBuffer, path_eq}
use tundra.FilePath.Buffers.{path_eq_unsound, two_segments}
use tundra.Prelude.{ℕ, ◌≡◌, refl, true, false, List, [], ◌∷◌, arith}

abbrev dotted : List ℕ
dotted = b'a' ∷ b'/' ∷ b'.' ∷ b'.' ∷ b'/' ∷ b'.' ∷ b'.' ∷ b'/' ∷ b'b' ∷ []

abbrev up_b : PathBuffer
up_b = record {
  type = PathType.unix;
  absolute = false;
  windows_device_path = false;
  leading_dot_dots = 1;
  seg_ends = 1 ∷ [];
  bytes = b'b' ∷ [];
}

path_eq_unsound_example :
    path_eq
      (two_segments up_b (b'a' ∷ b'b' ∷ []) (b'c' ∷ b'd' ∷ []))
      (two_segments up_b (b'a' ∷ b'b' ∷ []) (b'x' ∷ b'y' ∷ []))
    ≡ true
path_eq_unsound_example =
    path_eq_unsound up_b (b'a' ∷ b'b' ∷ []) (b'c' ∷ b'd' ∷ []) (b'x' ∷ b'y' ∷ []) refl (omega arith)
