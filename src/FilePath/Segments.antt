-- ===== src/FilePath/Segments.antt =====
-- What the copying loop of PathInit stores, and what can be read back out of a path buffer.
use tundra.FilePath.{PathSeg, segments_after}
use tundra.FilePath.Normal.{kept}
use tundra.Prelude.{ℕ, ◌≡◌, List, [], ◌∷◌, ◌++◌, length, drop, if◌then◌else◌}

-- All bytes that are copied of the segments.
kept_bytes : List PathSeg → List ℕ
kept_bytes [] = []
kept_bytes (s ∷ ss) = if s.drop then kept_bytes ss else s.text ++ kept_bytes ss

-- The copies follow what had been copied before, and read back as the segments that were kept.
abbrev Copied : List PathSeg → List ℕ → List ℕ → List ℕ → Type 0
Copied ss bytes ends all =
    (all ≡ bytes ++ kept_bytes ss) × (segments_after (length bytes) ends all ≡ kept ss)
