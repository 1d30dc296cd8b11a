-- ===== src/FilePath/Buffers.antt =====
-- Stripping and comparing path buffers.
use tundra.FilePath.{
  PathBuffer, path_strip_last, path_eq, same_bytes, seg_length, segments, segments_after,
  min_seg_count,
}
use tundra.Prelude.{
  ℕ, zero, suc, ◌+◌, ◌-◌, ◌≤◌, ◌<◌, ◌≡◌, ◌⊎◌, inl, inr, Bool-cases, refl, ap, true, false, List, [],
  ◌∷◌, ◌++◌, length, take, drop, ltb, arith,
}

segments_after-take :
    (n start : ℕ) (ends bytes : List ℕ)
    → segments_after start (take n ends) bytes ≡ take n (segments_after start ends bytes)
unfolding segments_after
segments_after-take zero start ends bytes = refl
segments_after-take (suc n) start [] bytes = refl
segments_after-take (suc n) start (e ∷ es) bytes =
    ap (λ l. take (e - start) (drop start bytes) ∷ l) (segments_after-take n e es bytes)

length-segments :
    (start : ℕ) (ends bytes : List ℕ) → length (segments_after start ends bytes) ≡ length ends
unfolding segments_after
length-segments start [] bytes = refl
length-segments start (e ∷ es) bytes = ap suc (length-segments e es bytes)

-- Stripping removes exactly the last segment and says so, unless only the root is left: then it
-- changes nothing and says that.
pub path_strip_last-segments :
    (b : PathBuffer)
    → let (stripped, b') = path_strip_last b in
      ((min_seg_count b < length (segments b))
        × (stripped ≡ true)
        × (segments b' ≡ take (length (segments b) - 1) (segments b)))
      ⊎ ((length (segments b) ≤ min_seg_count b) × (stripped ≡ false) × (b' ≡ b))
unfolding path_strip_last segments
path_strip_last-segments b =
    let count = length b.seg_ends in
    let len = length-segments 0 b.seg_ends b.bytes in
    elim (Bool-cases (ltb (min_seg_count b) count)) [
      | inl h ↦ inl (
        ground (arith, len),
        ground arith,
        ground (
          arith,
          len,
          segments_after-take (count - 1) 0 b.seg_ends b.bytes,
          ap (λ n. take (n - 1) (segments_after 0 b.seg_ends b.bytes)) len,
        ),
      )
      | inr h ↦ inr (ground (arith, len), ground arith, ground arith)
    ]

-- memcmp of a common beginning
same_bytes_prefix : (n : ℕ) (d s t : List ℕ) → n ≤ length d → same_bytes n (d ++ s) (d ++ t) ≡ true
unfolding same_bytes
same_bytes_prefix zero d s t h = refl
same_bytes_prefix (suc n) [] s t h = absurd (omega arith)
same_bytes_prefix (suc n) (x ∷ d) s t h = ground (arith, same_bytes_prefix n d s t)

same_bytes_refl : (n : ℕ) (d : List ℕ) → same_bytes n d d ≡ true
unfolding same_bytes
same_bytes_refl zero d = refl
same_bytes_refl (suc n) d = ground (arith, same_bytes_refl n (drop 1 d))

-- A buffer of two segments.
abbrev pub two_segments : PathBuffer → List ℕ → List ℕ → PathBuffer
two_segments b d s = record b { seg_ends = length d ∷ (length d + length s) ∷ []; bytes = d ++ s }

-- The comparison reads only as many bytes as the last segment has: paths of two segments whose
-- last ones have the same length, which is not above that of the common first one, are taken for
-- equal, whatever the last segments are.
pub path_eq_unsound :
    (b : PathBuffer) (d s t : List ℕ)
    → length s ≡ length t
    → length s ≤ length d
    → path_eq (two_segments b d s) (two_segments b d t) ≡ true
unfolding path_eq seg_length same_bytes
path_eq_unsound b d s t h k =
    let e : length d + length s - length d ≡ length s = omega arith in
    ground (arith, ap (λ n. same_bytes n (d ++ s) (d ++ t)) e, same_bytes_prefix (length s) d s t k)
