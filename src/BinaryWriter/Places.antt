-- ===== src/BinaryWriter/Places.antt =====
-- Where a writer's pointers and their targets stand in the file.
use tundra.BinaryWriter.{
  BinaryLocator, BinaryFixup, BinarySegment, BinaryWriter, no_segment, relocation, target_pos,
  binary_segment_align, frozen_ptr_get,
}
use tundra.BinaryWriter.Fixups.{Laid, IsPlain, Laid-bound, distance, HasFar}
use tundra.BinaryWriter.Segments.{IsPosition, Aimed, IsWriter}
use tundra.BinaryWriter.Layout.{
  contents, start, aligned, placed, start-bound, global_positions-at, length-aligned,
  get_or-aligned, binary_segment_align_lem,
}
use tundra.BinaryWriter.Pointers.{near_iff}
use tundra.Prelude.{
  ℕ, zero, suc, ◌+◌, ◌%◌, ◌^◌, ◌≤◌, ◌<◌, ◌≡◌, ◌≢◌, ◌⊎◌, inl, inr, refl, sym, ap, ◌∙◌, List, [], ◌∷◌,
  length, get_or, arith,
}

abbrev pub no_fixup : BinaryFixup
no_fixup = record { pointer_offset = 0; target = record { seg_index = 0; offset = 0 } }

-- The position in the file that a locator stands for.
abbrev pub position : BinaryWriter → BinaryLocator → ℕ
position w locator = start (aligned w) locator.seg_index + locator.offset

-- Both ends of a pointer of segment `i`.
abbrev pub source_of : BinaryWriter → ℕ → BinaryFixup → ℕ
source_of w i fixup = start (aligned w) i + fixup.pointer_offset

abbrev pub dest_of : BinaryWriter → BinaryFixup → ℕ
dest_of w fixup = position w fixup.target

-- Positions whose distance has no 32 bits.
abbrev pub IsApart : ℕ → ℕ → Type 0
IsApart s d = (d + 2 ^ 31 < s) ⊎ (s + 2 ^ 31 ≤ d)

-- Some pointer and its target are too far apart.
abbrev pub IsTooBig : BinaryWriter → Type 0
IsTooBig w =
    (i : ℕ) × (k : ℕ) × (i < length w)
    × (k < length (get_or w i no_segment).fixups.elements)
    × (let fixup = get_or (get_or w i no_segment).fixups.elements k no_fixup in
        IsApart (source_of w i fixup) (dest_of w fixup))

-- A pointer, read where the file is mapped at any address, gives the address of its target.
abbrev pub Points : BinaryWriter → List ℕ → ℕ → BinaryFixup → Type 0
Points w file i fixup =
    (source_of w i fixup ≤ dest_of w fixup + 2 ^ 31)
    × (dest_of w fixup < source_of w i fixup + 2 ^ 31)
    × ((address : ℕ)
        → (source_of w i fixup ≢ dest_of w fixup
            → frozen_ptr_get address file (source_of w i fixup)
              ≡ (address + dest_of w fixup) % 2 ^ 64)
          × (source_of w i fixup ≡ dest_of w fixup
              → frozen_ptr_get address file (source_of w i fixup) ≡ 0))

abbrev pub IsFile : BinaryWriter → List ℕ → Type 0
IsFile w file =
    (i : ℕ)
    → i < length w
    → let seg = get_or w i no_segment in
      (start (aligned w) i % 16 ≡ 0)
      × ((k : ℕ)
          → k < length seg.fixups.elements
          → Points w file i (get_or seg.fixups.elements k no_fixup))
      × ((p : ℕ)
          → p < length seg.bytes.elements
          → IsPlain p seg.fixups.elements
          → get_or file (start (aligned w) i + p) 0 ≡ get_or seg.bytes.elements p 0)

pub Aimed-at :
    (w : BinaryWriter) (fs : List BinaryFixup) (k : ℕ)
    → k < length fs
    → Aimed w fs
    → IsPosition w (get_or fs k no_fixup).target
Aimed-at w [] k lt h = absurd (omega arith)
Aimed-at w (f ∷ fs) zero lt (h, t) = h
Aimed-at w (f ∷ fs) (suc k) lt (h, t) = Aimed-at w fs k (omega arith) t

pub Laid-at :
    (lo n : ℕ) (fs : List BinaryFixup) (k : ℕ)
    → k < length fs
    → Laid lo n fs
    → (get_or fs k no_fixup).pointer_offset + 4 ≤ n
Laid-at lo n [] k lt h = absurd (omega arith)
Laid-at lo n (f ∷ fs) zero lt (h, t) = Laid-bound (f.pointer_offset + 4) n fs t
Laid-at lo n (f ∷ fs) (suc k) lt (h, t) = Laid-at (f.pointer_offset + 4) n fs k (omega arith) t

module _ (w : BinaryWriter) (all : IsWriter w)
    (small : length (contents (aligned w)) < 2 ^ 63) where
  pub placed-at :
      (i : ℕ)
      → i < length w
      → get_or (placed w) i no_segment ≡ record (binary_segment_align (get_or w i no_segment) 16) {
        global_offset = 0 + start (aligned w) i;
      }
  placed-at i lt =
      global_positions-at (aligned w) 0 i (omega arith) (omega (arith, length-aligned w))
      ∙ ap {A = BinarySegment} {B = BinarySegment}
          (λ s. record s { global_offset = 0 + start (aligned w) i }) (get_or-aligned w i lt)

  pub bytes-placed :
      (i : ℕ)
      → i < length w
      → length (get_or (placed w) i no_segment).bytes.elements
        ≡ length (get_or (aligned w) i no_segment).bytes.elements
  bytes-placed i lt =
      ap (λ s. length s.bytes.elements) (placed-at i lt)
      ∙ ap (λ s. length s.bytes.elements) (sym (get_or-aligned w i lt))

  pub segment-bound :
      (i : ℕ)
      → i < length w
      → start (aligned w) i + length (get_or w i no_segment).bytes.elements
        ≤ length (contents (aligned w))
  segment-bound i lt =
      let below = start-bound (aligned w) i (omega (arith, length-aligned w)) in
      let longer = (binary_segment_align_lem (get_or w i no_segment)).1 in
      let e = ap (λ s. length s.bytes.elements) (get_or-aligned w i lt) in
      omega (arith, below, longer, e)

  pub dest-bound :
      (f : BinaryFixup) → IsPosition w f.target → dest_of w f ≤ length (contents (aligned w))
  dest-bound f at = omega (arith, segment-bound f.target.seg_index at.0, at.1)

  pub distance-placed :
      (i : ℕ) (f : BinaryFixup)
      → source_of w i f < 2 ^ 63
      → IsPosition w f.target
      → distance (0 + start (aligned w) i) (placed w) f ≡ relocation (source_of w i f) (dest_of w f)
  unfolding target_pos
  distance-placed i f low at =
      let s : (0 + start (aligned w) i + f.pointer_offset) % 2 ^ 64 ≡ source_of w i f =
        omega arith in
      let g = ap (λ t. t.global_offset) (placed-at f.target.seg_index at.0) in
      let d : target_pos (placed w) f.target ≡ dest_of w f =
        ap (λ t. (t + f.target.offset) % 2 ^ 64) g ∙ omega (arith, dest-bound f at) in
      rw (s, d) refl

  pub far-at :
      (i : ℕ) (fs : List BinaryFixup) (lo n : ℕ)
      → start (aligned w) i + n < 2 ^ 63
      → Laid lo n fs
      → Aimed w fs
      → HasFar (0 + start (aligned w) i) (placed w) fs
      → (k : ℕ) × (k < length fs)
        × IsApart (source_of w i (get_or fs k no_fixup)) (dest_of w (get_or fs k no_fixup))
  far-at i [] lo n room laid aimed far = absurd far
  far-at i (f ∷ fs) lo n room (h, t) (at, aimed) (inl far) =
      let low : source_of w i f < 2 ^ 63 =
        omega (arith, Laid-bound (f.pointer_offset + 4) n fs t) in
      let e = distance-placed i f low at in
      let near =
        (near_iff (source_of w i f) (dest_of w f) low (omega (arith, dest-bound f at))).1 in
      (0, omega arith, ground (arith, near, e, far))
  far-at i (f ∷ fs) lo n room (h, t) (at, aimed) (inr far) =
      let (k, lt, apart) = far-at i fs (f.pointer_offset + 4) n room t aimed far in
      (suc k, omega arith, apart)
