-- ===== src/BinaryWriter/Fixups.antt =====
-- The loop over the fixups of a segment: where it croaks, and the bytes that it leaves.
use tundra.Prelude.Bytes.{
  to_bytes, overwrite, read_bytes, length-to_bytes, length-overwrite, get_or-overwrite_ne,
  read_bytes-overwrite, read_bytes-ext,
}
use tundra.BinaryWriter.{
  BinaryFixup, BinarySegment, sign_extend, relocation, target_pos, fixup_pointer, fixup_pointers,
}
use tundra.Prelude.{
  ℕ, zero, suc, ◌+◌, ◌%◌, ◌^◌, ◌≤◌, ◌<◌, ◌≡◌, ◌≢◌, ◌⊎◌, inl, inr, refl, ◌∙◌, List, [], ◌∷◌, Option,
  none, some, length, get_or, ◌==◌, Bool-cases, arith,
}

-- The pointers lie one behind the other, from `lo` on and within `n` bytes.
abbrev pub Laid : ℕ → ℕ → List BinaryFixup → Type 0
Laid lo n [] = lo ≤ n
Laid lo n (fixup ∷ fixups) = (lo ≤ fixup.pointer_offset) × Laid (fixup.pointer_offset + 4) n fixups

-- The byte at a position belongs to no pointer.
abbrev pub IsPlain : ℕ → List BinaryFixup → Type 0
IsPlain p [] = Unit
IsPlain p (fixup ∷ fixups) =
    ((p < fixup.pointer_offset) ⊎ (fixup.pointer_offset + 4 ≤ p)) × IsPlain p fixups

pub Laid-bound : (lo n : ℕ) (fixups : List BinaryFixup) → Laid lo n fixups → lo ≤ n
Laid-bound lo n [] h = h
Laid-bound lo n (f ∷ fs) (h, t) = omega (arith, Laid-bound (f.pointer_offset + 4) n fs t)

IsPlain-below :
    (p lo n : ℕ) (fixups : List BinaryFixup) → p < lo → Laid lo n fixups → IsPlain p fixups
IsPlain-below p lo n [] lt h = tt
IsPlain-below p lo n (f ∷ fs) lt (h, t) =
    (inl (omega arith), IsPlain-below p (f.pointer_offset + 4) n fs (omega arith) t)

module _ (base : ℕ) (segs : List BinarySegment) where
  -- `dest_pos - source_pos` of a fixup
  abbrev pub distance : BinaryFixup → ℕ
  distance f = relocation ((base + f.pointer_offset) % 2 ^ 64) (target_pos segs f.target)

  -- The distance to the target has 32 bits.
  abbrev pub IsNear : BinaryFixup → Type 0
  IsNear f = sign_extend (distance f % 2 ^ 32) ≡ distance f

  -- What a list of fixups makes of a segment's bytes: each pointer holds its distance, and the other
  -- bytes are as they were.
  abbrev pub Relocated : List BinaryFixup → List ℕ → List ℕ → Type 0
  Relocated fixups bytes bytes' =
      (length bytes' ≡ length bytes)
      × ((k : ℕ) (d : BinaryFixup)
          → k < length fixups
          → IsNear (get_or fixups k d)
            × (read_bytes 4 bytes' (get_or fixups k d).pointer_offset
                ≡ distance (get_or fixups k d) % 2 ^ 32))
      × ((p : ℕ) → IsPlain p fixups → get_or bytes' p 0 ≡ get_or bytes p 0)

  -- Some fixup is not near.
  abbrev pub HasFar : List BinaryFixup → Type 0
  HasFar [] = ⊥
  HasFar (f ∷ fs) = (sign_extend (distance f % 2 ^ 32) ≢ distance f) ⊎ HasFar fs

  abbrev pub Fixed : List BinaryFixup → List ℕ → Option (List ℕ) → Type 0
  Fixed fixups bytes none = HasFar fixups
  Fixed fixups bytes (some bytes') = Relocated fixups bytes bytes'

  abbrev patched : BinaryFixup → List ℕ → List ℕ
  patched f bytes = overwrite bytes f.pointer_offset (to_bytes 4 (distance f % 2 ^ 32))

  Relocated-cons :
      (f : BinaryFixup) (fs : List BinaryFixup) (n : ℕ) (bytes bytes' : List ℕ)
      → n ≤ length bytes
      → Laid (f.pointer_offset + 4) n fs
      → IsNear f
      → Relocated fs (patched f bytes) bytes'
      → Relocated (f ∷ fs) bytes bytes'
  Relocated-cons f fs n bytes bytes' room laid near (len, pointers, others) =
      let delta32 = distance f % 2 ^ 32 in
      let at = f.pointer_offset in
      let inside = Laid-bound (at + 4) n fs laid in
      let head : read_bytes 4 bytes' at ≡ delta32 =
        read_bytes-ext 4 bytes' (patched f bytes) at at
          (λ p lt. others (at + p) (IsPlain-below (at + p) (at + 4) n fs (omega arith) laid))
        ∙ read_bytes-overwrite 4 delta32 bytes at (omega arith) (omega arith) in
      (
        len ∙ length-overwrite bytes at (to_bytes 4 delta32),
        chosen head,
        λ p plain.
            others p plain.1
            ∙ get_or-overwrite_ne bytes at (to_bytes 4 delta32) p 0
                (ground (arith, plain.0, length-to_bytes 4 delta32)),
      )
    where
      chosen :
          (read_bytes 4 bytes' f.pointer_offset ≡ distance f % 2 ^ 32)
          → (k : ℕ) (d : BinaryFixup) → k < suc (length fs)
          → IsNear (get_or (f ∷ fs) k d)
            × (read_bytes 4 bytes' (get_or (f ∷ fs) k d).pointer_offset
                ≡ distance (get_or (f ∷ fs) k d) % 2 ^ 32)
      chosen head zero d lt = (near, head)
      chosen head (suc k) d lt = pointers k d (omega arith)

  Fixed-cons :
      (f : BinaryFixup) (fs : List BinaryFixup) (n : ℕ) (bytes : List ℕ)
      → n ≤ length bytes
      → Laid (f.pointer_offset + 4) n fs
      → IsNear f
      → (r : Option (List ℕ)) → Fixed fs (patched f bytes) r
      → Fixed (f ∷ fs) bytes r
  Fixed-cons f fs n bytes room laid near none far = inr far
  Fixed-cons f fs n bytes room laid near (some bytes') r =
      Relocated-cons f fs n bytes bytes' room laid near r

  -- The loop croaks only over a pointer whose distance has no 32 bits; else every distance has, each
  -- pointer holds it, and the bytes outside the pointers are untouched.
  pub fixup_pointers-Fixed :
      (fixups : List BinaryFixup) (lo n : ℕ) (bytes : List ℕ)
      → n ≤ length bytes
      → Laid lo n fixups
      → Fixed fixups bytes (fixup_pointers base segs fixups bytes)
  unfolding fixup_pointers fixup_pointer
  fixup_pointers-Fixed [] lo n bytes room laid =
      (refl, λ k d lt. absurd (omega arith), λ p plain. refl)
  fixup_pointers-Fixed (f ∷ fs) lo n bytes room (h, t) =
      elim (Bool-cases (sign_extend (distance f % 2 ^ 32) == distance f)) [
        | inl near ↦ rw near (
            Fixed-cons f fs n bytes room t (ground arith)
              (fixup_pointers base segs fs (patched f bytes))
              (fixup_pointers-Fixed fs (f.pointer_offset + 4) n (patched f bytes)
                (omega (
                  arith,
                  length-overwrite bytes f.pointer_offset (to_bytes 4 (distance f % 2 ^ 32)),
                ))
                t))
        | inr far ↦ rw far (inl (ground arith))
      ]
