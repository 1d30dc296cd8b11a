-- ===== src/BinaryWriter/Pointers.antt =====
-- The fixups of all segments, and what FrozenPtr reads of a pointer that was fixed up.
use tundra.Prelude.Bytes.{read_bytes}
use tundra.BinaryWriter.{
  BinarySegment, no_segment, sign_extend, relocation, fixup_pointers, binary_segment_fixup_pointers,
  fixup_all, frozen_ptr_get,
}
use tundra.BinaryWriter.Fixups.{Laid, Relocated, HasFar, Fixed, fixup_pointers-Fixed}
use tundra.Prelude.{
  ℕ, zero, suc, ◌+◌, ◌%◌, ◌^◌, ◌≤◌, ◌<◌, ◌≡◌, ◌≢◌, refl, ap, List, [], ◌∷◌, Option, none, some,
  length, get_or, ◌>>=◌, arith,
}

-- What the loop over the segments leaves of one of them.
abbrev pub Finished : List BinarySegment → BinarySegment → BinarySegment → Type 0
Finished segs seg seg' =
    Relocated seg.global_offset segs seg.fixups.elements seg.bytes.elements seg'.bytes.elements

abbrev pub AllFinished :
    List BinarySegment → List BinarySegment → Option (List BinarySegment) → Type 0
AllFinished segs w none =
    (i : ℕ) × (i < length w)
    × HasFar (get_or w i no_segment).global_offset segs (get_or w i no_segment).fixups.elements
AllFinished segs w (some w') =
    (length w' ≡ length w)
    × ((i : ℕ) → i < length w → Finished segs (get_or w i no_segment) (get_or w' i no_segment))

module _ (segs : List BinarySegment) where
  abbrev One : BinarySegment → Option BinarySegment → Type 0
  One seg none = HasFar seg.global_offset segs seg.fixups.elements
  One seg (some seg') = Finished segs seg seg'

  One-fixup :
      (seg : BinarySegment)
      → Laid 0 (length seg.bytes.elements) seg.fixups.elements
      → One seg (binary_segment_fixup_pointers segs seg)
  unfolding binary_segment_fixup_pointers
  One-fixup seg laid =
      wrapped (fixup_pointers seg.global_offset segs seg.fixups.elements seg.bytes.elements) (
        fixup_pointers-Fixed seg.global_offset segs seg.fixups.elements 0
          (length seg.bytes.elements) seg.bytes.elements (omega arith) laid)
    where
      wrapped :
          (r : Option (List ℕ))
          → Fixed seg.global_offset segs seg.fixups.elements seg.bytes.elements r
          → One seg
              (r >>= (λ bytes. some (record seg { bytes = record seg.bytes { elements = bytes } })))
      wrapped none far = far
      wrapped (some bytes) done = done

  finished_cons :
      (seg : BinarySegment) (w : List BinarySegment)
      → (r : Option BinarySegment) → One seg r
      → (rs : Option (List BinarySegment)) → AllFinished segs w rs
      → AllFinished segs (seg ∷ w) (r >>= (λ seg'. rs >>= (λ rest. some (seg' ∷ rest))))
  finished_cons seg w none far rs all = (0, omega arith, far)
  finished_cons seg w (some seg') one none (i, lt, far) = (suc i, omega arith, far)
  finished_cons seg w (some seg') one (some rest) (len, all) = (ap suc len, chosen)
    where
      chosen :
          (i : ℕ)
          → i < suc (length w)
          → Finished segs (get_or (seg ∷ w) i no_segment) (get_or (seg' ∷ rest) i no_segment)
      chosen zero lt = one
      chosen (suc i) lt = all i (omega arith)

  pub fixup_all-AllFinished :
      (w : List BinarySegment)
      → ((i : ℕ)
          → i < length w
          → Laid 0
              (length (get_or w i no_segment).bytes.elements)
              (get_or w i no_segment).fixups.elements)
      → AllFinished segs w (fixup_all segs w)
  unfolding fixup_all
  fixup_all-AllFinished [] laid = (refl, λ i lt. absurd (omega arith))
  fixup_all-AllFinished (seg ∷ w) laid =
      finished_cons seg w (binary_segment_fixup_pointers segs seg)
        (One-fixup seg (laid 0 (omega arith))) (fixup_all segs w)
        (fixup_all-AllFinished w (λ i lt. laid (suc i) (omega arith)))

-- A distance has 32 bits where the positions are less than 2^31 apart, or 2^31 backwards.
pub near_iff :
    (s d : ℕ)
    → s < 2 ^ 63
    → d < 2 ^ 63
    → (sign_extend (relocation s d % 2 ^ 32) ≡ relocation s d → (s ≤ d + 2 ^ 31) × (d < s + 2 ^ 31))
      × (s ≤ d + 2 ^ 31 → d < s + 2 ^ 31 → sign_extend (relocation s d % 2 ^ 32) ≡ relocation s d)
unfolding sign_extend relocation
near_iff s d hs hd = (λ near. ground arith, λ a b. ground arith)

-- Reading a near pointer that does not point to itself gives its target; one that does is null.
pub frozen_ptr_get_near :
    (address s d : ℕ) (file : List ℕ)
    → s < 2 ^ 63
    → d < 2 ^ 63
    → sign_extend (relocation s d % 2 ^ 32) ≡ relocation s d
    → read_bytes 4 file s ≡ relocation s d % 2 ^ 32
    → (s ≢ d → frozen_ptr_get address file s ≡ (address + d) % 2 ^ 64)
      × (s ≡ d → frozen_ptr_get address file s ≡ 0)
unfolding frozen_ptr_get relocation sign_extend
frozen_ptr_get_near address s d file hs hd near read = (λ ne. ground arith, λ e. ground arith)
