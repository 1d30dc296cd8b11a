-- ===== src/BinaryWriter/Layout.antt =====
-- Where the segments of a finished writer stand in the file.
use tundra.Memory.{align_up, size_minus}
use tundra.Memory.Linear.{align_up_bounds}
use tundra.BinaryWriter.{
  BinarySegment, BinaryWriter, no_segment, binary_segment_size, binary_segment_align,
  global_positions,
}
use tundra.BinaryWriter.Calls.{append_filler-elements}
use tundra.Prelude.{
  ℕ, zero, suc, ◌+◌, ◌%◌, ◌^◌, ◌≤◌, ◌<◌, ◌≡◌, refl, ap, ◌∙◌, List, [], ◌∷◌, ◌++◌, map, length,
  get_or, replicate, length-append, length-replicate, arith,
}

abbrev pub contents : List BinarySegment → List ℕ
contents [] = []
contents (seg ∷ segs) = seg.bytes.elements ++ contents segs

-- The position of a segment in the file.
abbrev pub start : List BinarySegment → ℕ → ℕ
start [] i = 0
start (seg ∷ segs) zero = 0
start (seg ∷ segs) (suc i) = length seg.bytes.elements + start segs i

abbrev pub aligned : BinaryWriter → BinaryWriter
aligned w = map (λ seg. binary_segment_align seg 16) w

abbrev pub placed : BinaryWriter → BinaryWriter
placed w = global_positions 0 (aligned w)

get_or-append_left :
    (xs ys : List ℕ) (p : ℕ) → p < length xs → get_or (xs ++ ys) p 0 ≡ get_or xs p 0
get_or-append_left [] ys p lt = absurd (omega arith)
get_or-append_left (x ∷ xs) ys zero lt = refl
get_or-append_left (x ∷ xs) ys (suc p) lt = get_or-append_left xs ys p (omega arith)

get_or-append_right : (xs ys : List ℕ) (p : ℕ) → get_or (xs ++ ys) (length xs + p) 0 ≡ get_or ys p 0
get_or-append_right [] ys p = ap (λ t. get_or ys t 0) {x = 0 + p} (omega arith)
get_or-append_right (x ∷ xs) ys p =
    ap (λ t. get_or (x ∷ (xs ++ ys)) t 0) {x = length (x ∷ xs) + p} {y = suc (length xs + p)}
      (omega arith)
    ∙ get_or-append_right xs ys p

-- A byte of a segment in the file.
pub get_or-contents :
    (w : List BinarySegment) (i p : ℕ)
    → i < length w
    → p < length (get_or w i no_segment).bytes.elements
    → get_or (contents w) (start w i + p) 0 ≡ get_or (get_or w i no_segment).bytes.elements p 0
get_or-contents [] i p lt inside = absurd (omega arith)
get_or-contents (seg ∷ w) zero p lt inside =
    ap (λ t. get_or (contents (seg ∷ w)) t 0) {x = 0 + p} {y = p} (omega arith)
    ∙ get_or-append_left seg.bytes.elements (contents w) p inside
get_or-contents (seg ∷ w) (suc i) p lt inside =
    let n = length seg.bytes.elements in
    ap (λ t. get_or (contents (seg ∷ w)) t 0) {x = n + start w i + p} {y = n + (start w i + p)}
      (omega arith)
    ∙ get_or-append_right seg.bytes.elements (contents w) (start w i + p)
    ∙ get_or-contents w i p (omega arith) inside

-- A segment ends within the file.
pub start-bound :
    (w : List BinarySegment) (i : ℕ)
    → i < length w
    → start w i + length (get_or w i no_segment).bytes.elements ≤ length (contents w)
start-bound [] i lt = absurd (omega arith)
start-bound (seg ∷ w) zero lt = omega (arith, length-append seg.bytes.elements (contents w))
start-bound (seg ∷ w) (suc i) lt =
    omega (arith, length-append seg.bytes.elements (contents w), start-bound w i (omega arith))

-- Segments of the same sizes stand at the same positions.
pub start-same :
    (w w' : List BinarySegment) (i : ℕ)
    → length w ≡ length w'
    → ((j : ℕ)
        → j < length w
        → length (get_or w j no_segment).bytes.elements
          ≡ length (get_or w' j no_segment).bytes.elements)
    → start w i ≡ start w' i
start-same [] [] i e same = refl
start-same [] (s ∷ w') i e same = absurd (omega arith)
start-same (s ∷ w) [] i e same = absurd (omega arith)
start-same (s ∷ w) (s' ∷ w') zero e same = refl
start-same (s ∷ w) (s' ∷ w') (suc i) e same =
    let first = same 0 (omega arith) in
    let others = start-same w w' i (omega arith) (λ j lt. same (suc j) (omega arith)) in
    omega (arith, first, others)

pub global_positions-at :
    (w : List BinarySegment) (offset i : ℕ)
    → offset + length (contents w) < 2 ^ 64
    → i < length w
    → get_or (global_positions offset w) i no_segment
      ≡ record (get_or w i no_segment) { global_offset = offset + start w i }
unfolding global_positions binary_segment_size
global_positions-at [] offset i room lt = absurd (omega arith)
global_positions-at (seg ∷ w) offset zero room lt =
    ap (λ o. record seg { global_offset = o }) {y = offset + 0} (omega arith)
global_positions-at (seg ∷ w) offset (suc i) room lt =
    let n = length seg.bytes.elements in
    let grown = length-append seg.bytes.elements (contents w) in
    ap (λ o. get_or (global_positions o w) i no_segment) {y = offset + n} (omega (arith, grown))
    ∙ global_positions-at w (offset + n) i (omega (arith, grown)) (omega arith)
    ∙ ap (λ o. record (get_or w i no_segment) { global_offset = o }) {x = offset + n + start w i}
        {y = offset + (n + start w i)} (omega arith)

pub length-global_positions :
    (w : List BinarySegment) (offset : ℕ) → length (global_positions offset w) ≡ length w
unfolding global_positions
length-global_positions [] offset = refl
length-global_positions (seg ∷ w) offset = ap suc (length-global_positions w _)

pub length-aligned : (w : BinaryWriter) → length (aligned w) ≡ length w
length-aligned [] = refl
length-aligned (seg ∷ w) = ap suc (length-aligned w)

pub get_or-aligned :
    (w : BinaryWriter) (i : ℕ)
    → i < length w
    → get_or (aligned w) i no_segment ≡ binary_segment_align (get_or w i no_segment) 16
get_or-aligned [] i lt = absurd (omega arith)
get_or-aligned (seg ∷ w) zero lt = refl
get_or-aligned (seg ∷ w) (suc i) lt = get_or-aligned w i (omega arith)

-- An aligned segment: the same fixups, the old bytes first, and a multiple of 16 bytes if the sum
-- does not wrap.
pub binary_segment_align_lem :
    (seg : BinarySegment)
    → let seg' = binary_segment_align seg 16 in
      (seg'.fixups ≡ seg.fixups)
      × (length seg.bytes.elements ≤ length seg'.bytes.elements)
      × (length seg.bytes.elements + 16 ≤ 2 ^ 64 → length seg'.bytes.elements % 16 ≡ 0)
      × ((p : ℕ)
          → p < length seg.bytes.elements
          → get_or seg'.bytes.elements p 0 ≡ get_or seg.bytes.elements p 0)
unfolding binary_segment_align size_minus
binary_segment_align_lem seg =
    let n = length seg.bytes.elements in
    let delta = size_minus (align_up n 16) n in
    let e = append_filler-elements delta seg.bytes in
    let len = ap length e ∙ length-append seg.bytes.elements (replicate delta 0xfe) in
    (
      refl,
      omega (arith, len),
      λ room.
          let (above, below, whole) = align_up_bounds 4 n room in
          let full : length (binary_segment_align seg 16).bytes.elements ≡ align_up n 16 =
            omega (arith, len, length-replicate {A = ℕ} delta 0xfe, above, below, room) in
          ap (λ t. t % 16) {y = align_up n 16} full ∙ whole,
      λ p lt.
          ap (λ l. get_or l p 0) e
          ∙ get_or-append_left seg.bytes.elements (replicate delta 0xfe) p lt,
    )

pub start-aligned :
    (w : BinaryWriter) (i : ℕ)
    → length (contents (aligned w)) < 2 ^ 63
    → start (aligned w) i % 16 ≡ 0
start-aligned [] i small = refl
start-aligned (seg ∷ w) zero small = refl
start-aligned (seg ∷ w) (suc i) small =
    let (same, longer, whole, first) = binary_segment_align_lem seg in
    let all = length-append (binary_segment_align seg 16).bytes.elements (contents (aligned w)) in
    let here = whole (omega (arith, all, longer, small)) in
    let others = start-aligned w i (omega (arith, all, small)) in omega (arith, here, others)
