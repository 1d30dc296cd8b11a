-- ===== src/BinaryWriter/Calls.antt =====
-- Each call of BinaryWriter.hpp keeps the pointers in their place.
use tundra.Memory.{Buffer, buffer_append, buffer_append_one, align_up, size_minus}
use tundra.BinaryWriter.{
  BinaryLocator, BinaryFixup, BinarySegment, BinaryWriter, no_segment, append_filler,
  binary_segment_init, binary_segment_align, binary_segment_write, binary_segment_write_int,
  binary_segment_write_pointer, binary_writer_init, binary_writer_add_segment,
}
use tundra.BinaryWriter.Segments.{
  WriterCall, run_writer_call, run_writer_calls, IsPosition, IsSegment, IsWriter, IsCall, AreCalls,
  Laid-weaken, Laid-append, Keeps, Aimed-Keeps, Aimed-append, set-IsWriter,
}
use tundra.Prelude.Bytes.{to_bytes}
use tundra.Prelude.{
  ℕ, zero, suc, ◌+◌, ◌≤◌, ◌<◌, ◌≡◌, ◌⊎◌, inl, inr, refl, sym, ap, ◌∙◌, List, [], ◌∷◌, ◌++◌, length,
  get_or, replicate, length-append, append-nil, append_assoc, arith,
}

-- More bytes behind a segment's, and the same fixups.
longer-IsSegment :
    (w : BinaryWriter) (i : ℕ) (old new : BinarySegment)
    → new.index ≡ old.index
    → new.fixups ≡ old.fixups
    → length old.bytes.elements ≤ length new.bytes.elements
    → IsSegment w i old
    → IsSegment w i new
longer-IsSegment w i old new same kept le (e, laid, aimed) = (
  same ∙ e,
  rw kept (
      Laid-weaken 0 (length old.bytes.elements) (length new.bytes.elements) old.fixups.elements le
        laid),
  rw kept aimed,
)

-- What BinarySegmentAlign appends.
pub append_filler-elements :
    (delta : ℕ) (bytes : Buffer ℕ)
    → (append_filler delta bytes).elements ≡ bytes.elements ++ replicate delta 0xfe
unfolding append_filler buffer_append_one buffer_append
append_filler-elements zero bytes = sym (append-nil bytes.elements)
append_filler-elements (suc delta) bytes =
    append_filler-elements delta (buffer_append_one bytes 0xfe)
    ∙ append_assoc bytes.elements (0xfe ∷ []) (replicate delta 0xfe)

align-longer :
    (seg : BinarySegment) (alignment : ℕ)
    → length seg.bytes.elements ≤ length (binary_segment_align seg alignment).bytes.elements
unfolding binary_segment_align
align-longer seg alignment =
    let n = length seg.bytes.elements in
    let delta = size_minus (align_up n alignment) n in
    omega (
      arith,
      ap length (append_filler-elements delta seg.bytes),
      length-append seg.bytes.elements (replicate delta 0xfe),
    )

align-IsSegment :
    (w : BinaryWriter) (i : ℕ) (seg : BinarySegment) (alignment : ℕ)
    → IsSegment w i seg
    → IsSegment w i (binary_segment_align seg alignment)
unfolding binary_segment_align
align-IsSegment w i seg alignment h =
    longer-IsSegment w i seg (binary_segment_align seg alignment) refl refl
      (align-longer seg alignment) h

write-longer :
    (seg : BinarySegment) (bytes : List ℕ)
    → length seg.bytes.elements ≤ length (binary_segment_write seg bytes).bytes.elements
unfolding binary_segment_write buffer_append
write-longer seg bytes = omega (arith, length-append seg.bytes.elements bytes)

write-IsSegment :
    (w : BinaryWriter) (i : ℕ) (seg : BinarySegment) (bytes : List ℕ)
    → IsSegment w i seg
    → IsSegment w i (binary_segment_write seg bytes)
unfolding binary_segment_write
write-IsSegment w i seg bytes h =
    longer-IsSegment w i seg (binary_segment_write seg bytes) refl refl (write-longer seg bytes) h

write_pointer-IsSegment :
    (w : BinaryWriter) (i : ℕ) (seg : BinarySegment) (locator : BinaryLocator)
    → IsPosition w locator
    → IsSegment w i seg
    → IsSegment w i (binary_segment_write_pointer seg locator)
      × (length seg.bytes.elements
          ≤ length (binary_segment_write_pointer seg locator).bytes.elements)
unfolding binary_segment_write_pointer binary_segment_write_int binary_segment_write
    buffer_append_one buffer_append
write_pointer-IsSegment w i seg locator at (e, laid, aimed) =
    let n = length seg.bytes.elements in
    let dummy = to_bytes 4 0x7eeeeeee in
    let grown = length-append seg.bytes.elements dummy in
    let fixup : BinaryFixup = record { pointer_offset = n; target = locator } in
    (
      (
        e,
        Laid-weaken 0 (n + 4) (length (seg.bytes.elements ++ dummy))
            (seg.fixups.elements ++ fixup ∷ []) (omega (arith, grown))
            (Laid-append 0 n seg.fixups.elements fixup refl laid),
        Aimed-append w seg.fixups.elements fixup aimed at,
      ),
      omega (arith, grown),
    )

get_or-append_last :
    (w : BinaryWriter) (seg : BinarySegment) (i : ℕ)
    → i < length w + 1
    → ((i < length w) × (get_or (w ++ seg ∷ []) i no_segment ≡ get_or w i no_segment))
      ⊎ ((i ≡ length w) × (get_or (w ++ seg ∷ []) i no_segment ≡ seg))
get_or-append_last [] seg zero lt = inr (refl, refl)
get_or-append_last [] seg (suc i) lt = absurd (omega arith)
get_or-append_last (s ∷ w) seg zero lt = inl (omega arith, refl)
get_or-append_last (s ∷ w) seg (suc i) lt = elim (get_or-append_last w seg i (omega arith)) [
  | inl old ↦ inl (omega (arith, old.0), old.1)
  | inr new ↦ inr (omega (arith, new.0), new.1)
]

add_segment-Keeps : (w : BinaryWriter) → Keeps w (binary_writer_add_segment w)
unfolding binary_writer_add_segment
add_segment-Keeps w locator (inside, at) =
    let seg = binary_segment_init (length w) in
    let grown = length-append w (seg ∷ []) in
    (
      omega (arith, grown),
      elim (get_or-append_last w seg locator.seg_index (omega arith)) [
        | inl old ↦ rw old.1 at
        | inr new ↦ absurd (omega (arith, new.0))
      ],
    )

add_segment-IsWriter : (w : BinaryWriter) → IsWriter w → IsWriter (binary_writer_add_segment w)
unfolding binary_writer_add_segment binary_segment_init
add_segment-IsWriter w all i lt =
    let seg = binary_segment_init (length w) in
    let w' = binary_writer_add_segment w in
    elim (get_or-append_last w seg i (omega (arith, length-append w (seg ∷ [])))) [
      | inl (inside, old) ↦
          let (e, laid, aimed) = all i inside in
          let s = get_or w i no_segment in
          rw old (e, laid, Aimed-Keeps w w' s.fixups.elements (add_segment-Keeps w) aimed)
      | inr (last, new) ↦ rw new (sym last, omega arith, tt)
    ]

run_writer_call-IsWriter :
    (w : BinaryWriter) (call : WriterCall)
    → IsCall w call
    → IsWriter w
    → IsWriter (run_writer_call w call)
unfolding run_writer_call
run_writer_call-IsWriter w WriterCall.add_segment ok all = add_segment-IsWriter w all
run_writer_call-IsWriter w (WriterCall.align i alignment) ok all =
    let seg = get_or w i no_segment in
    let seg' = binary_segment_align seg alignment in
    let le = align-longer seg alignment in
    set-IsWriter w i seg' ok le (align-IsSegment w i seg alignment (all i ok)) all
run_writer_call-IsWriter w (WriterCall.write i bytes) ok all =
    let seg = get_or w i no_segment in
    set-IsWriter w i (binary_segment_write seg bytes) ok (write-longer seg bytes)
      (write-IsSegment w i seg bytes (all i ok)) all
run_writer_call-IsWriter w (WriterCall.write_pointer i locator) (ok, at) all =
    let seg = get_or w i no_segment in
    let (good, le) = write_pointer-IsSegment w i seg locator at (all i ok) in
    set-IsWriter w i (binary_segment_write_pointer seg locator) ok le good all

run_writer_calls_from :
    (calls : List WriterCall) (w : BinaryWriter)
    → AreCalls w calls
    → IsWriter w
    → IsWriter (run_writer_calls w calls)
unfolding run_writer_calls
run_writer_calls_from [] w ok all = all
run_writer_calls_from (call ∷ calls) w (ok, oks) all =
    run_writer_calls_from calls (run_writer_call w call) oks
      (run_writer_call-IsWriter w call ok all)

-- Whatever calls are made for the segments of a new writer, with pointers only to positions that
-- there are at the time, each segment then stands at its index, its pointers lie one behind the
-- other within its bytes, and each points to a position that there is.
pub run_writer_calls-IsWriter :
    (calls : List WriterCall)
    → AreCalls binary_writer_init calls
    → IsWriter (run_writer_calls binary_writer_init calls)
unfolding binary_writer_init
run_writer_calls-IsWriter calls ok =
    run_writer_calls_from calls binary_writer_init ok (λ i lt. absurd (omega arith))
