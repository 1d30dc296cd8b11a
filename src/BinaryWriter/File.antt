-- ===== src/BinaryWriter/File.antt =====
-- The file that BinaryWriterFlush writes.
use tundra.Prelude.Bytes.{read_bytes, read_bytes-ext}
use tundra.BinaryWriter.{
  BinarySegment, BinaryWriter, no_segment, relocation, sign_extend, fixup_all,
  binary_writer_finalize, binary_segment_align, Stdio, write_segments, binary_writer_flush,
}
use tundra.BinaryWriter.Fixups.{Laid, IsPlain, HasFar, Relocated}
use tundra.BinaryWriter.Segments.{IsWriter, Laid-weaken}
use tundra.BinaryWriter.Layout.{
  contents, start, aligned, placed, get_or-contents, start-same, length-global_positions,
  length-aligned, binary_segment_align_lem, start-aligned,
}
use tundra.BinaryWriter.Pointers.{AllFinished, fixup_all-AllFinished, near_iff, frozen_ptr_get_near}
use tundra.BinaryWriter.Places.{
  no_fixup, source_of, dest_of, IsTooBig, Points, IsFile, Aimed-at, Laid-at, placed-at,
  bytes-placed, segment-bound, dest-bound, distance-placed, far-at,
}
use tundra.Prelude.{
  ℕ, ◌+◌, ◌%◌, ◌^◌, ◌<◌, ◌≡◌, ◌⊎◌, inl, inr, refl, sym, ap, subst, ◌∙◌, List, [], ◌∷◌, ◌++◌, Bool,
  true, false, Option, none, some, length, get_or, if◌then◌else◌, ◌==◌, ◌>>=◌, append-nil,
  append_assoc, arith,
}

module _ (w : BinaryWriter) (all : IsWriter w)
    (small : length (contents (aligned w)) < 2 ^ 63) where
  -- What the fixups leave of the segment at an index, in terms of the writer's own segment.
  segment-done :
      (i : ℕ)
      → i < length w
      → (w' : List BinarySegment) → AllFinished (placed w) (placed w) (some w')
      → Relocated
          (0 + start (aligned w) i)
          (placed w)
          (get_or w i no_segment).fixups.elements
          (binary_segment_align (get_or w i no_segment) 16).bytes.elements
          (get_or w' i no_segment).bytes.elements
  segment-done i lt w' (len, done) =
      let n = length-global_positions (aligned w) 0 in
      let same = (binary_segment_align_lem (get_or w i no_segment)).0 in
      let wide =
        subst
          (λ s.
            Relocated s.global_offset (placed w) s.fixups.elements s.bytes.elements
              (get_or w' i no_segment).bytes.elements)
          (placed-at w all small i lt) (done i (omega (arith, n, length-aligned w))) in
      subst
        (λ fs.
          Relocated (0 + start (aligned w) i) (placed w) fs.elements
            (binary_segment_align (get_or w i no_segment) 16).bytes.elements
            (get_or w' i no_segment).bytes.elements)
        same wide

  start-done :
      (w' : List BinarySegment)
      → AllFinished (placed w) (placed w) (some w')
      → (i : ℕ) → start w' i ≡ start (aligned w) i
  start-done w' (len, done) i =
      let n = length-global_positions (aligned w) 0 in
      start-same w' (aligned w) i (len ∙ n) (λ j lt.
        (done j (omega (arith, len))).0
        ∙ bytes-placed w all small j (omega (arith, len, n, length-aligned w)))

  Points-done :
      (w' : List BinarySegment)
      → AllFinished (placed w) (placed w) (some w')
      → (i k : ℕ) → i < length w
      → k < length (get_or w i no_segment).fixups.elements
      → Points w (contents w') i (get_or (get_or w i no_segment).fixups.elements k no_fixup)
  Points-done w' fin i k lt inside =
      let seg = get_or w i no_segment in
      let f = get_or seg.fixups.elements k no_fixup in
      let (own, laid, aimed) = all i lt in
      let at = Aimed-at w seg.fixups.elements k inside aimed in
      let end = Laid-at 0 (length seg.bytes.elements) seg.fixups.elements k inside laid in
      let (len, pointers, others) = segment-done i lt w' fin in
      let (near, read) = pointers k no_fixup inside in
      let s = source_of w i f in
      let d = dest_of w f in
      let low : s < 2 ^ 63 = omega (arith, segment-bound w all small i lt, end) in
      let high : d < 2 ^ 63 = omega (arith, dest-bound w all small f at) in
      let e = distance-placed w all small i f low at in
      let near' : sign_extend (relocation s d % 2 ^ 32) ≡ relocation s d =
        subst (λ t. sign_extend (t % 2 ^ 32) ≡ t) e near in
      let longer = (binary_segment_align_lem seg).1 in
      let moved : read_bytes 4 (contents w') s
          ≡ read_bytes 4 (get_or w' i no_segment).bytes.elements f.pointer_offset =
        read_bytes-ext 4 (contents w') (get_or w' i no_segment).bytes.elements s f.pointer_offset
          (λ p below.
            ap (λ t. get_or (contents w') t 0) {y = start w' i + (f.pointer_offset + p)}
              (omega (arith, start-done w' fin i))
            ∙ get_or-contents w' i (f.pointer_offset + p)
                (omega (arith, fin.0, length-global_positions (aligned w) 0, length-aligned w))
                (omega (arith, len, longer, end))) in
      let found : read_bytes 4 (contents w') s ≡ relocation s d % 2 ^ 32 =
        moved ∙ read ∙ ap (λ t. t % 2 ^ 32) e in
      let ends = (near_iff s d low high).0 near' in
      (
        ends.0,
        ends.1,
        λ address. frozen_ptr_get_near address s d (contents w') low high near' found,
      )

  plain-done :
      (w' : List BinarySegment)
      → AllFinished (placed w) (placed w) (some w')
      → (i p : ℕ) → i < length w
      → p < length (get_or w i no_segment).bytes.elements
      → IsPlain p (get_or w i no_segment).fixups.elements
      → get_or (contents w') (start (aligned w) i + p) 0
        ≡ get_or (get_or w i no_segment).bytes.elements p 0
  plain-done w' fin i p lt inside plain =
      let seg = get_or w i no_segment in
      let (len, pointers, others) = segment-done i lt w' fin in
      let (same, longer, whole, first) = binary_segment_align_lem seg in
      ap (λ t. get_or (contents w') (t + p) 0) (sym (start-done w' fin i))
      ∙ get_or-contents w' i p
          (omega (arith, fin.0, length-global_positions (aligned w) 0, length-aligned w))
          (omega (arith, len, longer))
      ∙ others p plain
      ∙ first p inside

  IsFile-done :
      (w' : List BinarySegment)
      → AllFinished (placed w) (placed w) (some w')
      → IsFile w (contents w')
  IsFile-done w' fin i lt = (
    start-aligned w i small,
    λ k inside. Points-done w' fin i k lt inside,
    λ p inside plain. plain-done w' fin i p lt inside plain,
  )

  IsTooBig-done : AllFinished (placed w) (placed w) none → IsTooBig w
  IsTooBig-done (i, lt, far) =
      let n = length-global_positions (aligned w) 0 in
      let inside : i < length w = omega (arith, n, length-aligned w) in
      let seg = get_or w i no_segment in
      let (own, laid, aimed) = all i inside in
      let same = (binary_segment_align_lem seg).0 in
      let wide =
        subst (λ s. HasFar s.global_offset (placed w) s.fixups.elements)
          (placed-at w all small i inside) far in
      let far' = subst (λ fs. HasFar (0 + start (aligned w) i) (placed w) fs.elements) same wide in
      let (k, short, apart) =
        far-at w all small i seg.fixups.elements 0 (length seg.bytes.elements)
          (omega (arith, segment-bound w all small i inside)) laid aimed far' in
      (i, k, inside, short, apart)

  placed-Laid :
      (i : ℕ)
      → i < length (placed w)
      → Laid 0
          (length (get_or (placed w) i no_segment).bytes.elements)
          (get_or (placed w) i no_segment).fixups.elements
  placed-Laid i lt =
      let inside : i < length w =
        omega (arith, length-global_positions (aligned w) 0, length-aligned w) in
      let seg = get_or w i no_segment in
      let (same, longer, whole, first) = binary_segment_align_lem seg in
      let kept : Laid 0 (length (binary_segment_align seg 16).bytes.elements)
          (binary_segment_align seg 16).fixups.elements =
        rw same (
          Laid-weaken 0 (length seg.bytes.elements)
            (length (binary_segment_align seg 16).bytes.elements) seg.fixups.elements longer
            (all i inside).1) in
      rw (placed-at w all small i inside) kept

-- fopen opens the path, and fwrite writes all that it is given behind the file's contents.
pub record IsWritable (io : Stdio) (out_fn : List ℕ) : Type 0 where
  pub opens : io.fopen out_fn ≡ true
  pub writes : (file bytes : List ℕ) → io.fwrite file bytes ≡ (file ++ bytes, length bytes)

write_segments-contents :
    (io : Stdio) (out_fn : List ℕ) (segs : List BinarySegment) (file : List ℕ)
    → IsWritable io out_fn
    → write_segments io segs file ≡ (true, file ++ contents segs)
unfolding write_segments
write_segments-contents io out_fn [] file ok = ap (λ l. (true, l)) (sym (append-nil file))
write_segments-contents io out_fn (seg ∷ segs) file ok =
    let bytes = seg.bytes.elements in
    let rest = write_segments-contents io out_fn segs (file ++ bytes) ok in
    let same : (length bytes == length bytes) ≡ true = ground arith in
    rw (ok.writes file bytes, same)
      (rest ∙ ap (λ l. (true, l)) (append_assoc file bytes (contents segs)))

-- Where the pointers of a writer lie one behind the other and point to positions that there are, the
-- segments have less than 2^63 bytes, and the file can be written, the flush croaks only where some
-- pointer's target is 2^31 bytes or more ahead of it or more than 2^31 behind; else it succeeds, and
-- in the file each segment begins at a multiple of 16, no pointer's target is that far, each pointer
-- that FrozenPtr reads gives the address of its target, but null where it points to itself, and each
-- other byte of a segment is as it was.
pub binary_writer_flush-IsFile :
    (io : Stdio) (w : BinaryWriter) (out_fn : List ℕ)
    → IsWriter w
    → length (contents (aligned w)) < 2 ^ 63
    → IsWritable io out_fn
    → ((binary_writer_flush io w out_fn ≡ none) × IsTooBig w)
      ⊎ ((file : List ℕ) × (binary_writer_flush io w out_fn ≡ some (true, some file))
          × IsFile w file)
unfolding binary_writer_flush binary_writer_finalize
binary_writer_flush-IsFile io w out_fn all small ok =
    outcome (fixup_all (placed w) (placed w))
      (fixup_all-AllFinished (placed w) (placed w) (placed-Laid w all small))
  where
    flushed : Option BinaryWriter → Option (Bool × Option (List ℕ))
    flushed r = r >>= (λ segs.
        if io.fopen out_fn
        then (let (success, file) = write_segments io segs [] in some (success, some file))
        else some (false, none))

    outcome :
        (r : Option BinaryWriter)
        → AllFinished (placed w) (placed w) r
        → ((flushed r ≡ none) × IsTooBig w)
          ⊎ ((file : List ℕ) × (flushed r ≡ some (true, some file)) × IsFile w file)
    outcome none far = inl (refl, IsTooBig-done w all small far)
    outcome (some w') fin = inr (
      contents w',
      rw (ok.opens, write_segments-contents io out_fn w' [] ok) refl,
      IsFile-done w all small w' fin,
    )
