-- ===== src/DigestCache/SavedWriter.antt =====
-- The writer that DigestCacheSave flushes.
use tundra.Memory.{buffer_append, buffer_append_one}
use tundra.BinaryWriter.{
  BinarySegment, BinaryWriter, no_segment, binary_segment_init, binary_segment_write,
  binary_segment_write_int, binary_segment_write_pointer, binary_segment_position,
}
use tundra.BinaryWriter.Fixups.{Laid}
use tundra.BinaryWriter.Segments.{Aimed, IsWriter}
use tundra.Prelude.Bytes.{to_bytes}
use tundra.DigestCache.{digest_cache_magic}
use tundra.DigestCache.Save.{Call, save_start, saved_writer}
use tundra.DigestCache.Saved.{
  record_bytes, table_bytes, name_bytes, name_pointers, HasDigests, length-record_bytes,
  save_records-IsSaved,
}
use tundra.Prelude.{
  ℕ, zero, suc, ◌+◌, ◌*◌, ◌≤◌, ◌<◌, ◌≡◌, refl, sym, ap, subst, List, [], ◌∷◌, ◌++◌, length, get_or,
  length-append, arith,
}

-- The head, the records, and their names, with the pointers to them.
abbrev pub Writes : ℕ → List Call → BinaryWriter → Type 0
Writes count calls w =
    (length w ≡ 3)
    × ((get_or w 0 no_segment).bytes.elements
        ≡ to_bytes 4 digest_cache_magic ++ (to_bytes 4 count ++ to_bytes 4 0x7eeeeeee))
    × ((get_or w 0 no_segment).fixups.elements
        ≡ record { pointer_offset = 8; target = record { seg_index = 1; offset = 0 } } ∷ [])
    × ((get_or w 1 no_segment).bytes.elements ≡ table_bytes calls)
    × ((get_or w 1 no_segment).fixups.elements ≡ name_pointers 0 0 calls)
    × ((get_or w 2 no_segment).bytes.elements ≡ name_bytes calls)
    × ((get_or w 2 no_segment).fixups.elements ≡ [])

abbrev pub HasIndices : BinaryWriter → Type 0
HasIndices w =
    ((get_or w 0 no_segment).index ≡ 0)
    × ((get_or w 1 no_segment).index ≡ 1)
    × ((get_or w 2 no_segment).index ≡ 2)

pub saved_writer-Writes :
    (count : ℕ) (calls : List Call)
    → HasDigests calls
    → Writes count calls (saved_writer count calls)
unfolding saved_writer save_start binary_segment_init binary_segment_write binary_segment_write_int
    binary_segment_write_pointer binary_segment_position buffer_append buffer_append_one
saved_writer-Writes count calls all =
    let (main, ai, bytes, fixups, si, strings, sf) =
      save_records-IsSaved save_start 0 calls refl refl all in
    let finished : BinarySegment → BinarySegment = λ m.
      binary_segment_write_pointer
        (binary_segment_write_int 4 (binary_segment_write_int 4 m digest_cache_magic) count)
        (binary_segment_position save_start.array_seg) in
    (
      refl,
      ap (λ m. (finished m).bytes.elements) main,
      ap (λ m. (finished m).fixups.elements) main,
      bytes,
      fixups,
      strings,
      ap (λ f. f.elements) sf,
    )

pub saved_writer-HasIndices :
    (count : ℕ) (calls : List Call) → HasDigests calls → HasIndices (saved_writer count calls)
unfolding saved_writer save_start binary_segment_init binary_segment_write binary_segment_write_int
    binary_segment_write_pointer binary_segment_position
saved_writer-HasIndices count calls all =
    let (main, ai, bytes, fixups, si, strings, sf) =
      save_records-IsSaved save_start 0 calls refl refl all in
    (ap (λ m. m.index) main, ai, si)

name_pointers-Laid :
    (lo n k pos : ℕ) (calls : List Call)
    → lo ≤ 48 * k
    → 48 * (k + length calls) ≤ n
    → Laid lo n (name_pointers k pos calls)
name_pointers-Laid lo n k pos [] le room = omega arith
name_pointers-Laid lo n k pos (call ∷ calls) le room = (
  omega arith,
  name_pointers-Laid (48 * k + 40 + 4) n (k + 1) (pos + length (call.2 ++ 0 ∷ [])) calls
      (omega arith) (omega arith),
)

name_pointers-Aimed :
    (w : BinaryWriter) (k pos : ℕ) (calls : List Call)
    → 2 < length w
    → pos + length (name_bytes calls) ≤ length (get_or w 2 no_segment).bytes.elements
    → Aimed w (name_pointers k pos calls)
name_pointers-Aimed w k pos [] there room = tt
name_pointers-Aimed w k pos (call ∷ calls) there room =
    let grown = length-append (call.2 ++ 0 ∷ []) (name_bytes calls) in
    (
      (there, omega arith),
      name_pointers-Aimed w (k + 1) (pos + length (call.2 ++ 0 ∷ [])) calls there
          (omega (arith, grown)),
    )

length-table_bytes :
    (calls : List Call) → HasDigests calls → length (table_bytes calls) ≡ 48 * length calls
length-table_bytes [] all = refl
length-table_bytes (call ∷ calls) (digest, all) = omega (
  arith,
  length-append (record_bytes call) (table_bytes calls),
  length-record_bytes call digest,
  length-table_bytes calls all,
)

pub Writes-IsWriter :
    (w : BinaryWriter) (count : ℕ) (calls : List Call)
    → HasDigests calls
    → HasIndices w
    → Writes count calls w
    → IsWriter w
Writes-IsWriter w count calls all (i0, i1, i2) (three, b0, f0, b1, f1, b2, f2) zero lt = (
  i0,
  subst (Laid 0 (length (get_or w 0 no_segment).bytes.elements)) (sym f0)
      (omega arith, omega (arith, ap length b0)),
  subst (Aimed w) (sym f0) ((omega arith, omega arith), tt),
)
Writes-IsWriter w count calls all (i0, i1, i2) (three, b0, f0, b1, f1, b2, f2) (suc zero) lt = (
  i1,
  subst (Laid 0 (length (get_or w 1 no_segment).bytes.elements)) (sym f1) (
      name_pointers-Laid 0 (length (get_or w 1 no_segment).bytes.elements) 0 0 calls (omega arith)
        (omega (arith, ap length b1, length-table_bytes calls all))),
  subst (Aimed w) (sym f1)
      (name_pointers-Aimed w 0 0 calls (omega arith) (omega (arith, ap length b2))),
)
Writes-IsWriter w count calls all (i0, i1, i2) (three, b0, f0, b1, f1, b2, f2) (suc (suc zero)) lt =
    (
      i2,
      subst (Laid 0 (length (get_or w 2 no_segment).bytes.elements)) (sym f2) (omega arith),
      subst (Aimed w) (sym f2) tt,
    )
Writes-IsWriter w count calls all (i0, i1, i2) (three, b0, f0, b1, f1, b2, f2) (suc (suc (suc i)))
      lt =
    absurd (omega arith)
