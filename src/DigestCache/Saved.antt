-- ===== src/DigestCache/Saved.antt =====
-- What DigestCacheSave writes: a head, a record of 48 bytes for each call of the walk, the names one
-- behind the other, and a pointer to its name in each record.
use tundra.Memory.{buffer_append, buffer_append_one}
use tundra.BinaryWriter.{
  BinaryFixup, binary_segment_write, binary_segment_write_int, binary_segment_write_string_data,
  binary_segment_write_pointer, binary_segment_position,
}
use tundra.Prelude.Bytes.{to_bytes}
use tundra.DigestCache.Save.{Call, Saving, save_record, save_records}
use tundra.Prelude.{
  ℕ, ◌+◌, ◌*◌, ◌≡◌, refl, sym, ap, ap₂, ◌∙◌, List, [], ◌∷◌, ◌++◌, length, length-append, append-nil,
  append_assoc, arith,
}

abbrev unset_pointer : List ℕ
unset_pointer = to_bytes 4 0x7eeeeeee

-- A FrozenDigestRecord, with its pointer not yet set.
abbrev pub record_bytes : Call → List ℕ
record_bytes (index, hash, path, r) =
    to_bytes 8 r.timestamp
    ++ (to_bytes 8 r.access_time
        ++ (to_bytes 4 hash ++ (r.content_digest ++ (unset_pointer ++ to_bytes 4 0))))

abbrev pub table_bytes : List Call → List ℕ
table_bytes [] = []
table_bytes (call ∷ calls) = record_bytes call ++ table_bytes calls

-- The names, each with its terminator.
abbrev pub name_bytes : List Call → List ℕ
name_bytes [] = []
name_bytes (call ∷ calls) = (call.2 ++ 0 ∷ []) ++ name_bytes calls

-- The pointers in the records from the k-th on, to the names from a position on.
abbrev pub name_pointers : ℕ → ℕ → List Call → List BinaryFixup
name_pointers k pos [] = []
name_pointers k pos (call ∷ calls) =
    record { pointer_offset = 48 * k + 40; target = record { seg_index = 2; offset = pos } }
    ∷ name_pointers (k + 1) (pos + length (call.2 ++ 0 ∷ [])) calls

-- The digests have the 20 bytes of a SHA-1.
abbrev pub HasDigests : List Call → Type 0
HasDigests [] = Unit
HasDigests (call ∷ calls) = (length call.3.content_digest ≡ 20) × HasDigests calls

pieces :
    (x a b c d e f : List ℕ)
    → (((((x ++ a) ++ b) ++ c) ++ d) ++ e) ++ f ≡ x ++ (a ++ (b ++ (c ++ (d ++ (e ++ f)))))
pieces x a b c d e f =
    append_assoc ((((x ++ a) ++ b) ++ c) ++ d) e f
    ∙ append_assoc (((x ++ a) ++ b) ++ c) d (e ++ f)
    ∙ append_assoc ((x ++ a) ++ b) c (d ++ (e ++ f))
    ∙ append_assoc (x ++ a) b (c ++ (d ++ (e ++ f)))
    ∙ append_assoc x a (b ++ (c ++ (d ++ (e ++ f))))

pub length-record_bytes :
    (call : Call) → length call.3.content_digest ≡ 20 → length (record_bytes call) ≡ 48
length-record_bytes (index, hash, path, r) e =
    omega (arith, e, length-append r.content_digest (unset_pointer ++ to_bytes 4 0))

-- Where the pointer of a record is written.
pointer_offset_lem :
    (x a b c d : List ℕ)
    → length ((((x ++ a) ++ b) ++ c) ++ d)
      ≡ length x + (length a + (length b + (length c + length d)))
pointer_offset_lem x a b c d = omega (
  arith,
  length-append (((x ++ a) ++ b) ++ c) d,
  length-append ((x ++ a) ++ b) c,
  length-append (x ++ a) b,
  length-append x a,
)

-- What save_record makes of the three segments.
save_record_lem :
    (s : Saving) (k : ℕ) (call : Call)
    → length s.array_seg.bytes.elements ≡ 48 * k
    → s.string_seg.index ≡ 2
    → length call.3.content_digest ≡ 20
    → let s' = save_record s call in
      (s'.array_seg.bytes.elements ≡ s.array_seg.bytes.elements ++ record_bytes call)
      × (s'.array_seg.fixups.elements
          ≡ s.array_seg.fixups.elements
            ++ name_pointers k (length s.string_seg.bytes.elements) (call ∷ []))
      × (s'.string_seg.bytes.elements ≡ s.string_seg.bytes.elements ++ (call.2 ++ 0 ∷ []))
unfolding save_record binary_segment_write binary_segment_write_int binary_segment_write_string_data
    binary_segment_write_pointer binary_segment_position buffer_append buffer_append_one
save_record_lem s k (index, hash, path, r) e two digest = (
  pieces s.array_seg.bytes.elements (to_bytes 8 r.timestamp) (to_bytes 8 r.access_time)
      (to_bytes 4 hash) r.content_digest unset_pointer (to_bytes 4 0),
  ap₂
      (λ offset i.
        s.array_seg.fixups.elements
        ++ record {
          pointer_offset = offset;
          target = record { seg_index = i; offset = length s.string_seg.bytes.elements };
        }
          ∷ [])
      (pointer_offset_lem s.array_seg.bytes.elements (to_bytes 8 r.timestamp)
          (to_bytes 8 r.access_time) (to_bytes 4 hash) r.content_digest
        ∙ omega arith)
      two,
  refl,
)

-- What save_records makes of them.
abbrev pub IsSaved : Saving → Saving → ℕ → List Call → Type 0
IsSaved s s' k calls =
    (s'.main_seg ≡ s.main_seg)
    × (s'.array_seg.index ≡ s.array_seg.index)
    × (s'.array_seg.bytes.elements ≡ s.array_seg.bytes.elements ++ table_bytes calls)
    × (s'.array_seg.fixups.elements
        ≡ s.array_seg.fixups.elements ++ name_pointers k (length s.string_seg.bytes.elements) calls)
    × (s'.string_seg.index ≡ s.string_seg.index)
    × (s'.string_seg.bytes.elements ≡ s.string_seg.bytes.elements ++ name_bytes calls)
    × (s'.string_seg.fixups ≡ s.string_seg.fixups)

save_record-kept :
    (s : Saving) (call : Call)
    → let s' = save_record s call in
      (s'.main_seg ≡ s.main_seg)
      × (s'.array_seg.index ≡ s.array_seg.index)
      × (s'.string_seg.index ≡ s.string_seg.index)
      × (s'.string_seg.fixups ≡ s.string_seg.fixups)
unfolding save_record binary_segment_write binary_segment_write_int binary_segment_write_string_data
    binary_segment_write_pointer
save_record-kept s (index, hash, path, r) = (refl, refl, refl, refl)

pub save_records-IsSaved :
    (s : Saving) (k : ℕ) (calls : List Call)
    → length s.array_seg.bytes.elements ≡ 48 * k
    → s.string_seg.index ≡ 2
    → HasDigests calls
    → IsSaved s (save_records s calls) k calls
unfolding save_records
save_records-IsSaved s k [] e two all = (
  refl,
  refl,
  sym (append-nil s.array_seg.bytes.elements),
  sym (append-nil s.array_seg.fixups.elements),
  refl,
  sym (append-nil s.string_seg.bytes.elements),
  refl,
)
save_records-IsSaved s k (call ∷ calls) e two (digest, all) =
    let s' = save_record s call in
    let (bytes, fixups, strings) = save_record_lem s k call e two digest in
    let (main, ai, si, sf) = save_record-kept s call in
    let grown = ap length bytes ∙ length-append s.array_seg.bytes.elements (record_bytes call) in
    let (main', ai', bytes', fixups', si', strings', sf') =
      save_records-IsSaved s' (k + 1) calls (omega (arith, grown, length-record_bytes call digest))
        (si ∙ two) all in
    let next = ap length strings ∙ length-append s.string_seg.bytes.elements (call.2 ++ 0 ∷ []) in
    (
      main' ∙ main,
      ai' ∙ ai,
      bytes'
          ∙ ap (λ l. l ++ table_bytes calls) bytes
          ∙ append_assoc s.array_seg.bytes.elements (record_bytes call) (table_bytes calls),
      fixups'
          ∙ ap₂ (λ l n. l ++ name_pointers (k + 1) n calls) fixups next
          ∙ append_assoc s.array_seg.fixups.elements
              (name_pointers k (length s.string_seg.bytes.elements) (call ∷ []))
              (name_pointers (k + 1)
                (length s.string_seg.bytes.elements + length (call.2 ++ 0 ∷ [])) calls),
      si' ∙ si,
      strings'
          ∙ ap (λ l. l ++ name_bytes calls) strings
          ∙ append_assoc s.string_seg.bytes.elements (call.2 ++ 0 ∷ []) (name_bytes calls),
      sf' ∙ sf,
    )
