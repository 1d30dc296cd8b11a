-- ===== src/DigestCache/Save.antt =====
-- DigestCacheSave of src/DigestCache.cpp: three segments for the head, the records and the names, and
-- the files of the flush. What rename answers is a parameter; a digest is one of SHA-1.
use tundra.HashTable.{hash_table_walk}
use tundra.BinaryWriter.{
  BinarySegment, BinaryWriter, Stdio, binary_segment_init, binary_segment_write,
  binary_segment_write_int, binary_segment_write_string_data, binary_segment_write_pointer,
  binary_segment_position, binary_writer_flush,
}
use tundra.DigestCache.{DigestCacheRecord, no_record, DigestCache, digest_cache_magic}
use tundra.Prelude.{ℕ, Bool, true, false, List, [], ◌∷◌, ◌++◌, Option, none, some, ◌>>=◌}

-- The arguments of the callback of the walk: the index, the hash, the path and the record.
abbrev pub Call : Type 0
Call = ℕ × ℕ × List ℕ × DigestCacheRecord

-- main_seg, array_seg and string_seg
pub record Saving : Type 0 where
  pub main_seg : BinarySegment
  pub array_seg : BinarySegment
  pub string_seg : BinarySegment

unfoldable pub save_record : Saving → Call → Saving
unfolding binary_segment_write binary_segment_write_int binary_segment_write_string_data
    binary_segment_write_pointer binary_segment_position
save_record self (index, hash, path, r) =
    let a1 = binary_segment_write_int 8 self.array_seg r.timestamp in
    let a2 = binary_segment_write_int 8 a1 r.access_time in
    let a3 = binary_segment_write_int 4 a2 hash in
    let a4 = binary_segment_write a3 r.content_digest in
    let a5 = binary_segment_write_pointer a4 (binary_segment_position self.string_seg) in
    record self {
      array_seg = binary_segment_write_int 4 a5 0;
      string_seg = binary_segment_write_string_data self.string_seg path;
    }

unfoldable pub save_records : Saving → List Call → Saving
unfolding save_record
save_records self [] = self
save_records self (call ∷ calls) = save_records (save_record self call) calls

unfoldable pub save_start : Saving
unfolding binary_segment_init
save_start = record {
  main_seg = binary_segment_init 0;
  array_seg = binary_segment_init 1;
  string_seg = binary_segment_init 2;
}

-- The writer before the flush.
unfoldable pub saved_writer : ℕ → List Call → BinaryWriter
unfolding save_start save_records binary_segment_write_int binary_segment_write_pointer
    binary_segment_position
saved_writer record_count calls =
    let s = save_records save_start calls in
    let m1 = binary_segment_write_int 4 s.main_seg digest_cache_magic in
    let m2 = binary_segment_write_int 4 m1 record_count in
    let m3 = binary_segment_write_pointer m2 (binary_segment_position save_start.array_seg) in
    m3 ∷ s.array_seg ∷ s.string_seg ∷ []

-- What is done to files.
pub data FileEffect : Type 0 where
  written : List ℕ → List ℕ → FileEffect
  renamed : List ℕ → List ℕ → FileEffect
  removed : List ℕ → FileEffect

unfoldable pub effects_of_flush : List ℕ → Option (List ℕ) → List FileEffect
effects_of_flush path none = []
effects_of_flush path (some file) = FileEffect.written path file ∷ []

-- What follows the flush, with whether it succeeded.
unfoldable pub save_flushed :
    (List ℕ → List ℕ → Bool) → List ℕ → List ℕ → Bool × Option (List ℕ) → Bool × List FileEffect
unfolding effects_of_flush
save_flushed rename_file filename tmp_filename (true, file) = (
  rename_file tmp_filename filename,
  effects_of_flush tmp_filename file ++ FileEffect.renamed tmp_filename filename ∷ [],
)
save_flushed rename_file filename tmp_filename (false, file) =
    (false, effects_of_flush tmp_filename file ++ FileEffect.removed tmp_filename ∷ [])

-- DigestCacheSave: no value where a check fails or the writer croaks.
unfoldable pub digest_cache_save :
    Stdio
    → (List ℕ → List ℕ → Bool)
    → DigestCache
    → List ℕ
    → List ℕ
    → Option ((Bool × List FileEffect) × DigestCache)
unfolding hash_table_walk saved_writer binary_writer_flush save_flushed
digest_cache_save io rename_file self filename tmp_filename = do
  calls ← hash_table_walk no_record self.table
  flushed ← binary_writer_flush io (saved_writer self.table.record_count calls) tmp_filename
  some (save_flushed rename_file filename tmp_filename flushed, record self { state = none })
