-- ===== src/DigestCache/SavedFile.antt =====
-- The file that DigestCacheSave leaves.
use mathlib.Core.Option.{some-injective, some-ne-none}
use tundra.HashTable.{HashTableFlags, Slots, walk_loop, hash_table_walk}
use tundra.HashTable.Walk.{Called, Stands, hash_table_walk-Called}
use tundra.BinaryWriter.{BinaryWriter, Stdio}
use tundra.BinaryWriter.Layout.{contents, aligned}
use tundra.BinaryWriter.Places.{IsTooBig, IsFile}
use tundra.BinaryWriter.File.{IsWritable, binary_writer_flush-IsFile}
use tundra.DigestCache.{DigestCacheRecord, no_record, DigestCache}
use tundra.DigestCache.Records.{IsCache}
use tundra.DigestCache.Save.{
  Call, saved_writer, FileEffect, effects_of_flush, save_flushed, digest_cache_save,
}
use tundra.DigestCache.Saved.{HasDigests}
use tundra.DigestCache.SavedWriter.{
  Writes, saved_writer-Writes, saved_writer-HasIndices, Writes-IsWriter,
}
use tundra.Prelude.{
  ℕ, zero, suc, ◌+◌, ◌^◌, ◌<◌, ◌≡◌, ◌≢◌, ◌⊎◌, inl, inr, refl, sym, subst, ◌↔◌, Bool, true, false,
  List, [], ◌∷◌, none, some, length, get_or, ◌==◌, check, ◌>>◌, Bool-cases, arith,
}

-- The records in the order of their slots.
abbrev pub records_of : DigestCache → List Call
records_of self = walk_loop no_record self.table.slots self.table.table_size 0 0

abbrev pub saved : DigestCache → BinaryWriter
saved self = saved_writer self.table.record_count (records_of self)

-- Each record that is used has a digest of 20 bytes.
abbrev pub IsDigested : DigestCache → Type 0
IsDigested self =
    (i : ℕ)
    → get_or self.table.slots.hashes i 0 ≢ 0
    → length (get_or self.table.slots.payloads i no_record).content_digest ≡ 20

walk_loop-HasDigests :
    (s : Slots DigestCacheRecord) (left i n : ℕ)
    → ((j : ℕ)
        → get_or s.hashes j 0 ≢ 0
        → length (get_or s.payloads j no_record).content_digest ≡ 20)
    → HasDigests (walk_loop no_record s left i n)
unfolding walk_loop
walk_loop-HasDigests s zero i n digested = tt
walk_loop-HasDigests s (suc left) i n digested = elim (Bool-cases (get_or s.hashes i 0 == 0)) [
  | inl free ↦ rw free (walk_loop-HasDigests s left (i + 1) n digested)
  | inr used ↦
      rw used (digested i (ground arith), walk_loop-HasDigests s left (i + 1) (n + 1) digested)
]

-- The calls have the hash, the path and the record of each slot that is used, and no others.
abbrev pub AreRecords : DigestCache → List Call → Type 0
AreRecords self calls =
    (hash : ℕ) (path : List ℕ) (r : DigestCacheRecord)
    → hash ≢ 0
    → Called hash path r calls
      ↔ Stands no_record self.table.slots 0 self.table.table_size hash path r

checked-some :
    (b : Bool) (xs ys : List Call)
    → (check b >> some xs) ≡ some ys
    → ((check b >> some xs) ≡ some xs) × (ys ≡ xs)
checked-some true xs ys e = (refl, some-injective _ _ (sym e))
checked-some false xs ys e = absurd (some-ne-none _ (sym e))

walk-records_of :
    (flags : HashTableFlags) (self : DigestCache)
    → IsCache flags self
    → (hash_table_walk no_record self.table ≡ some (records_of self))
      × AreRecords self (records_of self)
unfolding hash_table_walk
walk-records_of flags self v =
    let (calls, walked, numbered, counted, called) =
      hash_table_walk-Called flags no_record self.table v in
    let (passes, same) =
      checked-some (length (records_of self) == self.table.record_count) (records_of self) calls
        walked in
    (passes, subst (AreRecords self) same called)

module _ (flags : HashTableFlags) (io : Stdio) (rename_file : List ℕ → List ℕ → Bool) where
  -- In a cache whose digests have 20 bytes, where the file can be written and the segments have less
  -- than 2^63 bytes, what is flushed is a head with the magic number and the count, a record of 48 bytes
  -- for each used slot and no other, and their paths, with a pointer in each record to its path. Saving
  -- croaks only where such a pointer does not fit 32 bits; else the file that is written holds these
  -- segments, each pointer leading to its target, it is renamed to the cache's name, which is what the
  -- call answers by, and the old state is gone.
  pub digest_cache_save-Saves :
      (self : DigestCache) (filename tmp_filename : List ℕ)
      → IsCache flags self
      → IsDigested self
      → IsWritable io tmp_filename
      → length (contents (aligned (saved self))) < 2 ^ 63
      → Writes self.table.record_count (records_of self) (saved self)
        × AreRecords self (records_of self)
        × (((digest_cache_save io rename_file self filename tmp_filename ≡ none)
              × IsTooBig (saved self))
            ⊎ ((file : List ℕ) × (digest_cache_save io rename_file self filename tmp_filename
                  ≡ some (
                    (
                      rename_file tmp_filename filename,
                      FileEffect.written tmp_filename file
                          ∷ FileEffect.renamed tmp_filename filename
                          ∷ [],
                    ),
                    record self { state = none },
                  ))
                × IsFile (saved self) file))
  unfolding digest_cache_save save_flushed effects_of_flush
  digest_cache_save-Saves self filename tmp_filename v digested ok small =
      let calls = records_of self in
      let count = self.table.record_count in
      let all = walk_loop-HasDigests self.table.slots self.table.table_size 0 0 digested in
      let writes = saved_writer-Writes count calls all in
      let good =
        Writes-IsWriter (saved self) count calls all (saved_writer-HasIndices count calls all)
          writes in
      let (walked, are) = walk-records_of flags self v in
      (
        writes,
        are,
        elim (binary_writer_flush-IsFile io (saved self) tmp_filename good small ok) [
          | inl (e, big) ↦ inl (rw (walked, e) refl, big)
          | inr (file, e, is_file) ↦ inr (file, rw (walked, e) refl, is_file)
        ],
      )
