-- ===== src/Tests/OfSaving.antt =====
-- A cache with one digest, which is saved to a disk that takes every byte.
use tundra.HashTable.{HashTableFlags, hash_table_init}
use tundra.HashTable.Contents.{hash_table_init-IsTable}
use tundra.BinaryWriter.{Stdio}
use tundra.BinaryWriter.Layout.{contents, aligned}
use tundra.BinaryWriter.Places.{IsTooBig, IsFile}
use tundra.BinaryWriter.File.{IsWritable}
use tundra.DigestCache.{
  DigestCacheRecord, no_record, DigestCache, digest_cache_init, digest_cache_set,
}
use tundra.DigestCache.Records.{IsCache, digest_cache_set-Sets}
use tundra.DigestCache.Save.{FileEffect, digest_cache_save, save_flushed}
use tundra.DigestCache.SavedWriter.{Writes}
use tundra.DigestCache.SavedFile.{
  records_of, saved, IsDigested, AreRecords, digest_cache_save-Saves,
}
use tundra.Prelude.{
  ℕ, zero, suc, ◌^◌, ◌≤◌, ◌<◌, ◌≡◌, ◌≢◌, ◌⊎◌, refl, sym, ap, subst, List, [], ◌∷◌, ◌++◌, Bool, true,
  false, ◌&&◌, ◌||◌, ◌==◌, Option, none, some, length, get_or, replicate, arith,
}

abbrev cased : HashTableFlags
cased = HashTableFlags.flag_case_sensitive

abbrev empty_cache : DigestCache
empty_cache = digest_cache_init 100

abbrev path_c : List ℕ
path_c = b'a' ∷ b'.' ∷ b'c' ∷ []

abbrev sha1 : List ℕ
sha1 = replicate 20 7

abbrev cache_or : Option DigestCache → DigestCache
cache_or none = empty_cache
cache_or (some cache) = cache

abbrev one_cache : DigestCache
one_cache = cache_or (digest_cache_set cased empty_cache path_c 5 20 sha1)

empty_shift : empty_cache.table.table_size_shift ≤ 29
unfolding digest_cache_init hash_table_init
empty_shift = omega arith

empty-IsCache : IsCache cased empty_cache
unfolding digest_cache_init
empty-IsCache = hash_table_init-IsTable cased no_record

one_cache-IsCache : IsCache cased one_cache
one_cache-IsCache =
    let (self', e, v, sets) =
      digest_cache_set-Sets cased empty_cache path_c 5 20 sha1 empty-IsCache empty_shift
        (omega arith) in
    subst (IsCache cased) (sym (ap cache_or e)) v

-- Each slot is free or has a digest of 20 bytes.
abbrev all_digested : List ℕ → List DigestCacheRecord → Bool
all_digested [] rs = true
all_digested (h ∷ hs) [] = h == 0 && all_digested hs []
all_digested (h ∷ hs) (r ∷ rs) = (h == 0 || length r.content_digest == 20) && all_digested hs rs

all_digested_lem :
    (hs : List ℕ) (rs : List DigestCacheRecord)
    → all_digested hs rs ≡ true
    → (i : ℕ) → get_or hs i 0 ≢ 0
    → length (get_or rs i no_record).content_digest ≡ 20
all_digested_lem [] rs e i used = absurd (used refl)
all_digested_lem (h ∷ hs) [] e zero used = absurd (ground (arith, e, used))
all_digested_lem (h ∷ hs) [] e (suc i) used = all_digested_lem hs [] (ground (arith, e)) i used
all_digested_lem (h ∷ hs) (r ∷ rs) e zero used = ground (arith, e, used)
all_digested_lem (h ∷ hs) (r ∷ rs) e (suc i) used =
    all_digested_lem hs rs (ground (arith, e)) i used

one_cache_digested : all_digested one_cache.table.slots.hashes one_cache.table.slots.payloads ≡ true
unfolding digest_cache_set digest_cache_init
one_cache_digested = refl

one_cache-IsDigested : IsDigested one_cache
one_cache-IsDigested =
    all_digested_lem one_cache.table.slots.hashes one_cache.table.slots.payloads one_cache_digested

abbrev disk : Stdio
disk = record { fopen = λ path. true; fwrite = λ file bytes. (file ++ bytes, length bytes) }

abbrev tmp_name : List ℕ
tmp_name = b't' ∷ []

abbrev file_name : List ℕ
file_name = b'd' ∷ []

disk-IsWritable : IsWritable disk tmp_name
disk-IsWritable = record { opens = refl; writes = λ file bytes. refl }

saved_size : length (contents (aligned (saved one_cache))) ≡ 80
unfolding digest_cache_set digest_cache_init digest_cache_save
saved_size = refl

saved_small : length (contents (aligned (saved one_cache))) < 2 ^ 63
saved_small = omega (arith, saved_size)

digest_cache_save-Saves_example :
    Writes one_cache.table.record_count (records_of one_cache) (saved one_cache)
    × AreRecords one_cache (records_of one_cache)
    × (((digest_cache_save disk (λ old new. true) one_cache file_name tmp_name ≡ none)
          × IsTooBig (saved one_cache))
        ⊎ ((file : List ℕ) × (digest_cache_save disk (λ old new. true) one_cache file_name tmp_name
              ≡ some (
                (
                  true,
                  FileEffect.written tmp_name file ∷ FileEffect.renamed tmp_name file_name ∷ [],
                ),
                record one_cache { state = none },
              ))
            × IsFile (saved one_cache) file))
digest_cache_save-Saves_example =
    digest_cache_save-Saves cased disk (λ old new. true) one_cache file_name tmp_name
      one_cache-IsCache one_cache-IsDigested disk-IsWritable saved_small

-- A flush that fails leaves no file of that name.
failed_run :
    save_flushed (λ old new. true) file_name tmp_name (false, none)
    ≡ (false, FileEffect.removed tmp_name ∷ [])
unfolding save_flushed
failed_run = refl
