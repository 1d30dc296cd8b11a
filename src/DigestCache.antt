-- ===== src/DigestCache.antt =====
-- src/DigestCache.cpp and DigestCache.hpp, one call after the other: the digest of each file's
-- content, with the time stamp that the file had. A digest is its bytes, m_Data.
pub mod Records
pub mod Save
pub mod Saved
pub mod SavedWriter
pub mod SavedFile
use tundra.HashTable.{
  HashTableFlags, HashTable, hash_table_init, hash_table_destroy, hash_table_base_lookup,
  hash_table_insert, hash_table_walk,
}
use tundra.HashTable.Update.{store_payload}
use tundra.Prelude.{
  ℕ, ◌+◌, ◌-◌, ◌*◌, ◌%◌, ◌^◌, Bool, true, false, List, [], ◌∷◌, Option, none, some, if◌then◌else◌,
  ltb, ◌==◌, get_or, ◌>>=◌,
}

pub record DigestCacheRecord : Type 0 where
  pub content_digest : List ℕ
  pub timestamp : ℕ
  pub access_time : ℕ

-- A zeroed record, which is never read.
abbrev pub no_record : DigestCacheRecord
no_record = record { content_digest = []; timestamp = 0; access_time = 0 }

-- A FrozenDigestRecord, by what its fields say.
pub record FrozenDigestRecord : Type 0 where
  pub timestamp : ℕ
  pub access_time : ℕ
  pub filename_hash : ℕ
  pub content_digest : List ℕ
  pub filename : List ℕ

pub record DigestCacheState : Type 0 where
  pub magic_number : ℕ
  pub records : List FrozenDigestRecord

-- 0x12781fa6 ^ kTundraHashMagic, for SHA-1
abbrev pub digest_cache_magic : ℕ
digest_cache_magic = 0xe8f40bde

-- `state` is m_State, the file that is mapped, or none for a null pointer.
pub record DigestCache : Type 0 where
  pub state : Option DigestCacheState
  pub table : HashTable DigestCacheRecord
  pub access_time : ℕ

-- DigestCacheInit, at a time.
unfoldable pub digest_cache_init : ℕ → DigestCache
unfolding hash_table_init
digest_cache_init time = record { state = none; table = hash_table_init; access_time = time }

-- What DigestCacheGet does with the record that it found.
unfoldable pub get_found : DigestCache → ℕ → Option ℕ → Option (List ℕ) × DigestCache
unfolding store_payload
get_found self timestamp none = (none, self)
get_found self timestamp (some index) =
    let r = get_or self.table.slots.payloads index no_record in
    let touched = store_payload self.table index (record r { access_time = self.access_time }) in
    if r.timestamp == timestamp
    then (some r.content_digest, record self { table = touched })
    else (none, self)

-- DigestCacheGet: the digest, or none where it returns false.
unfoldable pub digest_cache_get :
    HashTableFlags → DigestCache → List ℕ → ℕ → ℕ → Option (Option (List ℕ) × DigestCache)
unfolding hash_table_base_lookup get_found
digest_cache_get flags self filename hash timestamp =
    hash_table_base_lookup flags self.table hash filename
    >>= (λ found. some (get_found self timestamp found))

unfoldable pub set_found :
    DigestCache → List ℕ → ℕ → DigestCacheRecord → Option ℕ → Option DigestCache
unfolding store_payload hash_table_insert
set_found self filename hash r none =
    hash_table_insert no_record self.table hash filename r
    >>= (λ table. some (record self { table = table }))
set_found self filename hash r (some index) =
    some (record self { table = store_payload self.table index r })

unfoldable pub digest_cache_set :
    HashTableFlags → DigestCache → List ℕ → ℕ → ℕ → List ℕ → Option DigestCache
unfolding hash_table_base_lookup set_found
digest_cache_set flags self filename hash timestamp digest =
    let r : DigestCacheRecord = record {
      content_digest = digest;
      timestamp = timestamp;
      access_time = self.access_time;
    } in
    hash_table_base_lookup flags self.table hash filename
    >>= (λ found. set_found self filename hash r found)

-- `time_now - 7 * 24 * 60 * 60`
unfoldable pub cutoff_time : ℕ → ℕ
cutoff_time time_now = (time_now + (2 ^ 64 - 7 * 24 * 60 * 60)) % 2 ^ 64

-- The loop of DigestCacheOpen
unfoldable pub open_records :
    ℕ → List FrozenDigestRecord → HashTable DigestCacheRecord → Option (HashTable DigestCacheRecord)
unfolding hash_table_insert
open_records cutoff [] table = some table
open_records cutoff (r ∷ records) table =
    let loaded : DigestCacheRecord = record {
      content_digest = r.content_digest;
      timestamp = r.timestamp;
      access_time = r.access_time;
    } in
    if ltb r.access_time cutoff
    then open_records cutoff records table
    else hash_table_insert no_record table r.filename_hash r.filename loaded
      >>= (λ table'. open_records cutoff records table')

-- DigestCacheOpen, with the state in the file, or none where no file could be mapped; a file with
-- another magic number is unmapped.
unfoldable pub digest_cache_open : DigestCache → Option DigestCacheState → ℕ → Option DigestCache
unfolding open_records cutoff_time
digest_cache_open self none time_now = some self
digest_cache_open self (some file) time_now =
    let opened = open_records (cutoff_time time_now) file.records self.table in
    if file.magic_number == digest_cache_magic
    then opened >>= (λ table. some (record self { state = some file; table = table }))
    else some self

unfoldable pub digest_cache_destroy : DigestCache → DigestCache
unfolding hash_table_destroy
digest_cache_destroy self = record self { table = hash_table_destroy self.table }
