-- ===== src/ScanCache.antt =====
-- src/ScanCache.cpp and ScanCache.hpp, one call after the other: which files a file includes, with the
-- time stamp that it had. The chains of the table are lists. No two records have the same key, so that
-- the key stands for the pointer to a record.
pub mod Chains
pub mod Rehash
pub mod Room
pub mod Links
pub mod Insert
use Prim.Native.Nat.{bit_and, bit_xor, Ordering}
use tundra.SortedArrays.{HashDigest, compare_hash_digests, binary_search}
use tundra.SortedArrays.Digests.{number}
use tundra.HashTable.{HashTableFlags}
use tundra.StringHash.{djb2_hash_path, djb2_hash_path64}
use tundra.Words.{next_power_of_two, load_big_endian32, load_big_endian64}
use tundra.Prelude.{
  ℕ, zero, suc, ◌+◌, ◌-◌, ◌*◌, ◌/◌, ◌%◌, ◌^◌, max, Bool, true, false, not, List, [], ◌∷◌, ◌++◌, map,
  Option, none, some, if◌then◌else◌, ltb, leb, ◌==◌, length, get_or, set, replicate, check, ◌>>=◌,
  ◌>>◌,
}

-- The exclusive or is one of the words as they lie in memory.
unfoldable pub compute_scan_cache_key : HashTableFlags → List ℕ → HashDigest → HashDigest
unfolding djb2_hash_path64 load_big_endian64
compute_scan_cache_key flags filename scanner_hash =
    let path_hash = djb2_hash_path64 flags filename in
    record scanner_hash {
      a = load_big_endian64 (bit_xor (load_big_endian64 scanner_hash.a) path_hash);
    }

pub record FileAndHash : Type 0 where
  pub filename : List ℕ
  pub filename_hash : ℕ

-- ScanCache::Record, without the link.
pub record Record : Type 0 where
  pub key : HashDigest
  pub file_timestamp : ℕ
  pub includes : List FileAndHash

pub record ScanCacheEntry : Type 0 where
  pub file_timestamp : ℕ
  pub included_files : List FileAndHash

-- ScanData, the frozen cache of an earlier session.
pub record ScanData : Type 0 where
  pub keys : List HashDigest
  pub entries : List ScanCacheEntry
  pub access_times : List ℕ

pub record ScanCache : Type 0 where
  pub frozen_data : Option ScanData
  pub record_count : ℕ
  pub table_size : ℕ
  pub table : List (List Record)
  pub frozen_access : List ℕ

unfoldable pub scan_cache_init : ScanCache
scan_cache_init = record {
  frozen_data = none;
  record_count = 0;
  table_size = 0;
  table = [];
  frozen_access = [];
}

-- The loop over the keys: no key comes before the one that it stands behind.
unfoldable pub keys_sorted : List HashDigest → Bool
unfolding compare_hash_digests
keys_sorted [] = true
keys_sorted (k ∷ []) = true
keys_sorted (k ∷ l ∷ keys) =
    let rest = keys_sorted (l ∷ keys) in
    elim (compare_hash_digests l k) [ Ordering.lt ↦ false | _ ↦ rest ]

-- ScanCacheSetCache; it croaks where the keys are not sorted.
unfoldable pub scan_cache_set_cache : ScanCache → Option ScanData → Option ScanCache
unfolding keys_sorted
scan_cache_set_cache self none = some (record self { frozen_data = none })
scan_cache_set_cache self (some frozen_data) =
    (check (keys_sorted frozen_data.keys)
      >> some (record self {
        frozen_data = some frozen_data;
        frozen_access = replicate (length frozen_data.keys) 0;
      }))

-- `l == r`
unfoldable pub same_digest : HashDigest → HashDigest → Bool
unfolding compare_hash_digests
same_digest l r = elim (compare_hash_digests l r) [ Ordering.eq ↦ true | _ ↦ false ]

-- `key.m_Words.m_C & (table_size - 1)`
unfoldable pub chain_index : ℕ → HashDigest → ℕ
unfolding load_big_endian32
chain_index table_size key = bit_and (load_big_endian32 key.c) (table_size - 1)

-- The loop of LookupDynamic along a chain.
unfoldable pub find_record : HashDigest → List Record → Option Record
unfolding same_digest
find_record key [] = none
find_record key (r ∷ chain) = if same_digest key r.key then some r else find_record key chain

unfoldable pub lookup_dynamic : ScanCache → HashDigest → Option Record
unfolding chain_index find_record
lookup_dynamic self key =
    if ltb 0 self.table_size
    then find_record key (get_or self.table (chain_index self.table_size key) [])
    else none

-- The end of ScanCacheLookup: this session's records.
unfoldable pub dynamic_answer : ℕ → Option Record → Option (List FileAndHash)
dynamic_answer timestamp none = none
dynamic_answer timestamp (some r) = if r.file_timestamp == timestamp then some r.includes else none

abbrev pub no_entry : ScanCacheEntry
no_entry = record { file_timestamp = 0; included_files = [] }

-- The search of ScanCacheLookup in the frozen data: an entry's index and its files. The order of the
-- keys is that of the numbers that they spell.
unfoldable pub frozen_answer :
    (List ℕ → ℕ → ℕ) → Option ScanData → HashDigest → ℕ → Option (ℕ × List FileAndHash)
unfolding binary_search
frozen_answer lower_bound none key timestamp = none
frozen_answer lower_bound (some data') key timestamp =
    elim (binary_search lower_bound (map number data'.keys) (number key)) [
      | none ↦ none
      | some index ↦
          let entry = get_or data'.entries index no_entry in
          if entry.file_timestamp == timestamp then some (index, entry.included_files) else none
    ]

-- What ScanCacheLookup does with what it found in the frozen data.
unfoldable pub lookup_found :
    ScanCache
    → HashDigest
    → ℕ
    → Option (ℕ × List FileAndHash)
    → Option (List FileAndHash) × ScanCache
unfolding lookup_dynamic dynamic_answer
lookup_found self key timestamp (some (index, files)) =
    (some files, record self { frozen_access = set self.frozen_access index 1 })
lookup_found self key timestamp none = (dynamic_answer timestamp (lookup_dynamic self key), self)

-- ScanCacheLookup: the included files, or none where it fails.
unfoldable pub scan_cache_lookup :
    (List ℕ → ℕ → ℕ) → ScanCache → HashDigest → ℕ → Option (List FileAndHash) × ScanCache
unfolding frozen_answer lookup_found
scan_cache_lookup lower_bound self key timestamp =
    lookup_found self key timestamp (frozen_answer lower_bound self.frozen_data key timestamp)

-- The links that put a record at the head of its chain.
unfoldable pub push_record : ℕ → Record → List (List Record) → List (List Record)
unfolding chain_index
push_record size r table =
    let index = chain_index size r.key in set table index (r ∷ get_or table index [])

-- The loops of ScanCachePrepareInsert over one chain and over the old table.
unfoldable pub rehash_chain : ℕ → List Record → List (List Record) → List (List Record)
unfolding push_record
rehash_chain size [] table = table
rehash_chain size (r ∷ chain) table = rehash_chain size chain (push_record size r table)

unfoldable pub rehash_chains : ℕ → List (List Record) → List (List Record) → List (List Record)
unfolding rehash_chain
rehash_chains size [] table = table
rehash_chains size (chain ∷ chains) table =
    rehash_chains size chains (rehash_chain size chain table)

-- `0x100 * m_RecordCount / old_size`, a 32-bit product
unfoldable pub chain_load : ScanCache → ℕ
chain_load self = 0x100 * self.record_count % 2 ^ 32 / self.table_size

unfoldable pub grow_table : ScanCache → ℕ → ScanCache
unfolding rehash_chains
grow_table self pow2 =
    let new_size = max pow2 64 in
    record self {
      table_size = new_size;
      table = rehash_chains new_size self.table (replicate new_size []);
    }

unfoldable pub scan_cache_prepare_insert : ScanCache → Option ScanCache
unfolding chain_load next_power_of_two grow_table
scan_cache_prepare_insert self =
    let grown = next_power_of_two (self.table_size + 1) >>= (λ pow2. some (grow_table self pow2)) in
    if ltb 0 self.table_size
    then (if ltb (chain_load self) 0xc0 then some self else grown)
    else grown

-- The copies of the paths, with their hashes.
unfoldable pub hash_files : HashTableFlags → List (List ℕ) → List FileAndHash
unfolding djb2_hash_path
hash_files flags included_files =
    map (λ f. record { filename = f; filename_hash = djb2_hash_path flags f }) included_files

-- The stores to a record that is in the table.
unfoldable pub store_in_chain : Record → List Record → List Record
unfolding same_digest
store_in_chain r [] = []
store_in_chain r (s ∷ chain) = (if same_digest r.key s.key then r else s) ∷ store_in_chain r chain

unfoldable pub store_record : Record → List (List Record) → List (List Record)
unfolding store_in_chain
store_record r table = map (store_in_chain r) table

-- ScanCacheInsert behind ScanCachePrepareInsert.
unfoldable pub put_record : Bool → Record → ScanCache → ScanCache
unfolding push_record store_record
put_record is_fresh r self =
    if is_fresh
    then record self {
      table = push_record self.table_size r self.table;
      record_count = (self.record_count + 1) % 2 ^ 32;
    }
    else record self { table = store_record r self.table }

-- What ScanCacheInsert does with the record that it found.
unfoldable pub insert_found : ScanCache → Record → Option Record → Option ScanCache
unfolding scan_cache_prepare_insert put_record
insert_found self r none =
    scan_cache_prepare_insert self >>= (λ self'. some (put_record true r self'))
insert_found self r (some old) =
    if old.file_timestamp == r.file_timestamp
    then some self
    else scan_cache_prepare_insert self >>= (λ self'. some (put_record false r self'))

unfoldable pub scan_cache_insert :
    HashTableFlags → ScanCache → HashDigest → ℕ → List (List ℕ) → Option ScanCache
unfolding lookup_dynamic insert_found hash_files
scan_cache_insert flags self key timestamp included_files =
    insert_found self
      (record { key = key; file_timestamp = timestamp; includes = hash_files flags included_files })
      (lookup_dynamic self key)

unfoldable pub scan_cache_dirty : ScanCache → Bool
scan_cache_dirty self = ltb 0 self.record_count
