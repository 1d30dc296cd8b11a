-- ===== src/Tests/OfScanCache.antt =====
-- An insertion into an empty scan cache, and runs of insertions and lookups.
use tundra.SortedArrays.{HashDigest}
use tundra.HashTable.{HashTableFlags}
use tundra.ScanCache.{
  ScanCache, scan_cache_init, scan_cache_set_cache, scan_cache_lookup, scan_cache_insert,
  scan_cache_dirty, FileAndHash, ScanData,
}
use tundra.Words.{next_power_of_two}
use tundra.ScanCache.Room.{IsScanCache}
use tundra.ScanCache.Insert.{Inserts, scan_cache_insert-Inserts}
use tundra.Prelude.{
  ℕ, ◌^◌, ◌≤◌, ◌≡◌, inl, refl, false, List, [], ◌∷◌, Option, none, some, length, ◌>>=◌, arith,
}

abbrev cased : HashTableFlags
cased = HashTableFlags.flag_case_sensitive

abbrev key_1 : HashDigest
key_1 = record { a = 1; b = 2; c = 3 }

abbrev includes_b : List (List ℕ)
includes_b = (b'b' ∷ []) ∷ []

abbrev empty_cache : ScanCache
empty_cache = scan_cache_init

empty_cache-IsScanCache : IsScanCache empty_cache
unfolding scan_cache_init
empty_cache-IsScanCache = inl (refl, refl)

empty_cache_size : empty_cache.table_size ≤ 2 ^ 30
unfolding scan_cache_init
empty_cache_size = omega arith

scan_cache_insert-Inserts_example :
    (self' : ScanCache) × (scan_cache_insert cased empty_cache key_1 20 includes_b ≡ some self')
    × IsScanCache self'
    × Inserts cased key_1 20 includes_b empty_cache self'
scan_cache_insert-Inserts_example =
    scan_cache_insert-Inserts cased key_1 20 includes_b empty_cache empty_cache-IsScanCache
      empty_cache_size

abbrev number_of : Option (List FileAndHash) → ℕ
number_of none = 100
number_of (some files) = length files

-- A record is found with its time stamp and with no other, and a new time stamp replaces it.
lookup_runs :
    (scan_cache_insert cased empty_cache key_1 20 includes_b >>= (λ c.
      scan_cache_insert cased c key_1 30 [] >>= (λ d. some (
        number_of (scan_cache_lookup (λ t k. 0) c key_1 20).0
        ∷ number_of (scan_cache_lookup (λ t k. 0) c key_1 30).0
        ∷ number_of (scan_cache_lookup (λ t k. 0) d key_1 30).0
        ∷ []))))
    ≡ some (1 ∷ 100 ∷ 0 ∷ [])
unfolding scan_cache_insert scan_cache_lookup scan_cache_init
lookup_runs = refl

abbrev frozen : ScanData
frozen = record {
  keys = key_1 ∷ [];
  entries = record { file_timestamp = 20; included_files = [] } ∷ [];
  access_times = 5 ∷ [];
}

-- A frozen record, whose use is noted; keys out of order are refused.
frozen_runs :
    ((scan_cache_set_cache empty_cache (some frozen)
        >>= (λ c. some (scan_cache_lookup (λ t k. 0) c key_1 20).1.frozen_access))
      ≡ some (1 ∷ []))
    × (scan_cache_set_cache empty_cache
          (some (record frozen { keys = record key_1 { a = 2 } ∷ key_1 ∷ [] }))
        ≡ none)
unfolding scan_cache_lookup scan_cache_set_cache scan_cache_init
frozen_runs = (refl, refl)

dirty_runs : scan_cache_dirty empty_cache ≡ false
unfolding scan_cache_dirty scan_cache_init
dirty_runs = refl

powers_run : next_power_of_two 1000 ≡ some 1024
unfolding next_power_of_two
powers_run = refl
