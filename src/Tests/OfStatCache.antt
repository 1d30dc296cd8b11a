-- ===== src/Tests/OfStatCache.antt =====
-- A cache for a system whose files are all alike, empty and with a dirty record.
use tundra.HashTable.{HashTableFlags, hash_table_init, hash_table_lookup, hash_table_insert, load}
use tundra.HashTable.Contents.{IsTable, hash_table_init-IsTable}
use tundra.HashTable.Insertion.{hash_table_lookup-insert}
use tundra.StatCache.{
  FileInfo, StatCache, flag_dirty, no_info, is_clean, stat_cache_stat, stat_cache_mark_dirty,
  FileSystem, Answer, stat_cache_stat-Agrees, hash_table_init-Agrees,
}
use tundra.StatCache.Dirty.{stat_cache_stat_dirty}
use tundra.Prelude.{
  ℕ, ◌+◌, ◌≤◌, ltb, false, ◌≡◌, ◌≢◌, refl, sym, ap, subst, List, [], ◌∷◌, Option, none, some, ◌>>=◌,
  arith,
}

abbrev cased : HashTableFlags
cased = HashTableFlags.flag_case_sensitive

abbrev path_a : List ℕ
path_a = b'a' ∷ []

abbrev file_info : FileInfo
file_info = record { flags = 5; size = 10; timestamp = 20 }

abbrev dirty_info : FileInfo
dirty_info = record { flags = flag_dirty; size = 10; timestamp = 20 }

abbrev system : List ℕ → FileInfo
system path = file_info

abbrev empty : StatCache
empty = hash_table_init

system-FileSystem : FileSystem cased system
unfolding is_clean
system-FileSystem = record { same_file = λ a b e. refl; clean = λ path. refl }

abbrev hash_a : ℕ
hash_a = 177670

hash_a_pos : hash_a ≢ 0
hash_a_pos = omega arith

empty_shift : empty.table_size_shift ≤ 29
unfolding hash_table_init
empty_shift = omega arith

stat_cache_stat-Agrees_example : Answer cased system empty path_a hash_a
stat_cache_stat-Agrees_example =
    stat_cache_stat-Agrees cased system empty path_a hash_a system-FileSystem
      (hash_table_init-IsTable cased no_info) empty_shift hash_a_pos
      (hash_table_init-Agrees cased system)

-- A call, the mark, and two more calls.
mark_runs :
    ((stat_cache_stat cased system empty path_a hash_a
        >>= (λ r. stat_cache_mark_dirty cased r.1 path_a hash_a)
        >>= (λ t. stat_cache_stat cased system t path_a hash_a)
        >>= (λ r. stat_cache_stat cased system r.1 path_a hash_a))
      >>= (λ r. some r.1.record_count))
    ≡ some 3
unfolding stat_cache_stat stat_cache_mark_dirty hash_table_init
mark_runs = refl

abbrev table_or_empty : Option StatCache → StatCache
table_or_empty none = empty
table_or_empty (some t) = t

abbrev dirty_cache : StatCache
dirty_cache = table_or_empty (hash_table_insert no_info empty hash_a path_a dirty_info)

empty_lookup : hash_table_lookup no_info cased empty hash_a path_a ≡ some none
unfolding hash_table_lookup hash_table_init
empty_lookup = refl

dirty_cache-IsTable : IsTable cased no_info dirty_cache
dirty_cache-IsTable =
    let (t', inserted, v', maps) =
      hash_table_lookup-insert cased no_info empty hash_a path_a dirty_info
        (hash_table_init-IsTable cased no_info) empty_shift hash_a_pos empty_lookup in
    subst (IsTable cased no_info) (sym (ap table_or_empty inserted)) v'

dirty_shift : dirty_cache.table_size_shift ≤ 29
unfolding hash_table_insert hash_table_init
dirty_shift = omega arith

dirty_light : ltb 0x050 (load dirty_cache) ≡ false
unfolding hash_table_insert hash_table_init load
dirty_light = refl

dirty_found : hash_table_lookup no_info cased dirty_cache hash_a path_a ≡ some (some dirty_info)
unfolding hash_table_insert hash_table_init hash_table_lookup
dirty_found = refl

dirty_not_clean : is_clean dirty_info ≡ false
unfolding is_clean
dirty_not_clean = refl

stat_cache_stat_dirty_example :
    (t' : StatCache) × (stat_cache_stat cased system dirty_cache path_a hash_a
      ≡ some (system path_a, t'))
    × (t'.record_count ≡ dirty_cache.record_count + 1)
    × (hash_table_lookup no_info cased t' hash_a path_a ≡ some (some dirty_info))
stat_cache_stat_dirty_example =
    stat_cache_stat_dirty cased system dirty_cache path_a hash_a dirty_info dirty_cache-IsTable
      dirty_shift dirty_light hash_a_pos dirty_found dirty_not_clean
