-- ===== src/StatCache.antt =====
-- src/StatCache.cpp, one call after the other: the lock is held for a lookup or an insertion, and the
-- count of misses is left out. `get_file_info` is the system's.
pub mod Dirty
use mathlib.Core.Option.{some-injective, some-ne-none}
use Prim.Native.Nat.{bit_and}
use tundra.HashTable.{
  HashTableFlags, HashTable, hash_table_init, hash_table_destroy, compare_fn,
  hash_table_base_lookup, hash_table_lookup, payload_at, hash_table_insert,
}
use tundra.HashTable.Lookup.{key_of, compare_fn_iff}
use tundra.HashTable.Contents.{IsTable, hash_table_lookup-Tells}
use tundra.HashTable.Insertion.{hash_table_lookup-insert}
use tundra.Prelude.{
  ℕ, ◌+◌, ◌^◌, ◌≤◌, ◌<◌, Bool, true, false, ◌&&◌, ◌≡◌, ◌≢◌, ◌⊎◌, inl, inr, refl, sym, ap, subst,
  ◌∙◌, List, Option, none, some, if◌then◌else◌, ◌==◌, get_or, set, ◌>>=◌, Bool-cases, arith,
}

pub record FileInfo : Type 0 where
  pub flags : ℕ
  pub size : ℕ
  pub timestamp : ℕ

abbrev pub flag_dirty : ℕ
flag_dirty = 2 ^ 30

-- A zeroed record, which is never read.
abbrev pub no_info : FileInfo
no_info = record { flags = 0; size = 0; timestamp = 0 }

abbrev pub StatCache : Type 0
StatCache = HashTable FileInfo

-- StatCacheInit and StatCacheDestroy
unfoldable pub stat_cache_init : StatCache
unfolding hash_table_init
stat_cache_init = hash_table_init

unfoldable pub stat_cache_destroy : StatCache → StatCache
unfolding hash_table_destroy
stat_cache_destroy self = hash_table_destroy self

-- `0 == (fi->m_Flags & FileInfo::kFlagDirty)`
unfoldable pub is_clean : FileInfo → Bool
is_clean fi = bit_and fi.flags flag_dirty == 0

unfoldable pub mark_at : StatCache → Option ℕ → StatCache
mark_at self none = self
mark_at self (some index) =
    let fi = get_or self.slots.payloads index no_info in
    let slots = record self.slots {
      payloads = set self.slots.payloads index (record fi { flags = flag_dirty });
    } in
    record self { slots = slots }

unfoldable pub stat_cache_mark_dirty : HashTableFlags → StatCache → List ℕ → ℕ → Option StatCache
unfolding mark_at hash_table_base_lookup
stat_cache_mark_dirty flags self path hash =
    hash_table_base_lookup flags self hash path >>= (λ found. some (mark_at self found))

-- What StatCacheStat does with the record that it found.
unfoldable pub stat_found :
    (List ℕ → FileInfo) → StatCache → List ℕ → ℕ → Option FileInfo → Option (FileInfo × StatCache)
unfolding is_clean hash_table_insert
stat_found get_file_info self path hash none =
    let file_info = get_file_info path in
    hash_table_insert no_info self hash path file_info >>= (λ self'. some (file_info, self'))
stat_found get_file_info self path hash (some fi) =
    let file_info = get_file_info path in
    if is_clean fi
    then some (fi, self)
    else hash_table_insert no_info self hash path file_info >>= (λ self'. some (file_info, self'))

unfoldable pub stat_cache_stat :
    HashTableFlags → (List ℕ → FileInfo) → StatCache → List ℕ → ℕ → Option (FileInfo × StatCache)
unfolding stat_found hash_table_lookup
stat_cache_stat flags get_file_info self path hash =
    hash_table_lookup no_info flags self hash path
    >>= (λ fi. stat_found get_file_info self path hash fi)

module _ (flags : HashTableFlags) (get : List ℕ → FileInfo) where
  -- The records are what the system says of their files, and none is dirty.
  abbrev pub Agrees : StatCache → Type 0
  Agrees t =
      (hash : ℕ) (path : List ℕ) (fi : FileInfo)
      → hash ≢ 0
      → hash_table_lookup no_info flags t hash path ≡ some (some fi)
      → (fi ≡ get path) × (is_clean fi ≡ true)

  abbrev pub Answer : StatCache → List ℕ → ℕ → Type 0
  Answer t path hash =
      (t' : StatCache) × (stat_cache_stat flags get t path hash ≡ some (get path, t'))
      × IsTable flags no_info t'
      × Agrees t'

  -- Paths that the table takes for the same are the same file, and the system marks nothing dirty.
  pub record FileSystem : Type 0 where
    pub same_file : (a b : List ℕ) → key_of flags a ≡ key_of flags b → get a ≡ get b
    pub clean : (path : List ℕ) → is_clean (get path) ≡ true

  inserted-Agrees :
      (fs : FileSystem) (t t' : StatCache) (path : List ℕ) (hash : ℕ)
      → Agrees t
      → ((h : ℕ) (str : List ℕ)
          → h ≢ 0
          → hash_table_lookup no_info flags t' h str ≡ (
              if hash == h && compare_fn flags path str
              then some (some (get path))
              else hash_table_lookup no_info flags t h str))
      → Agrees t'
  inserted-Agrees fs t t' path hash agrees maps h str fi pos e =
      let same = compare_fn_iff flags path str in
      elim (Bool-cases (hash == h && compare_fn flags path str)) [
        | inl m ↦
            let got : get path ≡ fi =
              some-injective _ _ (some-injective _ _ (sym (maps h str pos ∙ rw m refl) ∙ e)) in
            (
              sym got ∙ fs.same_file path str (ground (arith, same)),
              ap is_clean (sym got) ∙ fs.clean path,
            )
        | inr m ↦ agrees h str fi pos (sym (maps h str pos ∙ rw m refl) ∙ e)
      ]

  stat_from :
      (fs : FileSystem) (t : StatCache) (path : List ℕ) (hash : ℕ) (r : Option FileInfo)
      → IsTable flags no_info t
      → t.table_size_shift ≤ 29
      → hash ≢ 0
      → Agrees t
      → hash_table_lookup no_info flags t hash path ≡ some r
      → Answer t path hash
  unfolding stat_cache_stat
  stat_from fs t path hash none v small pos agrees e =
      let (t', inserted, v', maps) =
        hash_table_lookup-insert flags no_info t hash path (get path) v small pos e in
      (t', rw (e, inserted) refl, v', inserted-Agrees fs t t' path hash agrees maps)
  stat_from fs t path hash (some fi) v small pos agrees e =
      let (same, clean) = agrees hash path fi pos e in
      (t, rw (e, clean) (ap (λ i. some (i, t)) same), v, agrees)

  -- Where each record in a table of at most 2^29 slots is what the system says of its file, none is
  -- dirty, paths that the table takes for the same are the same file, and the system marks nothing
  -- dirty, a call for a hash that is not zero gives what the system says of the file, and leaves such
  -- a table.
  pub stat_cache_stat-Agrees :
      (t : StatCache) (path : List ℕ) (hash : ℕ)
      → FileSystem
      → IsTable flags no_info t
      → t.table_size_shift ≤ 29
      → hash ≢ 0
      → Agrees t
      → Answer t path hash
  stat_cache_stat-Agrees t path hash fs v small pos agrees =
      let (r, e, tells) = hash_table_lookup-Tells flags no_info t hash path v pos in
      stat_from fs t path hash r v small pos agrees e

  pub hash_table_init-Agrees : Agrees hash_table_init
  unfolding hash_table_init hash_table_lookup
  hash_table_init-Agrees hash path fi pos e = absurd (some-ne-none _ (sym (some-injective _ _ e)))
