-- ===== src/DigestCache/Records.antt =====
-- A cache of digests: what is set is got for its time stamp, and getting changes no answer.
use tundra.HashTable.{
  HashTableFlags, compare_fn, hash_table_base_lookup, payload_at, hash_table_lookup,
}
use tundra.HashTable.Contents.{IsTable, base_lookup-Finds}
use tundra.HashTable.Insertion.{hash_table_lookup-insert}
use tundra.HashTable.Update.{store_payload, hash_table_lookup-store_payload, hash_table_lookup_same}
use tundra.DigestCache.{
  DigestCacheRecord, no_record, DigestCache, get_found, digest_cache_get, set_found,
  digest_cache_set,
}
use tundra.Prelude.{
  ℕ, ◌≤◌, ◌≡◌, ◌≢◌, refl, true, ◌&&◌, List, Option, none, some, if◌then◌else◌, ◌==◌, get_or, ◌>>=◌,
  Bool-cases, inl, inr,
}

-- The digest that a record has for a time stamp.
abbrev pub digest_at : ℕ → Option DigestCacheRecord → Option (List ℕ)
digest_at timestamp none = none
digest_at timestamp (some r) = if r.timestamp == timestamp then some r.content_digest else none

-- What DigestCacheGet answers.
abbrev pub answer : HashTableFlags → DigestCache → List ℕ → ℕ → ℕ → Option (Option (List ℕ))
answer flags self filename hash timestamp =
    hash_table_lookup no_record flags self.table hash filename
    >>= (λ r. some (digest_at timestamp r))

abbrev pub IsCache : HashTableFlags → DigestCache → Type 0
IsCache flags self = IsTable flags no_record self.table

module _ (flags : HashTableFlags) where
  -- The cache answers as another does, but where `same` holds and the time stamp is asked for.
  abbrev pub Sets : DigestCache → DigestCache → List ℕ → ℕ → ℕ → List ℕ → Type 0
  Sets self self' filename hash timestamp digest =
      (str : List ℕ) (h ts : ℕ)
      → h ≢ 0
      → answer flags self' str h ts ≡ (
          if hash == h && compare_fn flags filename str
          then some (if timestamp == ts then some digest else none)
          else answer flags self str h ts)

  answer-from :
      (self self' : DigestCache) (filename str : List ℕ) (hash h ts : ℕ) (r : DigestCacheRecord)
      → hash_table_lookup no_record flags self'.table h str ≡ (
          if hash == h && compare_fn flags filename str
          then some (some r)
          else hash_table_lookup no_record flags self.table h str)
      → answer flags self' str h ts ≡ (
          if hash == h && compare_fn flags filename str
          then some (digest_at ts (some r))
          else answer flags self str h ts)
  answer-from self self' filename str hash h ts r e =
      elim (Bool-cases (hash == h && compare_fn flags filename str)) [
        | inl m ↦ rw (e, m) refl
        | inr m ↦ rw (e, m) refl
      ]

  base-lookup_lem :
      (self : DigestCache) (filename : List ℕ) (hash : ℕ) (found : Option ℕ)
      → hash_table_base_lookup flags self.table hash filename ≡ some found
      → hash_table_lookup no_record flags self.table hash filename
        ≡ some (payload_at no_record self.table.slots found)
  unfolding hash_table_lookup
  base-lookup_lem self filename hash found e = rw e refl

  set_from :
      (self : DigestCache) (filename : List ℕ) (hash timestamp : ℕ) (digest : List ℕ)
      (found : Option ℕ)
      → IsCache flags self
      → self.table.table_size_shift ≤ 29
      → hash ≢ 0
      → hash_table_base_lookup flags self.table hash filename ≡ some found
      → (self' : DigestCache) × (set_found self filename hash
            (record {
              content_digest = digest;
              timestamp = timestamp;
              access_time = self.access_time;
            })
            found
          ≡ some self')
        × IsCache flags self'
        × Sets self self' filename hash timestamp digest
  unfolding set_found payload_at
  set_from self filename hash timestamp digest none v small pos e =
      let r : DigestCacheRecord = record {
        content_digest = digest;
        timestamp = timestamp;
        access_time = self.access_time;
      } in
      let (t', inserted, v', maps) =
        hash_table_lookup-insert flags no_record self.table hash filename r v small pos
          (base-lookup_lem self filename hash none e) in
      let self' : DigestCache = record self { table = t' } in
      (
        self',
        rw inserted refl,
        v',
        λ str h ts hpos. answer-from self self' filename str hash h ts r (maps h str hpos),
      )
  set_from self filename hash timestamp digest (some index) v small pos e =
      let r : DigestCacheRecord = record {
        content_digest = digest;
        timestamp = timestamp;
        access_time = self.access_time;
      } in
      let (v', maps) =
        hash_table_lookup-store_payload flags no_record self.table hash index filename r v pos e in
      let self' : DigestCache = record self { table = store_payload self.table index r } in
      (
        self',
        refl,
        v',
        λ str h ts hpos. answer-from self self' filename str hash h ts r (maps h str hpos),
      )

  -- In a cache of at most 2^29 slots, setting the digest of a file under a hash that is not zero
  -- succeeds, and afterwards the cache answers that digest for that file and time stamp, nothing for
  -- the file with another time stamp, and for any other file what it did before.
  pub digest_cache_set-Sets :
      (self : DigestCache) (filename : List ℕ) (hash timestamp : ℕ) (digest : List ℕ)
      → IsCache flags self
      → self.table.table_size_shift ≤ 29
      → hash ≢ 0
      → (self' : DigestCache) × (digest_cache_set flags self filename hash timestamp digest
          ≡ some self')
        × IsCache flags self'
        × Sets self self' filename hash timestamp digest
  unfolding digest_cache_set
  digest_cache_set-Sets self filename hash timestamp digest v small pos =
      let (found, e, finds) = base_lookup-Finds flags no_record self.table hash filename v pos in
      rw e (set_from self filename hash timestamp digest found v small pos e)

  abbrev pub Gets : DigestCache → List ℕ → ℕ → ℕ → Option (List ℕ) → DigestCache → Type 0
  Gets self filename hash timestamp digest self' =
      (answer flags self filename hash timestamp ≡ some digest)
      × IsCache flags self'
      × (self'.table.table_size_shift ≡ self.table.table_size_shift)
      × ((str : List ℕ) (h ts : ℕ)
          → h ≢ 0
          → answer flags self' str h ts ≡ answer flags self str h ts)

  touched-answer :
      (self self' : DigestCache) (filename str : List ℕ) (hash h ts : ℕ) (r : DigestCacheRecord)
      → hash_table_lookup no_record flags self.table hash filename ≡ some (some r)
      → (hash == h && compare_fn flags filename str ≡ true
          → hash_table_lookup no_record flags self.table h str ≡ some (some r))
      → hash_table_lookup no_record flags self'.table h str ≡ (
          if hash == h && compare_fn flags filename str
          then some (some (record r { access_time = self.access_time }))
          else hash_table_lookup no_record flags self.table h str)
      → answer flags self' str h ts ≡ answer flags self str h ts
  touched-answer self self' filename str hash h ts r e same maps =
      elim (Bool-cases (hash == h && compare_fn flags filename str)) [
        | inl m ↦ rw (maps, m, same m) refl
        | inr m ↦ rw (maps, m) refl
      ]

  get_from :
      (self : DigestCache) (filename : List ℕ) (hash timestamp : ℕ) (found : Option ℕ)
      → IsCache flags self
      → hash ≢ 0
      → hash_table_base_lookup flags self.table hash filename ≡ some found
      → Gets self filename hash timestamp
          (get_found self timestamp found).0
          (get_found self timestamp found).1
  unfolding get_found payload_at store_payload
  get_from self filename hash timestamp none v pos e =
      let looked = base-lookup_lem self filename hash none e in
      (rw looked refl, v, refl, λ str h ts hpos. refl)
  get_from self filename hash timestamp (some index) v pos e =
      let looked = base-lookup_lem self filename hash (some index) e in
      let r = get_or self.table.slots.payloads index no_record in
      let r' : DigestCacheRecord = record r { access_time = self.access_time } in
      let (v', maps) =
        hash_table_lookup-store_payload flags no_record self.table hash index filename r' v pos e in
      elim (Bool-cases (r.timestamp == timestamp)) [
        | inl same ↦
            let self' : DigestCache = record self { table = store_payload self.table index r' } in
            rw same (
              rw (looked, same) refl,
              v',
              refl,
              λ str h ts hpos.
                  touched-answer self self' filename str hash h ts r looked
                    (λ m.
                      hash_table_lookup_same flags no_record self.table hash h filename str r v pos
                        m looked)
                    (maps h str hpos),
            )
        | inr other ↦ rw other (rw (looked, other) refl, v, refl, λ str h ts hpos. refl)
      ]

  -- Getting a digest under a hash that is not zero gives what the cache answers, and changes no
  -- answer and no size.
  pub digest_cache_get-Gets :
      (self : DigestCache) (filename : List ℕ) (hash timestamp : ℕ)
      → IsCache flags self
      → hash ≢ 0
      → (digest : Option (List ℕ)) × (self' : DigestCache) × (digest_cache_get flags self filename
            hash timestamp
          ≡ some (digest, self'))
        × Gets self filename hash timestamp digest self'
  unfolding digest_cache_get
  digest_cache_get-Gets self filename hash timestamp v pos =
      let (found, e, finds) = base_lookup-Finds flags no_record self.table hash filename v pos in
      let out = get_found self timestamp found in
      (out.0, out.1, rw e refl, get_from self filename hash timestamp found v pos e)
