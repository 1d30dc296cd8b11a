-- ===== src/StatCache/Dirty.antt =====
-- A file that was marked dirty is never cached again: the record that lookups find stays dirty.
use mathlib.Core.Option.{some-injective, some-ne-none}
use native.Mathlib.Nat.{mod-eq_of_lt}
use tundra.HashTable.{
  HashTableFlags, Slots, compare_fn, next_slot, first_index, put_slot, lookup_loop,
  hash_table_base_lookup, hash_table_lookup, payload_at, load, insert_slot,
}
use tundra.HashTable.Probe.{IsSize}
use tundra.HashTable.Stored.{Finds, finds_free}
use tundra.HashTable.Contents.{IsTable, base_lookup-Finds}
use tundra.HashTable.Insertion.{light_bounds}
use tundra.StatCache.{FileInfo, StatCache, no_info, is_clean, stat_cache_stat}
use tundra.Prelude.{
  ℕ, zero, suc, ◌+◌, ◌%◌, ◌^◌, ◌≤◌, false, ◌&&◌, ◌≡◌, ◌≢◌, refl, sym, ap, ◌∙◌, inl, inr, List, [],
  Option, none, some, ◌==◌, ltb, get_or, get_or-set_ne, Bool-cases, arith,
}

module _ {ℓ} {A : Type ℓ} (flags : HashTableFlags) (s : Slots A) (size : ℕ) (k h' : ℕ)
    (str' : List ℕ) (p' : A) where
  -- What a lookup found it still finds after a store into a free slot.
  lookup_loop-put_slot :
      (hash : ℕ) (string : List ℕ) (i : ℕ)
      → get_or s.hashes k 0 ≡ 0
      → (fuel a : ℕ) → lookup_loop flags s size hash string fuel a ≡ some (some i)
      → lookup_loop flags (put_slot s k h' str' p') size hash string fuel a ≡ some (some i)
  unfolding lookup_loop put_slot
  lookup_loop-put_slot hash string i free zero a = λ e. absurd (some-ne-none _ (sym e))
  lookup_loop-put_slot hash string i free (suc fuel) a =
      let rest = lookup_loop-put_slot hash string i free fuel (next_slot size a) in
      elim (Bool-cases (get_or s.hashes a 0 == 0)) [
        | inl z ↦ rw z (λ miss. absurd (some-ne-none _ (sym (some-injective _ _ miss))))
        | inr z ↦
            let ne : k ≢ a = λ same. ground (arith, ap (λ j. get_or s.hashes j 0) same, free) in
            let hashes = get_or-set_ne s.hashes h' 0 ne in
            let strings = get_or-set_ne s.strings str' [] ne in
            elim (Bool-cases
              (hash == get_or s.hashes a 0 && compare_fn flags (get_or s.strings a []) string)) [
                | inl m ↦ rw (hashes, strings, z, m) (λ hit. hit)
                | inr m ↦ rw (hashes, strings, z, m) rest
              ]
      ]

-- The table after a store into the free slot.
abbrev stored : StatCache → ℕ → ℕ → List ℕ → FileInfo → StatCache
stored t k hash path info = record t {
  slots = put_slot t.slots k hash path info;
  record_count = (t.record_count + 1) % 2 ^ 32;
}

base_lookup-stored :
    (flags : HashTableFlags) (t : StatCache) (k hash : ℕ) (path : List ℕ) (info : FileInfo) (i : ℕ)
    → get_or t.slots.hashes k 0 ≡ 0
    → hash_table_base_lookup flags t hash path ≡ some (some i)
    → hash_table_base_lookup flags (stored t k hash path info) hash path ≡ some (some i)
unfolding hash_table_base_lookup
base_lookup-stored flags t k hash path info i free = elim (Bool-cases (0 == t.table_size)) [
  | inl z ↦ rw z (λ e. e)
  | inr z ↦ rw z (
      lookup_loop-put_slot flags t.slots t.table_size k hash path info hash path i free t.table_size
        (first_index t.table_size hash))
]

lookup-stored :
    (flags : HashTableFlags) (t : StatCache) (k hash : ℕ) (path : List ℕ) (info fi : FileInfo)
    (r : Option ℕ)
    → get_or t.slots.hashes k 0 ≡ 0
    → hash ≢ 0
    → hash_table_base_lookup flags t hash path ≡ some r
    → Finds flags no_info t.table_size t.slots hash path r
    → hash_table_lookup no_info flags t hash path ≡ some (some fi)
    → hash_table_lookup no_info flags (stored t k hash path info) hash path ≡ some (some fi)
unfolding hash_table_lookup payload_at put_slot
lookup-stored flags t k hash path info fi none free pos e finds =
    rw e (λ miss. absurd (some-ne-none _ (sym (some-injective _ _ miss))))
lookup-stored flags t k hash path info fi (some i) free pos e m =
    let ne : k ≢ i =
      λ same. pos (sym m.same_hash ∙ ap (λ j. get_or t.slots.hashes j 0) (sym same) ∙ free) in
    let again = base_lookup-stored flags t k hash path info i free e in
    rw (e, again)
      (λ found. ap (λ p. some (some p)) (get_or-set_ne t.slots.payloads info no_info ne) ∙ found)

-- Where the table of at most 2^29 slots has room, so that it does not grow, and a lookup for the hash,
-- which is not zero, and the path finds a dirty record, StatCacheStat asks the system and inserts one
-- more record for the path, and lookups for it still find the dirty one.
pub stat_cache_stat_dirty :
    (flags : HashTableFlags) (get : List ℕ → FileInfo) (t : StatCache) (path : List ℕ) (hash : ℕ)
    (fi : FileInfo)
    → IsTable flags no_info t
    → t.table_size_shift ≤ 29
    → ltb 0x050 (load t) ≡ false
    → hash ≢ 0
    → hash_table_lookup no_info flags t hash path ≡ some (some fi)
    → is_clean fi ≡ false
    → (t' : StatCache) × (stat_cache_stat flags get t path hash ≡ some (get path, t'))
      × (t'.record_count ≡ t.record_count + 1)
      × (hash_table_lookup no_info flags t' hash path ≡ some (some fi))
unfolding stat_cache_stat insert_slot hash_table_lookup
stat_cache_stat_dirty flags get t path hash fi v small light pos found dirty =
    let (power, room, fits) = light_bounds flags no_info t v small light in
    let p : IsSize t.table_size = record { shift = t.table_size_shift; is_power = power } in
    let (k, free_at, hk, free, run) =
      finds_free flags no_info t.table_size t.slots hash p v.formed (omega (arith, v.count)) in
    let (r, e, finds) = base_lookup-Finds flags no_info t hash path v pos in
    (
      stored t k hash path (get path),
      rw (found, dirty, light, free_at) refl,
      mod-eq_of_lt fits,
      lookup-stored flags t k hash path (get path) fi r free pos e finds found,
    )
